-- ===== src/Core/Clone/Apart.antt =====
-- core/content.go: a clone reads the same, and shares nothing with the original.
use micawber.Core.Value.{Value}
use micawber.Prelude.{
  zero, suc, ◌∙◌, [], arith, refl, none, ◌∷◌, length, Bytes, ◌≡◌, ◌≤◌, ◌++◌, ◌<◌, List, some, ℕ,
}
use micawber.Core.Clone.{
  write_nested, Entries, write_fields, write_raw, write_body, set, Overwrite, Memory, set_fields,
  set_bytes, get, edit_all, edit, seen_content, entries_at, bytes_at, ContentRef, Ref,
}

module _ {ℓ} {A : Type ℓ} (nothing : A) where
  pub get-append :
      (xs ys : List A) (n : ℕ) → n < length xs → get nothing (xs ++ ys) n ≡ get nothing xs n
  unfolding get
  get-append [] ys n fits = absurd (omega arith)
  get-append (x ∷ xs) ys zero fits = refl
  get-append (x ∷ xs) ys (suc n) fits = get-append xs ys n (omega arith)

  pub get-append_last : (xs : List A) (y : A) → get nothing (xs ++ (y ∷ [])) (length xs) ≡ y
  unfolding get
  get-append_last [] y = refl
  get-append_last (x ∷ xs) y = get-append_last xs y

  get-set_other :
      (xs : List A) (i j : ℕ) (y : A) → (i ≡ j → ⊥) → get nothing (set xs j y) i ≡ get nothing xs i
  unfolding get set
  get-set_other [] i j y apart = refl
  get-set_other (x ∷ xs) zero zero y apart = absurd (apart refl)
  get-set_other (x ∷ xs) zero (suc j) y apart = refl
  get-set_other (x ∷ xs) (suc i) zero y apart = refl
  get-set_other (x ∷ xs) (suc i) (suc j) y apart =
      get-set_other xs i j y λ same. apart (omega (arith, same))

-- An address below the end, and one that is not below it.
abbrev pub IsIn : Ref → ℕ → Type 0
IsIn none n = Unit
IsIn (some a) n = a < n

abbrev pub IsNew : ℕ → Ref → Type 0
IsNew n none = Unit
IsNew n (some a) = n ≤ a

abbrev pub IsApart : Ref → Ref → Type 0
IsApart (some a) (some b) = a ≡ b → ⊥
IsApart _ _ = Unit

pub apart : (r s : Ref) (n : ℕ) → IsIn r n → IsNew n s → IsApart r s × IsApart s r
apart none none n old new = (tt, tt)
apart none (some b) n old new = (tt, tt)
apart (some a) none n old new = (tt, tt)
apart (some a) (some b) n old new = (λ same. omega (arith, same), λ same. omega (arith, same))

-- No slice and no map of one is one of the other.
pub record AreApart (c d : ContentRef) : Type 0 where
  pub body_body : IsApart c.body d.body
  pub body_raw : IsApart c.body d.front_matter.raw
  pub raw_body : IsApart c.front_matter.raw d.body
  pub raw_raw : IsApart c.front_matter.raw d.front_matter.raw
  pub maps : IsApart c.front_matter.fields d.front_matter.fields

set_bytes-other :
    (m : Memory) (r s : Ref) (b : Bytes) → IsApart r s → bytes_at (set_bytes s b m) r ≡ bytes_at m r
unfolding bytes_at set_bytes
set_bytes-other m none none b h = refl
set_bytes-other m none (some j) b h = refl
set_bytes-other m (some i) none b h = refl
set_bytes-other m (some i) (some j) b h = get-set_other [] m.arrays i j b h

set_bytes-fields :
    (m : Memory) (r s : Ref) (b : Bytes) → entries_at (set_bytes s b m) r ≡ entries_at m r
unfolding entries_at set_bytes
set_bytes-fields m none none b = refl
set_bytes-fields m none (some j) b = refl
set_bytes-fields m (some i) none b = refl
set_bytes-fields m (some i) (some j) b = refl

set_fields-other :
    (m : Memory) (r s : Ref) (fs : Entries)
    → IsApart r s
    → entries_at (set_fields s fs m) r ≡ entries_at m r
unfolding entries_at set_fields
set_fields-other m none none fs h = refl
set_fields-other m none (some j) fs h = refl
set_fields-other m (some i) none fs h = refl
set_fields-other m (some i) (some j) fs h = get-set_other [] m.maps i j fs h

set_fields-bytes :
    (m : Memory) (r s : Ref) (fs : Entries) → bytes_at (set_fields s fs m) r ≡ bytes_at m r
unfolding bytes_at set_fields
set_fields-bytes m none none fs = refl
set_fields-bytes m none (some j) fs = refl
set_fields-bytes m (some i) none fs = refl
set_fields-bytes m (some i) (some j) fs = refl

-- A content with other slices and another map.
abbrev pub with_refs : ContentRef → Ref → Ref → Ref → ContentRef
with_refs c raw fields body = record {
  path = c.path;
  front_matter = record { format = c.front_matter.format; raw = raw; fields = fields };
  body = body;
  revision = c.revision;
}

-- What is read of the parts is what is read of the whole.
pub seen_content-parts :
    (m n : Memory) (c : ContentRef) (raw fields body : Ref)
    → m.values ≡ n.values
    → bytes_at m raw ≡ bytes_at n c.front_matter.raw
    → entries_at m fields ≡ entries_at n c.front_matter.fields
    → bytes_at m body ≡ bytes_at n c.body
    → seen_content m (with_refs c raw fields body) ≡ seen_content n c
unfolding seen_content
seen_content-parts m n c raw fields body v e f g = rw (v, e, f, g) refl

pub seen_content-eq :
    (m n : Memory) (c : ContentRef)
    → m.values ≡ n.values
    → bytes_at m c.front_matter.raw ≡ bytes_at n c.front_matter.raw
    → entries_at m c.front_matter.fields ≡ entries_at n c.front_matter.fields
    → bytes_at m c.body ≡ bytes_at n c.body
    → seen_content m c ≡ seen_content n c
seen_content-eq m n c values raw fields body =
    seen_content-parts m n c c.front_matter.raw c.front_matter.fields c.body values raw fields body

values-set_bytes : (m : Memory) (s : Ref) (b : Bytes) → (set_bytes s b m).values ≡ m.values
unfolding set_bytes
values-set_bytes m none b = refl
values-set_bytes m (some a) b = refl

values-set_fields : (m : Memory) (s : Ref) (fs : Entries) → (set_fields s fs m).values ≡ m.values
unfolding set_fields
values-set_fields m none fs = refl
values-set_fields m (some a) fs = refl

-- A write into a value leaves the slices and the maps.
pub write_nested-arrays :
    (writes : List (ℕ × Value)) (m : Memory) (r : Ref)
    → (bytes_at (write_nested writes m) r ≡ bytes_at m r)
      × (entries_at (write_nested writes m) r ≡ entries_at m r)
unfolding write_nested bytes_at entries_at
write_nested-arrays [] m r = (refl, refl)
write_nested-arrays ((a, v) ∷ writes) m none =
    write_nested-arrays writes (record m { values = set m.values a v }) none
write_nested-arrays ((a, v) ∷ writes) m (some i) =
    write_nested-arrays writes (record m { values = set m.values a v }) (some i)

edit-seen_content :
    (c d : ContentRef) (e : Overwrite) (m : Memory)
    → AreApart c d
    → seen_content (edit d e m) c ≡ seen_content m c
unfolding edit
edit-seen_content c d (write_body b) m h =
    seen_content-eq (set_bytes d.body b m) m c (values-set_bytes m d.body b)
      (set_bytes-other m c.front_matter.raw d.body b h.raw_body)
      (set_bytes-fields m c.front_matter.fields d.body b)
      (set_bytes-other m c.body d.body b h.body_body)
edit-seen_content c d (write_raw b) m h =
    seen_content-eq (set_bytes d.front_matter.raw b m) m c (values-set_bytes m d.front_matter.raw b)
      (set_bytes-other m c.front_matter.raw d.front_matter.raw b h.raw_raw)
      (set_bytes-fields m c.front_matter.fields d.front_matter.raw b)
      (set_bytes-other m c.body d.front_matter.raw b h.body_raw)
edit-seen_content c d (write_fields fs) m h =
    seen_content-eq (set_fields d.front_matter.fields fs m) m c
      (values-set_fields m d.front_matter.fields fs)
      (set_fields-bytes m c.front_matter.raw d.front_matter.fields fs)
      (set_fields-other m c.front_matter.fields d.front_matter.fields fs h.maps)
      (set_fields-bytes m c.body d.front_matter.fields fs)

pub edit_all-seen_content :
    (c d : ContentRef) (es : List Overwrite) (m : Memory)
    → AreApart c d
    → seen_content (edit_all d es m) c ≡ seen_content m c
unfolding edit_all
edit_all-seen_content c d [] m h = refl
edit_all-seen_content c d (e ∷ es) m h =
    edit_all-seen_content c d es (edit d e m) h ∙ edit-seen_content c d e m h
