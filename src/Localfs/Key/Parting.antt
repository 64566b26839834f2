-- ===== src/Localfs/Key/Parting.antt =====
-- localfs/key.go: the base of a segment, and what isReservedName leaves aside.
use micawber.Prelude.{
  subst, &&_iff, inr, refl, append_assoc, ◌&&◌, inl, ap, [], ◌||◌, ◌∙◌, arith, is_nil, Bool-cases,
  true, ◌==◌, ◌∷◌, ◌++◌, all, Bool, ◌≡◌, ℕ, Bytes,
}
use micawber.Go.Fold.{is_ascii}
use micawber.Go.Text.{trim_right}
use micawber.Localfs.Key.Devices.{IsTail, IsDevice, device_names}
use micawber.Localfs.Key.Reserved.{reserved-capitals}
use micawber.Localfs.Key.Spellings.{IsSpelt-capitals}
use micawber.Localfs.Key.{stem, is_reserved_name}

-- What part of a segment stands behind its stem: nothing, or a dot or a colon and the rest.
stem-parts : (s : Bytes) → (t : Bytes) × (IsTail t) × (s ≡ stem s ++ t)
unfolding stem
stem-parts [] = ([], tt, refl)
stem-parts (c ∷ s) =
    let (t, tail, whole) = stem-parts s in
    elim (Bool-cases (c == b'.' || c == b':')) [
      | inl stop ↦ (c ∷ s, stop, rw stop refl)
      | inr other ↦ (t, tail, rw other (ap (λ x. c ∷ x) whole))
    ]

abbrev is_blank : ℕ → Bool
is_blank c = c == b' '

-- The spaces that a trim takes.
trim-parts : (s : Bytes) → (t : Bytes) × (all is_blank t ≡ true) × (s ≡ trim_right is_blank s ++ t)
unfolding trim_right
trim-parts [] = ([], refl, refl)
trim-parts (c ∷ s) =
    let (t, blank, whole) = trim-parts s in
    elim (Bool-cases (is_blank c && is_nil (trim_right is_blank s))) [
      | inl gone ↦
          let both = (&&_iff (is_blank c) (is_nil (trim_right is_blank s))).0 gone in
          (
            c ∷ t,
            (&&_iff (is_blank c) (all is_blank t)).1 (both.0, blank),
            rw gone (
                ap (λ x. c ∷ x)
                  (whole ∙ ap (λ x. x ++ t) (is_nil-empty (trim_right is_blank s) both.1))),
          )
      | inr kept ↦ (t, blank, rw kept (ap (λ x. c ∷ x) whole))
    ]
  where
    is_nil-empty : (s : Bytes) → is_nil s ≡ true → s ≡ []
    is_nil-empty [] h = refl
    is_nil-empty (c ∷ s) h = cc

is_ascii_append_left : (s t : Bytes) → is_ascii (s ++ t) ≡ true → is_ascii s ≡ true
is_ascii_append_left [] t h = refl
is_ascii_append_left (c ∷ s) t h = ground (arith, is_ascii_append_left s t)

-- What isReservedName tells of an ASCII segment is a device.
pub reserved-IsDevice :
    (unicode : Bytes → Bytes) (seg : Bytes)
    → is_ascii seg ≡ true
    → is_reserved_name unicode seg ≡ true
    → IsDevice seg
unfolding is_reserved_name
reserved-IsDevice unicode seg ascii h =
    let (tail, ends, whole) = stem-parts seg in
    let (spaces, blank, parted) = trim-parts (stem seg) in
    let name = trim_right is_blank (stem seg) in
    let all_of : seg ≡ name ++ (spaces ++ tail) =
      whole ∙ ap (λ x. x ++ tail) parted ∙ append_assoc name spaces tail in
    let name_ascii =
      is_ascii_append_left name (spaces ++ tail) (subst (λ x. is_ascii x ≡ true) all_of ascii) in
    record {
      name = name;
      spaces = spaces;
      tail = tail;
      named = IsSpelt-capitals name device_names (reserved-capitals unicode name name_ascii h);
      blank = blank;
      ends = ends;
      whole = all_of;
    }
