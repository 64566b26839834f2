-- ===== src/Core/Collection/Laws.antt =====
-- core/collection.go: Contains, Join and Rel, by segments.
use micawber.Prelude.{
  Bool-cases, inl, inr, true, false, ◌∷◌, [], ◌++◌, List, Bytes, codes, is_nil, length-append, none,
  some, if◌then◌else◌, ◌≡◌, ◌≢◌, ◌↔◌, refl, sym, ap, ◌∙◌, arith, All, All-append, append_assoc,
}
use micawber.Go.Text.{has_prefix, trim_prefix, split, join as join_on}
use micawber.Go.Text.Split.{split-append, split-ne-nil, join-split, join-append}
use micawber.Go.Text.Prefix.{has_prefix-append, has_prefix-split, trim_prefix-append}
use micawber.Go.Utf8.{valid_string_after_ascii}
use micawber.Core.Errors.{content_path, ok, >>-ok_iff}
use micawber.Core.RelPath.{max_content_path_bytes, validate_rel_path}
use micawber.Core.RelPath.Spec.{IsPlain, IsSegment, NoDrive, IsRelPath, validate_rel_path_iff}
use micawber.Core.ContentPath.{ContentPath, new_content_path}
use micawber.Core.ContentPath.Laws.{IsContentPath, path_of, new_content_path-ok, IsContentPath-new}
use mathlib.Core.Path.{subst}
use micawber.Core.Collection.{Collection, contains, join, rel}

-- The segments of a collection: the root has none.
abbrev pub segments_of : Bytes → List Bytes
segments_of [] = []
segments_of (c ∷ s) = split b'/' (c ∷ s)

-- The string of a path below a collection.
abbrev pub below : Bytes → Bytes → Bytes
below [] r = r
below (c ∷ s) r = (c ∷ s) ++ (b'/' ∷ r)

split-below : (c r : Bytes) → split b'/' (below c r) ≡ segments_of c ++ split b'/' r
split-below [] r = refl
split-below (c ∷ s) r = split-append b'/' (c ∷ s) r

below-ne-nil : (c r : Bytes) → r ≢ [] → below c r ≢ []
below-ne-nil [] r h = h
below-ne-nil (c ∷ s) r h = λ e. cc

prefix-below : (q r : Bytes) → has_prefix (q ++ (b'/' ∷ r)) (q ++ codes "/") ≡ true
prefix-below q r =
    ap (λ z. has_prefix z (q ++ codes "/")) (sym (append_assoc q (codes "/") r))
    ∙ has_prefix-append (q ++ codes "/") r

trim-below : (q r : Bytes) → trim_prefix (q ++ (b'/' ∷ r)) (q ++ codes "/") ≡ r
trim-below q r =
    ap (λ z. trim_prefix z (q ++ codes "/")) (sym (append_assoc q (codes "/") r))
    ∙ trim_prefix-append (q ++ codes "/") r

-- Contains and Rel on a path that lies below.
rel-below :
    (c r : Bytes) → below c r ≢ [] → rel (record { p = c }) (record { p = below c r }) ≡ some r
unfolding rel
rel-below [] [] h = absurd (h refl)
rel-below [] (x ∷ r) h = refl
rel-below (c ∷ s) r h = rw (prefix-below (c ∷ s) r, rel, contains) (ap some (trim-below (c ∷ s) r))

contains-below :
    (c r : Bytes) → below c r ≢ [] → contains (record { p = c }) (record { p = below c r }) ≡ true
unfolding contains
contains-below [] [] h = absurd (h refl)
contains-below [] (x ∷ r) h = refl
contains-below (c ∷ s) r h = prefix-below (c ∷ s) r

contains-split :
    (c p : Bytes)
    → contains (record { p = c }) (record { p = p }) ≡ true
    → (r : Bytes) × (p ≡ below c r) × (p ≢ [])
unfolding contains
contains-split c [] h = cc
contains-split [] (x ∷ p) h = (x ∷ p, refl, λ e. cc)
contains-split (c ∷ s) (x ∷ p) h =
    let (r, e) = has_prefix-split (x ∷ p) ((c ∷ s) ++ codes "/") h in
    (r, e ∙ append_assoc (c ∷ s) (codes "/") r, λ e. cc)

split-below_back :
    (c p : Bytes) (r : List Bytes)
    → p ≢ []
    → r ≢ []
    → split b'/' p ≡ segments_of c ++ r
    → (q : Bytes) × (p ≡ below c q)
split-below_back [] p r h k e = (p, refl)
split-below_back (c ∷ s) p r h k e = (
  join_on b'/' r,
  sym (join-split b'/' p)
      ∙ ap (join_on b'/') e
      ∙ join-append b'/' (split b'/' (c ∷ s)) r (split-ne-nil b'/' (c ∷ s)) k
      ∙ ap (λ z. z ++ (b'/' ∷ join_on b'/' r)) (join-split b'/' (c ∷ s)),
)

-- A collection contains a path exactly when the path is not the zero value and the collection's
-- segments are the first of the path's, with at least one more behind them; the root has none.
pub contains_iff :
    (c : Collection) (p : ContentPath)
    → (contains c p ≡ true)
      ↔ ((p.p ≢ []) × ((r : List Bytes) × (r ≢ []) × (split b'/' p.p ≡ segments_of c.p ++ r)))
contains_iff c p = (
  λ h.
      let (r, e, ne) = contains-split c.p p.p h in
      (ne, (split b'/' r, split-ne-nil b'/' r, ap (split b'/') e ∙ split-below c.p r)),
  λ h.
      let (r, ne, e) = h.1 in
      let (q, e') = split-below_back c.p p.p r h.0 ne e in
      ap (λ z. contains c (record { p = z })) e' ∙ contains-below c.p q (λ z. h.0 (e' ∙ z)),
)

joined-below :
    (q r : Bytes)
    → (if is_nil q then new_content_path r else new_content_path (q ++ (codes "/" ++ r)))
      ≡ new_content_path (below q r)
joined-below [] r = refl
joined-below (c ∷ s) r = refl

pub join-eq :
    (c : Collection) (r : Bytes) {p : ContentPath}
    → join c r ≡ ok p
    → IsRelPath max_content_path_bytes r × (new_content_path (below c.p r) ≡ ok p)
unfolding join
join-eq c r h =
    let (v, j) = (>>-ok_iff (validate_rel_path content_path r max_content_path_bytes) _).0 h in
    (
      (validate_rel_path_iff content_path r max_content_path_bytes).0 v,
      sym (joined-below c.p r) ∙ j,
    )

join_of :
    (c : Collection) (r : Bytes) {p : ContentPath}
    → IsRelPath max_content_path_bytes r
    → new_content_path (below c.p r) ≡ ok p
    → join c r ≡ ok p
unfolding join
join_of c r v h =
    rw ((validate_rel_path_iff content_path r max_content_path_bytes).1 v) (joined-below c.p r ∙ h)

-- What Join returns is the collection's string, a slash and the given text; the collection
-- contains it, and Rel gives the text back.
pub join_lands_below :
    (c : Collection) (r : Bytes) {p : ContentPath}
    → join c r ≡ ok p
    → (p ≡ path_of (below c.p r)) × (contains c p ≡ true) × (rel c p ≡ some r)
join_lands_below c r h =
    let (valid, e) = new_content_path-ok (below c.p r) (join-eq c r h).1 in
    let ne = valid.relative.nonempty in
    (e, ap (contains c) e ∙ contains-below c.p r ne, ap (rel c) e ∙ rel-below c.p r ne)

rel-none : (c : Collection) (p : ContentPath) → contains c p ≡ false → rel c p ≡ none
unfolding rel
rel-none c p h = rw (h, rel)

rel-split :
    (c : Collection) (p : ContentPath) {r : Bytes} → rel c p ≡ some r → p ≡ path_of (below c.p r)
rel-split c p {r} h = elim (Bool-cases (contains c p)) [
  | inl inside ↦
      let (q, e, ne) = contains-split c.p p.p inside in
      let found : rel c (path_of p.p) ≡ some q =
        ap (λ z. rel c (path_of z)) e ∙ rel-below c.p q (λ z. ne (e ∙ z)) in
      let same : r ≡ q = cc (h, found) in ap path_of (e ∙ ap (below c.p) (sym same))
  | inr outside ↦ cc (h, rel-none c p outside)
]

ne-nil_of_segments : (r : Bytes) → All IsSegment (split b'/' r) → r ≢ []
unfolding split
ne-nil_of_segments [] h = absurd (h.0.0.0 refl)
ne-nil_of_segments (c ∷ r) h = λ e. cc

-- A relative path less the collection that it lies in is one too, but for a drive prefix.
IsRelPath-below :
    (c r : Bytes)
    → IsRelPath max_content_path_bytes (below c r)
    → NoDrive (split b'/' r)
    → IsRelPath max_content_path_bytes r
IsRelPath-below [] r h drive = h
IsRelPath-below (c ∷ s) r h drive =
    let segs =
      ((All-append IsSegment (split b'/' (c ∷ s)) (split b'/' r)).0
        (rw (split-append b'/' (c ∷ s) r) at h.segments)).1 in
    record {
      nonempty = ne-nil_of_segments r segs;
      utf8 = valid_string_after_ascii (c ∷ s) b'/' r (omega arith) h.utf8;
      fits = omega (arith, h.fits, length-append (c ∷ s) (b'/' ∷ r));
      plain = ((All-append IsPlain (c ∷ s) (b'/' ∷ r)).0 h.plain).1.1;
      segments = segs;
      no_drive = drive;
    }

-- Of a valid content path and what Rel makes of it in a collection: Join gives the path back
-- exactly when the first segment of the relative part holds no colon.
pub join-rel_iff :
    (c : Collection) (p : ContentPath) {r : Bytes}
    → IsContentPath p.p
    → rel c p ≡ some r
    → (join c r ≡ ok p) ↔ NoDrive (split b'/' r)
join-rel_iff c p {r} valid h =
    let e = rel-split c p h in
    let valid' : IsContentPath (below c.p r) =
      subst (λ z. IsContentPath z) (ap (λ (q : ContentPath). q.p) e) valid in
    (
      λ j. (join-eq c r j).0.no_drive,
      λ drive.
          join_of c r (IsRelPath-below c.p r valid'.relative drive)
            (IsContentPath-new (below c.p r) valid' ∙ ap ok (sym e)),
    )
