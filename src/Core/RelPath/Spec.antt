-- ===== src/Core/RelPath/Spec.antt =====
-- core/path.go: what validateRelPath accepts, described without its checks.
use micawber.Prelude.{
  ltb-false, le→ltb, ◌∙◌, ℕ, ◌≤◌, Bool, true, false, not, ◌&&◌, ◌||◌, List, [], ◌∷◌, ◌≡◌, ◌≢◌, ◌↔◌,
  inl, inr, refl, Bytes, codes, ◌==◌, length, is_nil, any, All, All-map_lem, arith, Bool-cases,
}
use micawber.Go.Text.{equal, equal_iff, split, cons_head, has_prefix, has_suffix, contains_byte}
use micawber.Go.Text.Split.{split-ne-nil}
use micawber.Go.Utf8.{valid_string, runes, any-runes}
use micawber.Go.Path.{clean, IsName, clean_names}
use micawber.Core.Errors.{Kind, first_error-ok_iff, ok, >>-ok_iff, refuse-ok_iff}
use micawber.Core.RelPath.{
  checks, max_path_segment_bytes, is_control, check_runes, check_segment, check_segments,
  validate_rel_path,
}

-- No control character and no backslash.
abbrev pub IsPlain : ℕ → Type 0
IsPlain b = (0x20 ≤ b) × (b ≢ 0x7f) × (b ≢ b'\\')

-- A segment that names one entry of a directory.
abbrev pub IsSegment : Bytes → Type 0
IsSegment x = IsName x × (length x ≤ max_path_segment_bytes)

abbrev pub NoDrive : List Bytes → Type 0
NoDrive [] = Unit
NoDrive (x ∷ xs) = contains_byte b':' x ≡ false

pub record IsRelPath (max_bytes : ℕ) (s : Bytes) : Type 0 where
  pub nonempty : s ≢ []
  pub utf8 : valid_string s ≡ true
  pub fits : length s ≤ max_bytes
  pub plain : All IsPlain s
  pub segments : All IsSegment (split b'/' s)
  pub no_drive : NoDrive (split b'/' s)

abbrev is_bad : ℕ → Bool
is_bad r = is_control r || r == b'\\'

check_runes-ok_iff :
    (kind : Kind) (s : Bytes) (rs : List ℕ)
    → (check_runes kind s rs ≡ ok tt) ↔ (any is_bad rs ≡ false)
unfolding check_runes
check_runes-ok_iff kind s [] = ground arith
check_runes-ok_iff kind s (r ∷ rs) = ground (arith, check_runes-ok_iff kind s rs)

any-is_bad_iff : (s : Bytes) → (any is_bad s ≡ false) ↔ All IsPlain s
any-is_bad_iff [] = (λ h. tt, λ h. refl)
any-is_bad_iff (c ∷ s) =
    let rest = any-is_bad_iff s in
    (
      λ h. ((ground arith), rest.0 (ground arith)),
      λ h. let later : any is_bad s ≡ false = rest.1 h.1 in let here = h.0 in ground arith,
    )

check_segment-ok_iff :
    (kind : Kind) (s : Bytes) (first : Bool) (x : Bytes)
    → (check_segment kind s first x ≡ ok tt)
      ↔ (IsSegment x × ((first && contains_byte b':' x) ≡ false))
unfolding check_segment
check_segment-ok_iff kind s first [] = (λ h. cc, λ h. absurd (h.0.0.0 refl))
check_segment-ok_iff kind s first (c ∷ x) =
    ground (arith, equal_iff (c ∷ x) (codes "."), equal_iff (c ∷ x) (codes ".."))

abbrev FirstNoDrive : Bool → List Bytes → Type 0
FirstNoDrive true xs = NoDrive xs
FirstNoDrive false xs = Unit

FirstNoDrive-cons :
    (first : Bool) (x : Bytes) (xs : List Bytes)
    → (first && contains_byte b':' x) ≡ false
    → FirstNoDrive first (x ∷ xs)
FirstNoDrive-cons true x xs h = h
FirstNoDrive-cons false x xs h = tt

FirstNoDrive-head :
    (first : Bool) (x : Bytes) (xs : List Bytes)
    → FirstNoDrive first (x ∷ xs)
    → (first && contains_byte b':' x) ≡ false
FirstNoDrive-head true x xs h = h
FirstNoDrive-head false x xs h = refl

check_segments-ok_iff :
    (kind : Kind) (s : Bytes) (first : Bool) (xs : List Bytes)
    → (check_segments kind s first xs ≡ ok tt) ↔ (All IsSegment xs × FirstNoDrive first xs)
unfolding check_segments
check_segments-ok_iff kind s true [] = (λ h. (tt, tt), λ h. refl)
check_segments-ok_iff kind s false [] = (λ h. (tt, tt), λ h. refl)
check_segments-ok_iff kind s first (x ∷ xs) =
    let both = >>-ok_iff (check_segment kind s first x) (check_segments kind s false xs) {b = tt} in
    let here = check_segment-ok_iff kind s first x in
    let later = check_segments-ok_iff kind s false xs in
    (
      λ h.
          let (p, q) = both.0 h in
          let (seg, drive) = here.0 p in ((seg, (later.0 q).0), FirstNoDrive-cons first x xs drive),
      λ h. both.1 (here.1 (h.0.0, FirstNoDrive-head first x xs h.1), later.1 (h.0.1, tt)),
    )

abbrev rest_of : List Bytes → List Bytes
rest_of [] = []
rest_of (x ∷ xs) = xs

rest_of-cons_head : (c : ℕ) (xs : List Bytes) → xs ≢ [] → rest_of (cons_head c xs) ≡ rest_of xs
rest_of-cons_head c [] h = absurd (h refl)
rest_of-cons_head c (x ∷ xs) h = refl

All-rest_of : (xs : List Bytes) → All (λ x. x ≢ []) xs → All (λ x. x ≢ []) (rest_of xs)
All-rest_of [] h = tt
All-rest_of (x ∷ xs) h = h.1

-- A trailing slash leaves an empty segment at the end.
has_suffix-slash :
    (s : Bytes) → has_suffix s (codes "/") ≡ true → ¬ All (λ x. x ≢ []) (rest_of (split b'/' s))
unfolding has_suffix split
has_suffix-slash [] h all = cc
has_suffix-slash (c ∷ []) h all =
    let slash : (c == b'/') ≡ true = ground (arith, equal_iff (c ∷ []) (codes "/")) in
    let bad = rw slash at all in bad.0 refl
has_suffix-slash (c ∷ d ∷ s) h all =
    let later : has_suffix (d ∷ s) (codes "/") ≡ true =
      ground (arith, equal_iff (c ∷ d ∷ s) (codes "/")) in
    elim (Bool-cases (c == b'/')) [
      | inl e ↦ has_suffix-slash (d ∷ s) later (All-rest_of (split b'/' (d ∷ s)) (rw e at all))
      | inr e ↦ has_suffix-slash (d ∷ s) later (
          rw (rest_of-cons_head c (split b'/' (d ∷ s)) (split-ne-nil b'/' (d ∷ s))) at
            (rw e at all))
    ]

-- A leading slash leaves an empty segment at the start.
has_prefix-slash :
    (s : Bytes) → has_prefix s (codes "/") ≡ true → ¬ All (λ x. x ≢ []) (split b'/' s)
unfolding has_prefix split
has_prefix-slash [] h all = cc
has_prefix-slash (c ∷ s) h all =
    let slash : (c == b'/') ≡ true = ground arith in let bad = rw slash at all in bad.0 refl

false_of_not : (b : Bool) → (b ≡ true → ⊥) → b ≡ false
false_of_not true h = absurd (h refl)
false_of_not false h = refl

nonempty_segments : (xs : List Bytes) → All IsSegment xs → All (λ x. x ≢ []) xs
nonempty_segments = All-map_lem (λ x h. h.0.0)

is_nil_iff : (s : Bytes) → (is_nil s ≡ false) ↔ (s ≢ [])
is_nil_iff [] = (λ h. cc, λ h. absurd (h refl))
is_nil_iff (c ∷ s) = (λ h e. cc, λ h. refl)

not_of_true : (b : Bool) → (b ≡ true) ↔ (not b ≡ false)
not_of_true true = (λ h. refl, λ h. refl)
not_of_true false = (λ h. cc, λ h. cc)

any-is_bad-runes : (s : Bytes) → any is_bad (runes s) ≡ any is_bad s
any-is_bad-runes = any-runes is_bad (λ r h. ground arith)

module _ (kind : Kind) (s : Bytes) (max_bytes : ℕ) where
  checks-IsRelPath : All (λ m. m ≡ ok tt) (checks kind s max_bytes) → IsRelPath max_bytes s
  checks-IsRelPath (nonempty, (utf8, (fits, (plain, (relative, (unslashed, (segs, last))))))) =
      let segs' = (check_segments-ok_iff kind s true (split b'/' s)).0 segs in
      record {
        nonempty = (is_nil_iff s).0 ((refuse-ok_iff (is_nil s) _).0 nonempty);
        utf8 = (not_of_true (valid_string s)).1 ((refuse-ok_iff (not (valid_string s)) _).0 utf8);
        fits = ltb-false max_bytes (length s) ((refuse-ok_iff _ _).0 fits);
        plain =
            (any-is_bad_iff s).0
              (rw (← any-is_bad-runes s) ((check_runes-ok_iff kind s (runes s)).0 plain));
        segments = segs'.0;
        no_drive = segs'.1;
      }

  IsRelPath-checks : IsRelPath max_bytes s → All (λ m. m ≡ ok tt) (checks kind s max_bytes)
  IsRelPath-checks h =
      let names = nonempty_segments (split b'/' s) h.segments in
      let relative = false_of_not (has_prefix s (codes "/")) (λ e. has_prefix-slash s e names) in
      let cleaned = clean_names s relative (All-map_lem (λ x p. p.0) (split b'/' s) h.segments) in
      (
        (refuse-ok_iff _ _).1 ((is_nil_iff s).1 h.nonempty),
        (
          (refuse-ok_iff _ _).1 ((not_of_true (valid_string s)).0 h.utf8),
          (
            (refuse-ok_iff _ _).1 (le→ltb max_bytes (length s) h.fits),
            (
              (check_runes-ok_iff kind s (runes s)).1
                  (any-is_bad-runes s ∙ (any-is_bad_iff s).1 h.plain),
              (
                (refuse-ok_iff _ _).1 relative,
                (
                  (refuse-ok_iff _ _).1 (
                      false_of_not (has_suffix s (codes "/"))
                        (λ e. has_suffix-slash s e (All-rest_of (split b'/' s) names))),
                  (
                    (check_segments-ok_iff kind s true (split b'/' s)).1 (h.segments, h.no_drive),
                    (
                      (refuse-ok_iff _ _).1
                          ((not_of_true (equal (clean s) s)).0 ((equal_iff (clean s) s).1 cleaned)),
                      tt,
                    ),
                  ),
                ),
              ),
            ),
          ),
        ),
      )

-- validateRelPath accepts a string exactly when it is a relative path in the sense of IsRelPath:
-- not empty, valid UTF-8, within the limit, free of control bytes and backslashes, each segment a
-- name of 1 to 255 bytes other than "." and "..", and no colon in the first. So its last check,
-- that path.Clean changes nothing, never refuses what the others let pass.
pub validate_rel_path_iff :
    (kind : Kind) (s : Bytes) (max_bytes : ℕ)
    → (validate_rel_path kind s max_bytes ≡ ok tt) ↔ IsRelPath max_bytes s
unfolding validate_rel_path
validate_rel_path_iff kind s max_bytes =
    let each = first_error-ok_iff (checks kind s max_bytes) in
    (
      λ h. checks-IsRelPath kind s max_bytes (each.0 h),
      λ h. each.1 (IsRelPath-checks kind s max_bytes h),
    )
