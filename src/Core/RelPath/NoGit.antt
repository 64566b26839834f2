-- ===== src/Core/RelPath/NoGit.antt =====
-- What rejectGitSegment accepts, and how it and validateRelPath fail.
use micawber.Go.Utf8.{runes}
use micawber.Go.Text.{split}
use micawber.Go.Fold.{equal_fold}
use micawber.Core.Errors.{
  FailsWith-refuse, FailsWith-first_error, FailsWith-bind, invalid_value, ok, FailsWith, is, Kind,
}
use micawber.Prelude.{true, refl, [], Bool, arith, ◌∷◌, List, ◌↔◌, false, ℕ, ◌≡◌, All, Bytes}
use micawber.Core.RelPath.{
  checks, check_runes, check_segments, check_segment, validate_rel_path, git_dir,
  check_git_segments, reject_git_segment,
}

-- No segment is Git's metadata directory, in any casing.
abbrev pub NoGit : Bytes → Type 0
NoGit s = All (λ x. equal_fold x git_dir ≡ false) (split b'/' s)

pub reject_git_segment_iff :
    (kind : Kind) (s : Bytes) → (reject_git_segment kind s ≡ ok tt) ↔ NoGit s
unfolding reject_git_segment
reject_git_segment_iff kind s = go (split b'/' s)
  where
    go :
        (xs : List Bytes)
        → (check_git_segments kind s xs ≡ ok tt) ↔ All (λ x. equal_fold x git_dir ≡ false) xs
    go [] = (λ h. tt, λ h. refl)
    go (x ∷ xs) =
        let later = go xs in
        (
          λ h. (ground arith, later.0 (ground arith)),
          λ h. let e = later.1 h.1 in let g = h.0 in rw (g, e),
        )

-- Both failures are validation errors.
pub FailsWith-validate_rel_path :
    (kind : Kind) (s : Bytes) (max_bytes : ℕ)
    → FailsWith invalid_value (validate_rel_path kind s max_bytes)
unfolding validate_rel_path is
FailsWith-validate_rel_path kind s max_bytes =
    FailsWith-first_error invalid_value (checks kind s max_bytes) (
      FailsWith-refuse _ _ _ _,
      (
        FailsWith-refuse _ _ _ _,
        (
          FailsWith-refuse _ _ _ _,
          (
            runes_fail (runes s),
            (
              FailsWith-refuse _ _ _ _,
              (
                FailsWith-refuse _ _ _ _,
                (segments_fail true (split b'/' s), (FailsWith-refuse _ _ _ _, tt)),
              ),
            ),
          ),
        ),
      ),
    )
  where
    runes_fail : (rs : List ℕ) → FailsWith invalid_value (check_runes kind s rs)
    runes_fail [] = tt
    runes_fail (r ∷ rs) = let later = runes_fail rs in ground arith

    segments_fail :
        (first : Bool) (xs : List Bytes) → FailsWith invalid_value (check_segments kind s first xs)
    segments_fail first [] = tt
    segments_fail first (x ∷ xs) =
        FailsWith-bind invalid_value (check_segment kind s first x) _ (ground arith)
          (λ _. segments_fail false xs)

pub FailsWith-reject_git_segment :
    (kind : Kind) (s : Bytes) → FailsWith invalid_value (reject_git_segment kind s)
unfolding reject_git_segment is
FailsWith-reject_git_segment kind s = go (split b'/' s)
  where
    go : (xs : List Bytes) → FailsWith invalid_value (check_git_segments kind s xs)
    go [] = tt
    go (x ∷ xs) = let later = go xs in ground arith
