-- ===== src/Core/RelPath.antt =====
-- core/path.go: validateRelPath, which every path-like value shares, and rejectGitSegment.
pub mod Spec
pub mod NoGit
use micawber.Prelude.{
  ℕ, Bool, true, false, not, ◌&&◌, ◌||◌, List, [], ◌∷◌, Bytes, codes, ltb, ◌==◌, if◌then◌else◌,
  length, is_nil,
}
use micawber.Go.Text.{equal, split, has_prefix, has_suffix, contains_byte}
use micawber.Go.Utf8.{valid_string, runes}
use micawber.Go.Fold.{equal_fold}
use micawber.Go.Path.{clean}
use micawber.Core.Errors.{
  Kind, is_empty, not_utf8, over_limit, control_character, backslash, is_absolute, trailing_slash,
  empty_segment, dot_segment, dot_dot_segment, long_segment, drive_prefix, not_cleaned, git_segment,
  Result, ok, err, ◌>>◌, invalidf, refuse, first_error,
}

-- maxContentPathBytes, maxPathSegmentBytes.
abbrev pub max_content_path_bytes : ℕ
max_content_path_bytes = 4096

abbrev pub max_path_segment_bytes : ℕ
max_path_segment_bytes = 255

-- `r < 0x20 || r == 0x7f`
abbrev pub is_control : ℕ → Bool
is_control r = ltb r 0x20 || r == 0x7f

-- The loop over the runes.
check_runes : Kind → Bytes → List ℕ → Result (Unit {0})
check_runes kind s [] = ok tt
check_runes kind s (r ∷ rs) =
    let rest = check_runes kind s rs in
    if is_control r
    then err (invalidf kind s (control_character r))
    else if r == b'\\'
    then err (invalidf kind s backslash)
    else rest

-- One turn of the loop over the segments; the flag is `i == 0`.
check_segment : Kind → Bytes → Bool → Bytes → Result (Unit {0})
check_segment kind s first seg =
    if is_nil seg
    then err (invalidf kind s empty_segment)
    else if equal seg (codes ".")
    then err (invalidf kind s dot_segment)
    else if equal seg (codes "..")
    then err (invalidf kind s dot_dot_segment)
    else if ltb max_path_segment_bytes (length seg)
    then err (invalidf kind s (long_segment (length seg)))
    else if first && contains_byte b':' seg
    then err (invalidf kind s drive_prefix)
    else ok tt

check_segments : Kind → Bytes → Bool → List Bytes → Result (Unit {0})
check_segments kind s first [] = ok tt
check_segments kind s first (x ∷ xs) = do
  check_segment kind s first x
  check_segments kind s false xs

abbrev checks : Kind → Bytes → ℕ → List (Result (Unit {0}))
checks kind s max_bytes =
    refuse (is_nil s) (invalidf kind s is_empty)
    ∷ refuse (not (valid_string s)) (invalidf kind s not_utf8)
    ∷ refuse (ltb max_bytes (length s)) (invalidf kind s (over_limit (length s) max_bytes))
    ∷ check_runes kind s (runes s)
    ∷ refuse (has_prefix s (codes "/")) (invalidf kind s is_absolute)
    ∷ refuse (has_suffix s (codes "/")) (invalidf kind s trailing_slash)
    ∷ check_segments kind s true (split b'/' s)
    ∷ refuse (not (equal (clean s) s)) (invalidf kind s (not_cleaned (clean s)))
    ∷ []

-- validateRelPath.
unfoldable pub validate_rel_path : Kind → Bytes → ℕ → Result (Unit {0})
unfolding check_runes check_segment check_segments
validate_rel_path kind s max_bytes = first_error (checks kind s max_bytes)

-- gitDir.
abbrev pub git_dir : Bytes
git_dir = codes ".git"

check_git_segments : Kind → Bytes → List Bytes → Result (Unit {0})
check_git_segments kind s [] = ok tt
check_git_segments kind s (x ∷ xs) =
    let rest = check_git_segments kind s xs in
    if equal_fold x git_dir then err (invalidf kind s (git_segment x)) else rest

-- rejectGitSegment.
unfoldable pub reject_git_segment : Kind → Bytes → Result (Unit {0})
unfolding check_git_segments
reject_git_segment kind s = check_git_segments kind s (split b'/' s)
