-- ===== src/Localfs/Errors.antt =====
-- localfs/errors.go and localfs/root.go: which errors of the operating system match which of core's.
pub mod Laws
use micawber.Prelude.{
  [], ◌∷◌, any, ◌||◌, true, if◌then◌else◌, false, codes, none, String, List, some, Bool, Option,
}
use micawber.Go.Text.{equal}
use micawber.Core.AssetKey.{AssetKey}
use micawber.Core.Errors.{
  Error, Cause, Errno, Sentinel, path_error, link_error, errno, cause, wrapped, wrapped_both,
  foreign, sentinel, git_error, validation, not_found, exists, no_entry, not_dir, is_dir,
  name_taken, escapes, not_regular, enoent, enotdir, eisdir, eexist, enotempty, other_errno,
}

-- The last PathError or LinkError of a chain, by what it holds.
last_frame : Error → Option Error
last_frame (path_error e) = elim (last_frame e) [ none ↦ some e | some f ↦ some f ]
last_frame (link_error e) = elim (last_frame e) [ none ↦ some e | some f ↦ some f ]
last_frame (wrapped f v e) = last_frame e
last_frame _ = none

-- reduce.
unfoldable pub reduce : Error → Error
unfolding last_frame
reduce e = elim (last_frame e) [ none ↦ e | some under ↦ under ]

-- errors.As for a syscall.Errno.
unfoldable pub as_errno : Error → Option Errno
as_errno (errno n) = some n
as_errno (path_error e) = as_errno e
as_errno (link_error e) = as_errno e
as_errno (wrapped f v e) = as_errno e
as_errno (wrapped_both f v e d) = elim (as_errno e) [ none ↦ as_errno d | some n ↦ some n ]
as_errno _ = none

-- Whether an error of the chain has the text of os's errPathEscapes.
has_escape_message : Error → Bool
unfolding equal
has_escape_message (foreign m) = equal m (codes "path escapes from parent")
has_escape_message (path_error e) = has_escape_message e
has_escape_message (link_error e) = has_escape_message e
has_escape_message (wrapped f v e) = has_escape_message e
has_escape_message _ = false

-- isEscape.
unfoldable pub is_escape : Error → Bool
unfolding as_errno has_escape_message
is_escape e = elim (as_errno e) [ none ↦ has_escape_message e | some n ↦ false ]

abbrev of_errno : Errno → Error
of_errno enoent = cause no_entry
of_errno enotdir = cause not_dir
of_errno eisdir = cause is_dir
of_errno eexist = cause name_taken
of_errno enotempty = cause name_taken
of_errno (other_errno n) = errno (other_errno n)

-- classify.
unfoldable pub classify : Error → Error
unfolding reduce as_errno is_escape
classify e =
    let root = reduce e in
    elim (as_errno root) [
      | some n ↦ of_errno n
      | none ↦ if is_escape root then cause escapes else root
    ]

-- errors.Is(err, c) for one of localfs's own errors.
abbrev same_cause : Cause → Cause → Bool
same_cause no_entry no_entry = true
same_cause not_dir not_dir = true
same_cause is_dir is_dir = true
same_cause name_taken name_taken = true
same_cause escapes escapes = true
same_cause not_regular not_regular = true
same_cause _ _ = false

unfoldable pub is_cause : Error → Cause → Bool
is_cause (cause c) d = same_cause c d
is_cause (path_error e) d = is_cause e d
is_cause (link_error e) d = is_cause e d
is_cause (wrapped f v e) d = is_cause e d
is_cause (wrapped_both f v e g) d = is_cause e d || is_cause g d
is_cause _ d = false

abbrev pub is_one_of : Error → List Cause → Bool
is_one_of e = any (is_cause e)

-- sentinelf with a cause.
abbrev pub sentinelf : Sentinel → Error → String → AssetKey → Error
sentinelf s e op key = wrapped_both op key.k (sentinel s) e

-- readError, of an error that is not nil; the operation is the format of the message.
unfoldable pub read_error : String → AssetKey → Error → Error
unfolding is_cause
read_error op key e =
    if is_one_of e (no_entry ∷ not_dir ∷ is_dir ∷ not_regular ∷ escapes ∷ [])
    then sentinelf not_found e op key
    else wrapped op key.k e

-- writeError.
unfoldable pub write_error : String → AssetKey → Error → Error
unfolding is_cause
write_error op key e =
    if is_one_of e (not_dir ∷ is_dir ∷ name_taken ∷ [])
    then sentinelf exists e op key
    else if is_one_of e (no_entry ∷ escapes ∷ [])
    then sentinelf not_found e op key
    else wrapped op key.k e
