-- ===== src/Git/Object.antt =====
-- git/object.go: object ids, and the parsers of what cat-file and ls-tree print.
pub mod Framing
pub mod Tree
use micawber.Prelude.{
  drop, take, ◌+◌, zero, ltb, ◌++◌, all, any, is_nil, false, not, suc, ◌||◌, none, ◌&&◌, some, ◌∷◌,
  if◌then◌else◌, [], ◌==◌, Option, codes, List, true, length, ℕ, Bool, Bytes,
}
use micawber.Go.Number.{negsuc, pos, ℤ, max_int, atoi}
use micawber.Go.Space.{fields}
use micawber.Go.Text.{cut, equal, has_suffix, split, contains_byte}
use micawber.Go.Utf8.{runes}
use micawber.Core.Digest.{is_lower_hex}
use micawber.Core.Errors.{
  ◌>>=◌, ◌>>◌, Result, ok, err, Error, foreign, refuse, wrapped, sentinel, invalid_value,
}

-- type objectID string
abbrev pub ObjectId : Type 0
ObjectId = Bytes

-- blobType, treeType.
abbrev pub blob_type : Bytes
blob_type = codes "blob"

abbrev pub tree_type : Bytes
tree_type = codes "tree"

-- valid.
unfoldable pub valid : ObjectId → Bool
valid id = (length id == 40 || length id == 64) && all is_lower_hex (runes id)

-- strings.Repeat("0", n).
abbrev zeros : ℕ → Bytes
zeros zero = []
zeros (suc n) = b'0' ∷ zeros n

-- zero.
unfoldable pub zero_of : ObjectId → ObjectId
zero_of id =
    let width = length id in zeros (if not (width == 40) && not (width == 64) then 40 else width)

-- batchEntry.
pub record BatchEntry : Type 0 where
  pub missing : Bool
  pub typ : Bytes
  pub oid : ObjectId
  pub contents : Bytes

abbrev pub missing_entry : BatchEntry
missing_entry = record { missing = true; typ = []; oid = []; contents = [] }

-- The input of catFile: one line for each spec.
unfoldable pub batch_request : List Bytes → Result Bytes
batch_request [] = ok []
batch_request (spec ∷ specs) = do
  refuse (contains_byte 0x0A spec || contains_byte 0 spec)
      (wrapped "git: object spec contains a line break: %w" [] (sentinel invalid_value))
  lines ← batch_request specs
  ok (spec ++ (0x0A ∷ lines))

-- Go panics: `rest[:size]` is out of range.
abbrev pub out_of_range : Error
out_of_range = foreign (codes "runtime error: slice bounds out of range")

-- The size that a header gives; `none` for an error of Atoi, and below zero.
abbrev size_of : Option ℤ → Option ℕ
size_of none = none
size_of (some (pos n)) = some n
size_of (some (negsuc n)) = none

-- `len(rest) < size+1`: the sum wraps around at the largest int, to one below zero.
abbrev is_short : Bytes → ℕ → Bool
is_short rest size = if size == max_int then false else ltb (length rest) (size + 1)

-- The payload and the byte behind it; past the test of its length a size out of range can only be
-- the one whose sum wrapped around.
unfoldable pub take_object : Bytes → Bytes → Bytes → Option ℕ → Result (BatchEntry × Bytes)
unfolding valid
take_object oid typ rest none =
    err (foreign (codes "git cat-file --batch: unreadable object size %q"))
take_object oid typ rest (some size) = do
  refuse (is_short rest size)
      (foreign (codes "git cat-file --batch: response holds %d bytes where the header promised %d"))
  refuse (not (valid oid)) (foreign (codes "git cat-file --batch: %q is not an object id"))
  refuse (ltb (length rest) (size + 1)) out_of_range
  ok (
    record { missing = false; typ = typ; oid = oid; contents = take size rest },
    drop (suc size) rest,
  )

unfoldable pub parse_header : List Bytes → Bytes → Result (BatchEntry × Bytes)
unfolding take_object atoi
parse_header (oid ∷ typ ∷ size ∷ []) rest = take_object oid typ rest (size_of (atoi size))
parse_header _ rest =
    err (foreign (codes "git cat-file --batch: unreadable response header with %d fields"))

-- One turn of parseBatch: the entry, and what is left.
unfoldable pub parse_entry : Bytes → Result (BatchEntry × Bytes)
unfolding cut has_suffix parse_header fields
parse_entry out = elim (cut 0x0A out) [
  | none ↦ err (foreign (codes "git cat-file --batch: response ended after %d of %d entries"))
  | some (header, rest) ↦
      if has_suffix header (codes " missing")
      then ok (missing_entry, rest)
      else parse_header (fields header) rest
]

-- parseBatch, with the number of entries still wanted.
unfoldable pub parse_batch : Bytes → ℕ → Result (List BatchEntry)
unfolding parse_entry
parse_batch out zero = ok []
parse_batch out (suc want) = do
  (entry, rest) ← parse_entry out
  entries ← parse_batch rest want
  ok (entry ∷ entries)

-- treeRecord.
pub record TreeRecord : Type 0 where
  pub mode : Bytes
  pub typ : Bytes
  pub oid : ObjectId
  pub path : Bytes

-- regularFileModes.
abbrev pub regular_file_modes : List Bytes
regular_file_modes = codes "100644" ∷ codes "100755" ∷ []

tree_record : List Bytes → Bytes → Result TreeRecord
unfolding valid
tree_record (mode ∷ typ ∷ oid ∷ []) path = do
  refuse (not (valid oid)) (foreign (codes "git ls-tree: %q is not an object id"))
  ok (record { mode = mode; typ = typ; oid = oid; path = path })
tree_record _ path =
    err (foreign (codes "git ls-tree: record with %d fields before the tab, want 3"))

-- One record of a listing.
unfoldable pub parse_record : Bytes → Result TreeRecord
unfolding cut tree_record fields
parse_record raw = elim (cut 0x09 raw) [
  | none ↦ err (foreign (codes "git ls-tree: record with no tab separator"))
  | some (head, path) ↦ tree_record (fields head) path
]

unfoldable pub parse_records : List Bytes → Result (List TreeRecord)
unfolding parse_record
parse_records [] = ok []
parse_records (raw ∷ raws) =
    let rest = parse_records raws in
    if is_nil raw then rest else (do rec ← parse_record raw; records ← rest; ok (rec ∷ records))

-- parseLsTree.
unfoldable pub parse_ls_tree : Bytes → Result (List TreeRecord)
unfolding parse_records split
parse_ls_tree out = parse_records (split 0 out)

-- isDocument.
unfoldable pub is_document : TreeRecord → Bool
unfolding equal
is_document rec = equal rec.typ blob_type && any (equal rec.mode) regular_file_modes
