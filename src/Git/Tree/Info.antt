-- ===== src/Git/Tree/Info.antt =====
-- git/tree.go: the input of update-index, as the format of its --index-info is read.
use mathlib.Core.List.{append_assoc}
use micawber.Go.Text.Cut.{cut-append}
use micawber.Go.Text.Split.{split-append, split_single, split-ne-nil}
use micawber.Git.Plan.{remove, place, Edit}
use micawber.Git.Tree.{index_info, info_line}
use micawber.Git.Object.{zero_of, ObjectId}
use micawber.Go.Text.{contains_byte, split, cut}
use micawber.Prelude.{
  sym, ◌≢◌, ap, ◌∙◌, refl, [], ◌==◌, is_nil, map, any-append, codes, if◌then◌else◌, some, ◌∷◌, All,
  false, none, ◌++◌, ◌≡◌, Option, List, Bytes,
}

-- What update-index -z --index-info stages: a mode, an object id and a path.
pub record Staged : Type 0 where
  pub mode : Bytes
  pub oid : Bytes
  pub path : Bytes

-- A record of the input: mode, space, id, tab, path.
unfoldable pub read_record : Bytes → Option Staged
read_record s = elim (cut b' ' s) [
  | none ↦ none
  | some (mode, rest) ↦ elim (cut 0x09 rest) [
    | none ↦ none
    | some (oid, path) ↦ some (record { mode = mode; oid = oid; path = path })
  ]
]

-- The records of the input, each ended by a NUL byte; what is behind the last one is empty.
unfoldable pub read_records : List Bytes → Option (List Staged)
read_records [] = none
read_records (last ∷ []) = if is_nil last then some [] else none
read_records (s ∷ t ∷ rest) = elim (read_record s) [
  | none ↦ none
  | some one ↦ elim (read_records (t ∷ rest)) [ none ↦ none | some more ↦ some (one ∷ more) ]
]

unfoldable pub read_info : Bytes → Option (List Staged)
read_info s = read_records (split 0 s)

-- What an edit asks for: to put the blob at the path as a regular file, or, with the mode 0 and any
-- id, to drop the path.
abbrev pub staged : ObjectId → Edit → Staged
staged parent (place path blob) = record { mode = codes "100644"; oid = blob; path = path }
staged parent (remove path) = record { mode = codes "0"; oid = zero_of parent; path = path }

-- The path has no NUL byte, and the id, of the blob or the zero one, neither that nor a tab.
abbrev pub IsClean : Staged → Type 0
IsClean s =
    (contains_byte 0 s.path ≡ false)
    × (contains_byte 0 s.oid ≡ false)
    × (contains_byte 0x09 s.oid ≡ false)

abbrev AreClean : ObjectId → List Edit → Type 0
AreClean parent edits = All (λ e. IsClean (staged parent e)) edits

print_staged : Staged → Bytes
print_staged s = s.mode ++ (b' ' ∷ (s.oid ++ (0x09 ∷ s.path)))

module _ (s : Staged) (plain : contains_byte b' ' s.mode ≡ false)
    (no_nul : contains_byte 0 s.mode ≡ false) (clean : IsClean s) where
  read_record-print : read_record (print_staged s) ≡ some s
  unfolding print_staged read_record
  read_record-print =
      rw
        (
          cut-append b' ' s.mode (s.oid ++ (0x09 ∷ s.path)) plain,
          cut-append 0x09 s.oid s.path clean.2,
          read_record,
        )
        refl

  print_staged-whole : contains_byte 0 (print_staged s) ≡ false
  unfolding print_staged
  print_staged-whole =
      rw
        (
          any-append (λ x. x == 0) s.mode (b' ' ∷ (s.oid ++ (0x09 ∷ s.path))),
          any-append (λ x. x == 0) s.oid (0x09 ∷ s.path),
          no_nul,
          clean.1,
          clean.0,
        )
        refl

ended :
    (id path rest : Bytes)
    → (id ++ (0x09 ∷ (path ++ (0 ∷ [])))) ++ rest ≡ (id ++ (0x09 ∷ path)) ++ (0 ∷ rest)
ended id path rest =
    append_assoc id (0x09 ∷ (path ++ (0 ∷ []))) rest
    ∙ ap (λ s. id ++ (0x09 ∷ s)) (append_assoc path (0 ∷ []) rest)
    ∙ sym (append_assoc id (0x09 ∷ path) (0 ∷ rest))

info_line-print :
    (parent : ObjectId) (e : Edit) (rest : Bytes)
    → info_line parent e ++ rest ≡ print_staged (staged parent e) ++ (0 ∷ rest)
unfolding info_line print_staged
info_line-print parent (place path blob) rest =
    ap (λ s. codes "100644 " ++ s) (ended blob path rest)
info_line-print parent (remove path) rest =
    ap (λ s. codes "0 " ++ s) (ended (zero_of parent) path rest)

modes_plain :
    (parent : ObjectId) (e : Edit)
    → (contains_byte b' ' (staged parent e).mode ≡ false)
      × (contains_byte 0 (staged parent e).mode ≡ false)
modes_plain parent (place path blob) = (refl, refl)
modes_plain parent (remove path) = (refl, refl)

read_records-more :
    (s : Bytes) (one : Staged) (more : List Bytes) (rest : List Staged)
    → read_record s ≡ some one
    → more ≢ []
    → read_records more ≡ some rest
    → read_records (s ∷ more) ≡ some (one ∷ rest)
unfolding read_records
read_records-more s one [] rest h any later = absurd (any refl)
read_records-more s one (t ∷ more) rest h any later = rw (h, later, read_records) refl

-- Of edits whose paths have no NUL byte, and ids neither that nor a tab: the input of update-index
-- that a write is made of, read in its format, stages every edit, in order and no other, a blob as a
-- regular file and a removal with the mode 0.
pub index_info-staged :
    (parent : ObjectId) (edits : List Edit)
    → AreClean parent edits
    → read_info (index_info parent edits) ≡ some (map (staged parent) edits)
unfolding index_info read_info read_records split
index_info-staged parent [] clean = refl
index_info-staged parent (e ∷ edits) clean =
    let one = staged parent e in
    let rest = index_info parent edits in
    let plain = modes_plain parent e in
    rw
      (
        info_line-print parent e rest,
        split-append 0 (print_staged one) rest,
        split_single 0 (print_staged one) (print_staged-whole one plain.0 plain.1 clean.0),
      )
      (read_records-more (print_staged one) one (split 0 rest) (map (staged parent) edits)
        (read_record-print one plain.0 plain.1 clean.0) (split-ne-nil 0 rest)
        (index_info-staged parent edits clean.1))
