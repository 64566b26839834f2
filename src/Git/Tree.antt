-- ===== src/Git/Tree.antt =====
-- git/tree.go: the git commands that a write is made of.
pub mod Keeps
pub mod Info
use micawber.Prelude.{is_nil, none, some, ◌++◌, [], ◌∷◌, if◌then◌else◌, codes, Bool, List, Bytes}
use micawber.Go.Space.{trim_space}
use micawber.Core.Change.{Change}
use micawber.Core.Errors.{Result, ok, err, wrapped, foreign}
use micawber.Git.Exec.{Invocation, Process, run, operand_separator}
use micawber.Git.Object.{ObjectId, valid, zero_of}
use micawber.Git.Plan.{Edit, place, remove}
use micawber.Core.Program.{Program, lift, on_result, ◌>>=◌, wrapping}
use micawber.Git.Repository.{Repository, plain}

-- regularFileMode.
abbrev pub regular_file_mode : Bytes
regular_file_mode = codes "100644"

-- The scratch directory: os.MkdirTemp and os.RemoveAll.
pub record Scratch (World : Type 0) : Type 0 where
  pub make_dir : World → World × Result Bytes
  pub remove_all : Bytes → World → World

-- An id that a command printed.
unfoldable pub printed_id : Bytes → Bytes → Result ObjectId
unfolding valid trim_space
printed_id refusal out =
    let oid = trim_space out in if valid oid then ok oid else err (foreign refusal)

-- The line of update-index for an edit, and the input that they make up.
unfoldable pub info_line : ObjectId → Edit → Bytes
unfolding zero_of
info_line parent (remove path) = codes "0 " ++ (zero_of parent ++ (0x09 ∷ (path ++ (0 ∷ []))))
info_line parent (place path blob) =
    regular_file_mode ++ (b' ' ∷ (blob ++ (0x09 ∷ (path ++ (0 ∷ [])))))

unfoldable pub index_info : ObjectId → List Edit → Bytes
unfolding info_line
index_info parent [] = []
index_info parent (e ∷ edits) = info_line parent e ++ index_info parent edits

-- changeEnv.
unfoldable pub change_env : Change → List Bytes
change_env ch =
    let identity =
      (codes "GIT_AUTHOR_NAME=" ++ ch.author.name)
      ∷ (codes "GIT_AUTHOR_EMAIL=" ++ ch.author.email)
      ∷ (codes "GIT_COMMITTER_NAME=" ++ ch.author.name)
      ∷ (codes "GIT_COMMITTER_EMAIL=" ++ ch.author.email)
      ∷ [] in
    elim ch.time [
      | none ↦ identity
      | some stamp ↦
          identity
          ++ ((codes "GIT_AUTHOR_DATE=" ++ stamp) ∷ (codes "GIT_COMMITTER_DATE=" ++ stamp) ∷ [])
    ]

-- The commands of hashObject, writeTree and commitTree.
abbrev hashing : Bytes → Invocation
hashing written = record {
  args = codes "hash-object" ∷ codes "-w" ∷ codes "--stdin" ∷ [];
  stdin = some written;
  env = [];
}

abbrev reading_tree : List Bytes → Bytes → Invocation
reading_tree env from = record { args = codes "read-tree" ∷ from ∷ []; stdin = none; env = env }

abbrev updating_index : List Bytes → Bytes → Invocation
updating_index env info = record {
  args = codes "update-index" ∷ codes "-z" ∷ codes "--index-info" ∷ [];
  stdin = some info;
  env = env;
}

abbrev writing_tree : List Bytes → Invocation
writing_tree env = record { args = codes "write-tree" ∷ []; stdin = none; env = env }

abbrev committing : ObjectId → List Bytes → Change → Invocation
committing tree on_parent ch = record {
  args = codes "commit-tree" ∷ tree ∷ (on_parent ++ (codes "-F" ∷ codes "-" ∷ []));
  stdin = some ch.message;
  env = change_env ch;
}

module _ {World : Type 0} (os : Process World) (r : Repository) where
  -- hashObject.
  unfoldable pub hash_object : Bytes → Program World ObjectId
  unfolding run printed_id
  hash_object written = do
    out ← wrapping "git: write the document: %w" [] (run os r.exec (hashing written))
    lift (printed_id (codes "git: hash-object returned %q, which is not an object id") out)

  -- The commands of writeTree, on the scratch index of the environment given.
  staged_tree : List Bytes → ObjectId → Bool → List Edit → Program World ObjectId
  unfolding run index_info printed_id
  staged_tree env parent born edits = do
    let from = if born then parent else codes "--empty"
    _ ← wrapping "git: read the current tree: %w" [] (run os r.exec (reading_tree env from))
    let info = index_info parent edits
    _ ←
        if is_nil info
        then lift (ok [])
        else wrapping "git: stage the change: %w" [] (run os r.exec (updating_index env info))
    out ← wrapping "git: write the tree: %w" [] (run os r.exec (writing_tree env))
    lift (printed_id (codes "git: write-tree returned %q, which is not an object id") out)

  -- A deferred removal.
  abbrev and_remove {ℓ} : {A : Type ℓ} → Scratch World → Bytes → World × Result A → World × Result A
  and_remove scratch dir (w, result) = (scratch.remove_all dir w, result)

  -- writeTree.
  unfoldable pub write_tree : Scratch World → ObjectId → Bool → List Edit → Program World ObjectId
  unfolding staged_tree
  write_tree scratch parent born edits = on_result scratch.make_dir λ made. elim made [
    | err e ↦ lift (err (wrapped "git: create a scratch index: %w" [] e))
    | ok dir ↦ λ w. and_remove scratch dir (
        staged_tree ((codes "GIT_INDEX_FILE=" ++ (dir ++ codes "/index")) ∷ []) parent born edits w)
  ]

  -- commitTree.
  unfoldable pub commit_tree : ObjectId → ObjectId → Bool → Change → Program World ObjectId
  unfolding run printed_id change_env
  commit_tree tree parent born ch = do
    let on_parent = if born then codes "-p" ∷ parent ∷ [] else []
    out ← wrapping "git: record the commit: %w" [] (run os r.exec (committing tree on_parent ch))
    lift (printed_id (codes "git: commit-tree returned %q, which is not an object id") out)

  -- publish.
  unfoldable pub publish : ObjectId → ObjectId → Bool → Program World (Unit {0})
  unfolding run
  publish old next born = do
    _ ← run os r.exec (
        plain
          (codes "update-ref" ∷ operand_separator ∷ r.ref ∷ next ∷ (if born then old else []) ∷ []))
    lift (ok tt)
