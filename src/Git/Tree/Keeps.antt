-- ===== src/Git/Tree/Keeps.antt =====
-- git/tree.go: what the commands that build a commit keep.
use micawber.Core.Change.{Change}
use micawber.Core.Errors.{Result, ok, err, wrap, wrapped}
use micawber.Core.Program.{Program, lift, next_step, wrapping}
use micawber.Core.Program.Invariant.{Keeps, Keeps-bind, Keeps-on_result}
use micawber.Git.Exec.{Invocation, Process, run, operands}
use micawber.Git.Exec.Laws.{IsOperand, run_guarded, executed}
use micawber.Git.Object.{ObjectId}
use micawber.Git.Plan.{Edit}
use micawber.Git.Repository.{Repository}
use micawber.Git.Tree.{
  hashing, reading_tree, updating_index, writing_tree, committing, Scratch, hash_object, write_tree,
  staged_tree, commit_tree, and_remove, index_info, printed_id,
}
use micawber.Prelude.{
  [], inl, inr, ◌⊎◌, ◌≡◌, ◌∷◌, All, subst, sym, refl, if-elim, if◌then◌else◌, ◌++◌, [], is_nil,
  codes, String, Bool, List, Bytes,
}

-- The commands that write objects, or the scratch index.
abbrev pub IsRecording : List Bytes → Type 0
IsRecording [] = ⊥
IsRecording (name ∷ args) =
    (name ≡ codes "hash-object")
    ⊎ (name ≡ codes "read-tree")
    ⊎ (name ≡ codes "update-index")
    ⊎ (name ≡ codes "write-tree")
    ⊎ (name ≡ codes "commit-tree")

module _ {World : Type 0} (Kept : World → Type 0) (os : Process World) (r : Repository)
    (records : (i : Invocation) (w : World)
      → IsRecording i.args
      → All IsOperand (operands i.args)
      → Kept w
      → Kept (executed os r.exec i w).0) where
  Keeps-record : (i : Invocation) → IsRecording i.args → Keeps Kept (run os r.exec i)
  Keeps-record i recording w h = elim (run_guarded os r.exec i w) [
    | inl (e, stopped, invalid) ↦ subst (λ out. Kept out.0) (sym stopped) h
    | inr (own, safe, env, harmless, went) ↦
        subst (λ out. Kept out.0) (sym went) (records i w recording safe h)
  ]

  -- A command that records, with its error wrapped.
  Keeps-wrapped :
      (f : String) (i : Invocation)
      → IsRecording i.args
      → Keeps Kept (wrapping f [] (run os r.exec i))
  Keeps-wrapped f i recording =
      Keeps-on_result Kept (run os r.exec i) (λ out. lift (wrap f [] out))
        (Keeps-record i recording) (λ out w h. h)

  pub Keeps-hash_object : (written : Bytes) → Keeps Kept (hash_object os r written)
  unfolding hash_object
  Keeps-hash_object written =
      Keeps-bind Kept {B = ObjectId}
        (wrapping "git: write the document: %w" [] (run os r.exec (hashing written)))
        (λ out.
          lift (printed_id (codes "git: hash-object returned %q, which is not an object id") out))
        (Keeps-wrapped "git: write the document: %w" (hashing written) (inl refl)) (λ out w h. h)

  Keeps-staged_tree :
      (env : List Bytes) (parent : ObjectId) (born : Bool) (edits : List Edit)
      → Keeps Kept (staged_tree os r env parent born edits)
  unfolding staged_tree
  Keeps-staged_tree env parent born edits =
      let from = if born then parent else codes "--empty" in
      let info = index_info parent edits in
      Keeps-bind Kept {B = ObjectId}
        (wrapping "git: read the current tree: %w" [] (run os r.exec (reading_tree env from))) _
        (Keeps-wrapped "git: read the current tree: %w" (reading_tree env from) (inr (inl refl)))
        (λ _.
          Keeps-bind Kept {B = ObjectId} _ _
            (if-elim (Keeps Kept) (is_nil info) (λ w h. h)
              (Keeps-wrapped "git: stage the change: %w" (updating_index env info)
                (inr (inr (inl refl)))))
            (λ _.
              Keeps-bind Kept {B = ObjectId}
                (wrapping "git: write the tree: %w" [] (run os r.exec (writing_tree env)))
                (λ out.
                  lift (
                    printed_id (codes "git: write-tree returned %q, which is not an object id")
                      out))
                (Keeps-wrapped "git: write the tree: %w" (writing_tree env)
                  (inr (inr (inr (inl refl)))))
                (λ out w h. h)))

  pub Keeps-commit_tree :
      (tree parent : ObjectId) (born : Bool) (ch : Change)
      → Keeps Kept (commit_tree os r tree parent born ch)
  unfolding commit_tree
  Keeps-commit_tree tree parent born ch =
      let on_parent = if born then codes "-p" ∷ parent ∷ [] else [] in
      Keeps-bind Kept {B = ObjectId}
        (wrapping "git: record the commit: %w" [] (run os r.exec (committing tree on_parent ch)))
        (λ out.
          lift (printed_id (codes "git: commit-tree returned %q, which is not an object id") out))
        (Keeps-wrapped "git: record the commit: %w" (committing tree on_parent ch)
          (inr (inr (inr (inr refl)))))
        (λ out w h. h)

  module _ (scratch : Scratch World) (makes_dir : Keeps Kept scratch.make_dir)
      (removes_dir : (dir : Bytes) (w : World) → Kept w → Kept (scratch.remove_all dir w)) where
    Keeps-and_remove {ℓ} :
        {A : Type ℓ} (dir : Bytes) (m : Program World A)
        → Keeps Kept m
        → Keeps Kept (λ w. and_remove os r scratch dir (m w))
    Keeps-and_remove dir m keeps w h = removes_dir dir (m w).0 (keeps w h)

    pub Keeps-write_tree :
        (parent : ObjectId) (born : Bool) (edits : List Edit)
        → Keeps Kept (write_tree os r scratch parent born edits)
    unfolding write_tree
    Keeps-write_tree parent born edits w h = go (scratch.make_dir w) (makes_dir w h)
      where
        env : Bytes → List Bytes
        env dir = (codes "GIT_INDEX_FILE=" ++ (dir ++ codes "/index")) ∷ []

        go :
            (made : World × Result Bytes)
            → Kept made.0
            → Kept
                (next_step
                  (λ made. elim made [
                    | err e ↦ lift (err (wrapped "git: create a scratch index: %w" [] e))
                    | ok dir ↦ λ w.
                        and_remove os r scratch dir (staged_tree os r (env dir) parent born edits w)
                  ])
                  made).0
        go (later, err e) kept = kept
        go (later, ok dir) kept =
            Keeps-and_remove dir (staged_tree os r (env dir) parent born edits)
              (Keeps-staged_tree (env dir) parent born edits) later kept
