-- ===== src/Git/Live/Keeps.antt =====
-- git/: what the commands of a write leave of the world before they publish.
use micawber.Core.Change.{Change}
use micawber.Core.Content.{Content, Revision}
use micawber.Core.ContentPath.{ContentPath}
use micawber.Core.Program.{lift}
use micawber.Core.Program.Invariant.{Keeps, Keeps-bind}
use micawber.Git.Apply.{prepare}
use micawber.Git.Apply.Keeps.{Keeps-prepare}
use micawber.Git.Exec.{Invocation, Process, operands}
use micawber.Git.Exec.Laws.{IsOperand, executed}
use micawber.Git.Live.{read_entry, first_entry, commands, backend}
use micawber.Git.Object.{ObjectId}
use micawber.Git.Plan.{plan_delete}
use micawber.Git.Plan.Keeps.{Keeps-plan_delete}
use micawber.Git.Read.Keeps.{IsReading, Keeps-head, Keeps-cat_file}
use micawber.Git.Repository.{Repository, cat_file}
use micawber.Git.Tree.{Scratch}
use micawber.Git.Tree.Keeps.{IsRecording, Keeps-hash_object, Keeps-write_tree, Keeps-commit_tree}
use micawber.Git.Write.{put_plan}
use micawber.Git.Write.Keeps.{Keeps-put_plan}
use micawber.Markdown.Codec.{Codecs}
use micawber.Prelude.{inl, inr, ◌⊎◌, ◌∷◌, [], ◌++◌, All, List, Bytes}

-- The commands that move no branch.
abbrev pub IsBuilding : List Bytes → Type 0
IsBuilding args = IsReading args ⊎ IsRecording args

module _ {World : Type 0} (Kept : World → Type 0) (os : Process World) (scratch : Scratch World)
    (r : Repository)
    (builds : (i : Invocation) (w : World)
      → IsBuilding i.args
      → All IsOperand (operands i.args)
      → Kept w
      → Kept (executed os r.exec i w).0)
    (makes_dir : Keeps Kept scratch.make_dir)
    (removes_dir : (dir : Bytes) (w : World) → Kept w → Kept (scratch.remove_all dir w)) where
  reads :
      (i : Invocation) (w : World)
      → IsReading i.args
      → All IsOperand (operands i.args)
      → Kept w
      → Kept (executed os r.exec i w).0
  reads i w reading = builds i w (inl reading)

  records :
      (i : Invocation) (w : World)
      → IsRecording i.args
      → All IsOperand (operands i.args)
      → Kept w
      → Kept (executed os r.exec i w).0
  records i w recording = builds i w (inr recording)

  Keeps-read_entry :
      (parent : ObjectId) (path : Bytes) → Keeps Kept (read_entry os scratch r parent path)
  unfolding read_entry
  Keeps-read_entry parent path =
      Keeps-bind Kept (cat_file os r ((parent ++ (b':' ∷ path)) ∷ []))
        (λ entries. lift (first_entry entries))
        (Keeps-cat_file Kept os r reads ((parent ++ (b':' ∷ path)) ∷ [])) (λ entries w h. h)

  -- An attempt of Put, up to its publication.
  pub Keeps-prepare_put :
      (cs : Codecs) (c : Content) (ch : Change) (path : Bytes)
      → Keeps Kept (prepare (backend os scratch r ch) (put_plan cs (commands os scratch r) c path))
  Keeps-prepare_put cs c ch path =
      Keeps-prepare (backend os scratch r ch) (put_plan cs (commands os scratch r) c path) Kept
        (Keeps-head Kept os r reads)
        (Keeps-put_plan cs (commands os scratch r) Kept Keeps-read_entry
          (Keeps-hash_object Kept os r records) c path)
        (Keeps-write_tree Kept os r records scratch makes_dir removes_dir)
        (λ tree parent born. Keeps-commit_tree Kept os r records tree parent born ch)

  -- And of Delete.
  pub Keeps-prepare_delete :
      (cs : Codecs) (p : ContentPath) (rev : Revision) (ch : Change) (path : Bytes)
      → Keeps Kept
          (prepare (backend os scratch r ch) (plan_delete cs (commands os scratch r) p rev path))
  Keeps-prepare_delete cs p rev ch path =
      Keeps-prepare (backend os scratch r ch) (plan_delete cs (commands os scratch r) p rev path)
        Kept (Keeps-head Kept os r reads)
        (Keeps-plan_delete cs (commands os scratch r) Kept Keeps-read_entry
          (Keeps-hash_object Kept os r records) p rev path)
        (Keeps-write_tree Kept os r records scratch makes_dir removes_dir)
        (λ tree parent born. Keeps-commit_tree Kept os r records tree parent born ch)
