-- ===== src/Git/Live/Swap.antt =====
-- git/: Put and Delete on a Git repository, as a compare-and-swap of its branch.
use micawber.Git.Apply.Safety.{IsCut}
use micawber.Git.Exec.Laws.{executed}
use micawber.Core.Change.{Change}
use micawber.Core.Content.{Content, Revision}
use micawber.Core.ContentPath.{ContentPath}
use micawber.Core.Errors.{Error, Result, ok, err}
use micawber.Git.Apply.{Meanwhile, prepare}
use micawber.Git.Exec.{Process}
use micawber.Git.Live.{commands, backend, delete_document}
use micawber.Git.Live.Branch.{update_args, IsGit}
use micawber.Git.Live.Keeps.{Keeps-prepare_delete}
use micawber.Git.Live.Moved.{
  OnAllowed, IsCutMove, cut-IsCutMove, IsMoved, written-IsMoved, publish-refused,
}
use micawber.Git.Object.{ObjectId}
use micawber.Git.Plan.{plan_delete}
use micawber.Git.Repository.{plain, Repository}
use micawber.Git.Tree.{Scratch}
use micawber.Git.Write.{checked_delete, checked_put, put_plan, delete}
use micawber.Git.Write.Removal.{IsRemoval, IsDelete, delete-IsDelete}
use micawber.Git.Write.Swap.{IsSwap}
use micawber.Markdown.Codec.{Codecs}
use micawber.Prelude.{true, ◌⊎◌, inl, inr, some, ◌≡◌, subst, sym, ◌∙◌, refl, ℕ, Option, Bytes}

module _ {World : Type 0} (os : Process World) (scratch : Scratch World) (r : Repository)
    (branch : World → Option ObjectId) (git : IsGit os r branch)
    (makes_dir : (w : World) → branch (scratch.make_dir w).0 ≡ branch w)
    (removes_dir : (dir : Bytes) (w : World) → branch (scratch.remove_all dir w) ≡ branch w)
    (cs : Codecs) (meanwhile : Meanwhile World) (Allowed : Option ObjectId → Type 0)
    (told : (k : ℕ) (next old : Bytes) (w : World) (stop : Error)
      → (executed os r.exec (plain (update_args r next old)) w).1.ended ≡ some stop
      → meanwhile.ended_in_publish k (executed os r.exec (plain (update_args r next old)) w).0
        ≡ true) where
  prepare_delete-branch :
      (p : ContentPath) (rev : Revision) (ch : Change) (path : Bytes) (w : World)
      → branch
          (prepare
            (backend os scratch r ch)
            (plan_delete cs (commands os scratch r) p rev path)
            w).0
        ≡ branch w
  prepare_delete-branch p rev ch path w =
      Keeps-prepare_delete (λ later. branch later ≡ branch w) os scratch r
        (λ i later building safe same. git.builds i later building ∙ same)
        (λ later same. makes_dir later ∙ same) (λ dir later same. removes_dir dir later ∙ same) cs p
        rev ch path w refl

  -- Of a Put that succeeded: what it expected of the document, and what it did to the branch.
  abbrev pub IsDocumentPut : Content → Change → World × Result Revision → Type 0
  IsDocumentPut c ch (last, ok rev) =
      (swap : IsSwap cs (commands os scratch r) r.root (backend os scratch r) meanwhile
        (OnAllowed os scratch r branch git meanwhile Allowed told) c ch last rev)
      × IsMoved os scratch r branch git meanwhile Allowed told ch
          (put_plan cs (commands os scratch r) c swap.path) last rev swap.written
  IsDocumentPut c ch (last, err e) =
      Allowed (branch last)
      ⊎ ((path : Bytes) × (checked_put r.root c ch ≡ ok path)
          × (cut : IsCut (backend os scratch r ch) (put_plan cs (commands os scratch r) c path)
              meanwhile (OnAllowed os scratch r branch git meanwhile Allowed told) last e)
          × IsCutMove os scratch r branch git meanwhile Allowed told ch
              (put_plan cs (commands os scratch r) c path) last e cut)

  abbrev pub IsDocumentDelete : ContentPath → Revision → Change → World × Result (Unit {0}) → Type 0
  IsDocumentDelete p rev ch (last, ok _) =
      (removal : IsRemoval cs (commands os scratch r) r.root (backend os scratch r) meanwhile
        (OnAllowed os scratch r branch git meanwhile Allowed told) p rev ch last)
      × IsMoved os scratch r branch git meanwhile Allowed told ch
          (plan_delete cs (commands os scratch r) p rev removal.path) last removal.reported
          removal.written
  IsDocumentDelete p rev ch (last, err e) =
      Allowed (branch last)
      ⊎ ((path : Bytes) × (checked_delete r.root p ch ≡ ok path)
          × (cut : IsCut (backend os scratch r ch)
              (plan_delete cs (commands os scratch r) p rev path) meanwhile
              (OnAllowed os scratch r branch git meanwhile Allowed told) last e)
          × IsCutMove os scratch r branch git meanwhile Allowed told ch
              (plan_delete cs (commands os scratch r) p rev path) last e cut)

  delete-IsDocumentDelete :
      (p : ContentPath) (rev : Revision) (ch : Change) (out : World × Result (Unit {0}))
      → IsDelete cs
          (commands os scratch r)
          r.root
          (backend os scratch r)
          meanwhile
          (OnAllowed os scratch r branch git meanwhile Allowed told)
          p
          rev
          ch
          out
      → IsDocumentDelete p rev ch out
  delete-IsDocumentDelete p rev ch (last, err e) (inl kept) = inl kept
  delete-IsDocumentDelete p rev ch (last, err e) (inr (path, checked, cut)) =
      elim (cut-IsCutMove os scratch r branch git meanwhile Allowed told ch
        (plan_delete cs (commands os scratch r) p rev path) last e cut) [
          | inl allowed ↦ inl allowed
          | inr moved ↦ inr (path, checked, cut, moved)
        ]
  delete-IsDocumentDelete p rev ch (last, ok done) removal = (
    removal,
    written-IsMoved os scratch r branch git meanwhile Allowed told ch
        (plan_delete cs (commands os scratch r) p rev removal.path) last removal.reported
        removal.written (prepare_delete-branch p rev ch removal.path),
  )

  module _
      (reads : (k : ℕ) (w : World)
        → Allowed (branch w)
        → Allowed (branch (meanwhile.before_read k w)))
      (waits : (k : ℕ) (w : World)
        → Allowed (branch w)
        → Allowed (branch (meanwhile.before_publish k w))) where
    -- On a Git repository whose branch other writers move only to commits that are allowed, with a
    -- context that is still ended behind a command that saw it end: when Delete returns an error, the
    -- branch is at an allowed commit; or the context had ended while update-ref ran, the change had
    -- passed its validation, and update-ref had moved the branch all the same, from the commit that
    -- Delete had read to the one that it had built on it. When Delete returns none, the change
    -- passed its validation, a blob stood at the path in the commit that the branch then pointed
    -- at, with the given revision if there is one, and update-ref moved the branch from that same
    -- commit to the one that Delete had built on it.
    pub delete_document-IsDocumentDelete :
        (p : ContentPath) (rev : Revision) (ch : Change) (w : World)
        → Allowed (branch w)
        → IsDocumentDelete p rev ch (delete_document os scratch r cs meanwhile p rev ch w)
    unfolding delete_document
    delete_document-IsDocumentDelete p rev ch w allowed =
        delete-IsDocumentDelete p rev ch
          (delete cs (commands os scratch r) r.root (backend os scratch r) meanwhile p rev ch w)
          (delete-IsDelete cs (commands os scratch r) r.root (backend os scratch r) meanwhile
            (OnAllowed os scratch r branch git meanwhile Allowed told) reads waits
            (λ p rev ch path w. subst Allowed (sym (prepare_delete-branch p rev ch path w)))
            (λ ch. publish-refused os scratch r branch git meanwhile Allowed told) p rev ch w
            allowed)
