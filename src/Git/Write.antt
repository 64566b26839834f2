-- ===== src/Git/Write.antt =====
-- git/repository.go: Put and Delete.
pub mod Keeps
pub mod Removal
pub mod Swap
use micawber.Prelude.{if◌then◌else◌, Bool, [], Bytes}
use micawber.Core.Change.{Change}
use micawber.Core.Change as Change
use micawber.Core.Collection.{Collection}
use micawber.Core.Content.{Content, Revision, revision_is_zero}
use micawber.Core.Content as Content
use micawber.Core.ContentPath.{ContentPath}
use micawber.Core.Errors.{Result, ok, err, ◌>>=◌, ◌>>◌, wrap}
use micawber.Git.Apply.{Backend, Meanwhile, apply}
use micawber.Git.Object.{ObjectId}
use micawber.Git.Plan.{Commands, Planned, plan_create, plan_update, plan_delete, repo_path}
use micawber.Core.Program.{Program, lift, on_result, or_fail, next_step}
use micawber.Markdown.Codec.{Codecs}

-- What Put and Delete check before anything is read, and the path that they write.
unfoldable pub checked_put : Collection → Content → Change → Result Bytes
unfolding Content.validate Change.validate repo_path
checked_put root c ch = do
  wrap "git: put: %w" [] (Content.validate c)
  wrap "git: put %q: %w" c.path.p (Change.validate ch)
  repo_path root c.path

unfoldable pub checked_delete : Collection → ContentPath → Change → Result Bytes
unfolding Change.validate repo_path
checked_delete root p ch = do wrap "git: delete %q: %w" p.p (Change.validate ch); repo_path root p

module _ (cs : Codecs) {World : Type 0} (git : Commands World) where
  -- The plan that Put gives to apply.
  unfoldable pub put_plan : Content → Bytes → ObjectId → Bool → Program World Planned
  unfolding plan_create plan_update
  put_plan c path parent born =
      if revision_is_zero c.revision
      then plan_create cs git c path parent born
      else plan_update cs git c path parent born

  module _ (root : Collection) (backend : Change → Backend World)
      (meanwhile : Meanwhile World) where
    -- Put.
    unfoldable pub put : Content → Change → Program World Revision
    unfolding checked_put put_plan apply
    put c ch =
        or_fail (λ path. apply (backend ch) (put_plan c path) meanwhile) (checked_put root c ch)

    -- The error of Delete.
    abbrev forget_revision : World × Result Revision → World × Result (Unit {0})
    forget_revision (w, ok rev) = (w, ok tt)
    forget_revision (w, err e) = (w, err e)

    -- Delete.
    unfoldable pub delete : ContentPath → Revision → Change → Program World (Unit {0})
    unfolding checked_delete plan_delete apply
    delete p rev ch =
        or_fail
          (λ path w.
            forget_revision (apply (backend ch) (plan_delete cs git p rev path) meanwhile w))
          (checked_delete root p ch)
