-- ===== src/Git/Write/Keeps.antt =====
-- git/repository.go: the plan that Put gives to apply keeps what its two commands keep.
use micawber.Core.Content.{Content, revision_is_zero}
use micawber.Core.Program.Invariant.{Keeps}
use micawber.Git.Object.{ObjectId}
use micawber.Git.Plan.{Commands}
use micawber.Git.Plan.Keeps.{Keeps-plan_create, Keeps-plan_update}
use micawber.Git.Write.{put_plan}
use micawber.Markdown.Codec.{Codecs}
use micawber.Prelude.{if-elim, Bool, Bytes}

module _ (cs : Codecs) {World : Type 0} (git : Commands World) (Kept : World → Type 0)
    (reads : (parent : ObjectId) (path : Bytes) → Keeps Kept (git.cat_file parent path))
    (hashes : (b : Bytes) → Keeps Kept (git.hash_object b)) where
  pub Keeps-put_plan :
      (c : Content) (path : Bytes) (parent : ObjectId) (born : Bool)
      → Keeps Kept (put_plan cs git c path parent born)
  unfolding put_plan
  Keeps-put_plan c path parent born =
      if-elim (Keeps Kept) (revision_is_zero c.revision)
        (Keeps-plan_create cs git Kept reads hashes c path parent born)
        (Keeps-plan_update cs git Kept reads hashes c path parent born)
