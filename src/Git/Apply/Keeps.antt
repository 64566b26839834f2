-- ===== src/Git/Apply/Keeps.antt =====
-- git/repository.go: an attempt of apply, up to its publication, keeps what its commands keep.
use micawber.Core.Program.{Program}
use micawber.Core.Program.Invariant.{Keeps, Keeps-bind}
use micawber.Git.Apply.{Backend, prepare, plan_at, build}
use micawber.Git.Object.{ObjectId}
use micawber.Git.Plan.{Edit, Planned}
use micawber.Prelude.{if-elim, not, Bool, List}

module _ {World : Type 0} (git : Backend World) (plan : ObjectId → Bool → Program World Planned)
    (Kept : World → Type 0) (heads : Keeps Kept git.head)
    (plans : (parent : ObjectId) (born : Bool) → Keeps Kept (plan parent born))
    (trees : (parent : ObjectId) (born : Bool) (edits : List Edit)
      → Keeps Kept (git.write_tree parent born edits))
    (commits : (tree parent : ObjectId) (born : Bool)
      → Keeps Kept (git.commit_tree tree parent born)) where
  Keeps-build :
      (parent : ObjectId) (born : Bool) (p : Planned) → Keeps Kept (build git plan parent born p)
  unfolding build
  Keeps-build parent born p =
      if-elim (Keeps Kept) (not p.wanted) (λ w h. h)
        (Keeps-bind Kept (git.write_tree parent born p.edits) _ (trees parent born p.edits) (λ tree.
          Keeps-bind Kept (git.commit_tree tree parent born) _ (commits tree parent born)
            (λ commit w h. h)))

  pub Keeps-prepare : Keeps Kept (prepare git plan)
  unfolding prepare plan_at
  Keeps-prepare = Keeps-bind Kept git.head (plan_at git plan) heads (λ (parent, born).
      Keeps-bind Kept (plan parent born) (build git plan parent born) (plans parent born)
        (Keeps-build parent born))
