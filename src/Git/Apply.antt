-- ===== src/Git/Apply.antt =====
-- git/repository.go: apply, which publishes a planned write and retries while the branch moves.
pub mod Safety
pub mod Prepared
pub mod Progress
pub mod Keeps
use micawber.Git.Object.{ObjectId}
use micawber.Prelude.{
  zero, ◌+◌, inr, none, suc, some, inl, not, [], ◌⊎◌, if◌then◌else◌, Option, List, ℕ, Bool,
}
use micawber.Core.Program.{Program, lift, ◌>>=◌}
use micawber.Core.Errors.{Result, ok, err, Error, wrapped}
use micawber.Core.Content.{Revision}
use micawber.Git.Plan.{Edit, Planned}

-- The git commands of a write, on a world that holds the branch and the objects. The change that a
-- commit records is the call's, so commit_tree does not take it.
pub record Backend (World : Type 0) : Type 0 where
  pub head : Program World (ObjectId × Bool)
  pub write_tree : ObjectId → Bool → List Edit → Program World ObjectId
  pub commit_tree : ObjectId → ObjectId → Bool → Program World ObjectId
  pub publish : ObjectId → ObjectId → Bool → Program World (Unit {0})

-- What happens meanwhile: whether the context ends while the write waits for its turn, and, by the
-- number of the attempt, what other writers do before the branch is read and before it is published,
-- and when the context ends: before the attempt, behind its publication, where the last world tells,
-- and in the wait for the next.
pub record Meanwhile (World : Type 0) : Type 0 where
  pub ended_in_queue : Option Error
  pub before_read : ℕ → World → World
  pub before_publish : ℕ → World → World
  pub ended : ℕ → Option Error
  pub ended_in_publish : ℕ → World → Bool
  pub ended_in_wait : ℕ → Option Error

-- maxPublishAttempts.
abbrev pub max_publish_attempts : ℕ
max_publish_attempts = 5

-- One attempt up to its publication: the parent that it was built on, and the commit, if one is
-- wanted.
pub record Attempt : Type 0 where
  pub parent : ObjectId
  pub born : Bool
  pub revision : Revision
  pub commit : Option ObjectId

module _ {World : Type 0} (git : Backend World)
    (plan : ObjectId → Bool → Program World Planned) where
  build : ObjectId → Bool → Planned → Program World Attempt
  build parent born p =
      if not p.wanted
      then lift (ok (record { parent = parent; born = born; revision = p.revision; commit = none }))
      else (do
        tree ← git.write_tree parent born p.edits
        commit ← git.commit_tree tree parent born
        lift (
            ok (record {
              parent = parent;
              born = born;
              revision = p.revision;
              commit = some commit;
            })))

  plan_at : ObjectId × Bool → Program World Attempt
  unfolding build
  plan_at (parent, born) = do p ← plan parent born; build parent born p

  -- Resolve the branch, ask the plan, and record the commit.
  unfoldable pub prepare : Program World Attempt
  unfolding plan_at
  prepare = git.head >>= plan_at

  module _ (meanwhile : Meanwhile World) where
    -- What a publication leads to: the end of the loop, or another attempt.
    after_publish :
        ℕ → Revision → World × Result (Unit {0}) → (World × Result Revision) ⊎ (World × Error)
    after_publish k rev (w, ok _) = inl (w, ok rev)
    after_publish k rev (w, err e) =
        if meanwhile.ended_in_publish k w
        then inl (w, err e)
        else elim (meanwhile.ended_in_wait k) [
          | some stopped ↦ inl (w, err stopped)
          | none ↦ inr (w, e)
        ]

    publish_prepared : ℕ → World × Result Attempt → (World × Result Revision) ⊎ (World × Error)
    unfolding after_publish
    publish_prepared k (w, err e) = inl (w, err e)
    publish_prepared k (w, ok a) = elim a.commit [
      | none ↦ inl (w, ok a.revision)
      | some commit ↦
          after_publish k a.revision
            (git.publish a.parent commit a.born (meanwhile.before_publish k w))
    ]

    -- One turn of the loop.
    unfoldable pub attempt : ℕ → World → (World × Result Revision) ⊎ (World × Error)
    unfolding publish_prepared prepare
    attempt k w =
        let now = meanwhile.before_read k w in
        elim (meanwhile.ended k) [
          | some stopped ↦ inl (now, err stopped)
          | none ↦ publish_prepared k (prepare now)
        ]

    -- The loop, with this many attempts left.
    unfoldable pub attempts : ℕ → ℕ → World → Error → World × Result Revision
    unfolding attempt
    attempts zero k w last =
        (w, err (wrapped "git: the branch moved under all attempts to publish: %w" [] last))
    attempts (suc n) k w last = elim (attempt k w) [
      | inl out ↦ out
      | inr (later, e) ↦ attempts n (k + 1) later e
    ]

    -- apply. The error before the first attempt is never reported.
    unfoldable pub apply : World → World × Result Revision
    unfolding attempts
    apply w = elim meanwhile.ended_in_queue [
      | some stopped ↦ (w, err stopped)
      | none ↦ attempts max_publish_attempts 1 w (Error.foreign [])
    ]
