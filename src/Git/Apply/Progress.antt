-- ===== src/Git/Apply/Progress.antt =====
-- git/repository.go: apply gets through when the other writers leave it one attempt.
use micawber.Core.Content.{Revision}
use micawber.Core.Errors.{Error, Result, ok, err}
use micawber.Core.Program.{Program}
use micawber.Git.Apply.{
  Backend, Meanwhile, Attempt, prepare, publish_prepared, after_publish, attempt, attempts, apply,
  max_publish_attempts,
}
use micawber.Git.Object.{ObjectId}
use micawber.Git.Plan.{Planned}
use micawber.Prelude.{
  [], none, inl, inr, ◌⊎◌, ◌≡◌, ◌<◌, ◌+◌, zero, suc, refl, subst, arith, false, Bool, ℕ,
  Option-cases,
}

-- The context outlives the call.
pub record IsAlive {World : Type 0} (meanwhile : Meanwhile World) : Type 0 where
  pub in_queue : meanwhile.ended_in_queue ≡ none
  pub at_start : (k : ℕ) → meanwhile.ended k ≡ none
  pub in_publish : (k : ℕ) (w : World) → meanwhile.ended_in_publish k w ≡ false
  pub in_wait : (k : ℕ) → meanwhile.ended_in_wait k ≡ none

module _ {World : Type 0} (git : Backend World) (plan : ObjectId → Bool → Program World Planned)
    (meanwhile : Meanwhile World) (alive : IsAlive meanwhile)
    (IsAt : World → ObjectId → Bool → Type 0)
    (prepares : (w : World)
      → (built : World) × (a : Attempt) × (prepare git plan w ≡ (built, ok a))
        × IsAt built a.parent a.born)
    (accepts : (w : World) (old next : ObjectId) (born : Bool)
      → IsAt w old born
      → (git.publish old next born w).1 ≡ ok tt) where
  -- The turn ends the loop with a revision, or goes on.
  abbrev GoesOn : (World × Result Revision) ⊎ (World × Error) → Type 0
  GoesOn (inl (w, ok rev)) = Unit
  GoesOn (inl (w, err e)) = ⊥
  GoesOn (inr out) = Unit

  -- The turn ends the loop with a revision.
  abbrev Ends : (World × Result Revision) ⊎ (World × Error) → Type 0
  Ends (inl (w, ok rev)) = Unit
  Ends (inl (w, err e)) = ⊥
  Ends (inr out) = ⊥

  -- The other writers leave the branch alone before the publication of this attempt.
  abbrev pub IsQuiet : ℕ → Type 0
  IsQuiet k =
      (w : World) (parent : ObjectId) (born : Bool)
      → IsAt w parent born
      → IsAt (meanwhile.before_publish k w) parent born

  after_publish-GoesOn :
      (k : ℕ) (rev : Revision) (r : World × Result (Unit {0}))
      → GoesOn (after_publish git plan meanwhile k rev r)
  unfolding after_publish
  after_publish-GoesOn k rev (w, ok done) = tt
  after_publish-GoesOn k rev (w, err e) = rw (alive.in_publish k, alive.in_wait k) tt

  after_publish-Ends :
      (k : ℕ) (rev : Revision) (r : World × Result (Unit {0}))
      → r.1 ≡ ok tt
      → Ends (after_publish git plan meanwhile k rev r)
  unfolding after_publish
  after_publish-Ends k rev (w, ok done) h = tt
  after_publish-Ends k rev (w, err e) h = cc

  attempt-GoesOn : (k : ℕ) (w : World) → GoesOn (attempt git plan meanwhile k w)
  unfolding attempt publish_prepared
  attempt-GoesOn k w =
      let (built, a, prepared, at) = prepares (meanwhile.before_read k w) in
      rw (alive.at_start k, prepared, attempt)
        (elim (Option-cases a.commit) [
          | inl nothing ↦ rw nothing tt
          | inr (commit, made) ↦ rw made (after_publish-GoesOn k a.revision _)
        ])

  attempt-Ends : (k : ℕ) (w : World) → IsQuiet k → Ends (attempt git plan meanwhile k w)
  unfolding attempt publish_prepared
  attempt-Ends k w quiet =
      let (built, a, prepared, at) = prepares (meanwhile.before_read k w) in
      rw (alive.at_start k, prepared, attempt)
        (elim (Option-cases a.commit) [
          | inl nothing ↦ rw nothing tt
          | inr (commit, made) ↦ rw made (
              after_publish-Ends k a.revision _ (
                accepts (meanwhile.before_publish k built) a.parent commit a.born
                  (quiet built a.parent a.born at)))
        ])

  -- What the loop makes of a turn.
  ended :
      (n k : ℕ) (r : (World × Result Revision) ⊎ (World × Error))
      → Ends r
      → (rev : Revision) × ((elim r as (λ _. World × Result Revision) [
        | inl out ↦ out
        | inr (later, e) ↦ attempts git plan meanwhile n k later e
      ]).1
          ≡ ok rev)
  ended n k (inl (w, ok rev)) h = (rev, refl)
  ended n k (inl (w, err e)) h = absurd h
  ended n k (inr out) h = absurd h

  -- The loop ends with a revision by the attempt that is quiet, if as many attempts are left.
  attempts-return :
      (d n k : ℕ) (w : World) (last : Error)
      → IsQuiet (k + d)
      → d < n
      → (rev : Revision) × ((attempts git plan meanwhile n k w last).1 ≡ ok rev)
  unfolding attempts
  attempts-return d zero k w last quiet h = absurd (omega (arith, h))
  attempts-return zero (suc n) k w last quiet h =
      ended n (k + 1) (attempt git plan meanwhile k w)
        (attempt-Ends k w (subst IsQuiet (omega arith) quiet))
  attempts-return (suc d) (suc n) k w last quiet h =
      go (attempt git plan meanwhile k w) (attempt-GoesOn k w) (λ later e.
        attempts-return d n (k + 1) later e (subst IsQuiet (omega arith) quiet) (omega (arith, h)))
    where
      go :
          (r : (World × Result Revision) ⊎ (World × Error))
          → GoesOn r
          → ((later : World) (e : Error)
              → (rev : Revision) × ((attempts git plan meanwhile n (k + 1) later e).1 ≡ ok rev))
          → (rev : Revision) × ((elim r as (λ _. World × Result Revision) [
            | inl out ↦ out
            | inr (later, e) ↦ attempts git plan meanwhile n (k + 1) later e
          ]).1
              ≡ ok rev)
      go (inl (later, ok rev)) t again = (rev, refl)
      go (inl (later, err e)) t again = absurd t
      go (inr (later, e)) t again = again later e

  -- When the context outlives the call, every attempt can be prepared, and a publish is accepted
  -- wherever the branch still is where the attempt was prepared: apply returns a revision, if the
  -- other writers leave the branch alone between reading and publishing in one of the five
  -- attempts, whatever they do in the others.
  pub apply-returns :
      (d : ℕ) (w : World)
      → d < max_publish_attempts
      → IsQuiet (1 + d)
      → (rev : Revision) × ((apply git plan meanwhile w).1 ≡ ok rev)
  unfolding apply
  apply-returns d w h quiet =
      rw (alive.in_queue, apply)
        (attempts-return d max_publish_attempts 1 w (Error.foreign []) quiet h)
