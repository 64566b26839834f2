-- ===== src/Git/Apply/Safety.antt =====
-- git/repository.go: apply among other writers.
use micawber.Git.Object.{ObjectId}
use micawber.Prelude.{
  Bool-cases, false, true, Option, [], zero, ◌+◌, suc, refl, Option-cases, inr, some, inl, none, ℕ,
  ◌⊎◌, ◌≡◌, Bool,
}
use micawber.Core.Errors.{Result, ok, err, Error}
use micawber.Core.Content.{Revision}
use micawber.Core.Program.{Program}
use micawber.Core.Program.Invariant.{Keeps}
use micawber.Git.Plan.{Planned}
use micawber.Git.Apply.{
  max_publish_attempts, Backend, Meanwhile, Attempt, prepare, attempt, attempts, apply,
  after_publish, publish_prepared,
}

module _ {World : Type 0} (git : Backend World) (plan : ObjectId → Bool → Program World Planned)
    (meanwhile : Meanwhile World) (Kept : World → Type 0) where
  -- The last world of a write that succeeded, from the world that its attempt began in.
  pub record IsWritten (last : World) (rev : Revision) : Type 0 where
    pub start : World
    pub start_kept : Kept start
    pub built : World
    pub built_kept : Kept built
    pub a : Attempt
    pub prepared : prepare git plan start ≡ (built, ok a)
    pub reported : a.revision ≡ rev
    pub published :
        ((a.commit ≡ none) × (last ≡ built))
        ⊎ ((commit : ObjectId) × (at : World) × Kept at
            × (a.commit ≡ some commit)
            × (git.publish a.parent commit a.born at ≡ (last, ok tt)))

  -- The last world of a write whose context had ended behind its publication, which returned an
  -- error: it may have moved the branch or not.
  pub record IsCut (last : World) (e : Error) : Type 0 where
    pub start : World
    pub start_kept : Kept start
    pub built : World
    pub built_kept : Kept built
    pub a : Attempt
    pub prepared : prepare git plan start ≡ (built, ok a)
    pub commit : ObjectId
    pub made : a.commit ≡ some commit
    pub at : World
    pub at_kept : Kept at
    pub failed : git.publish a.parent commit a.born at ≡ (last, err e)
    pub k : ℕ
    pub ended : meanwhile.ended_in_publish k last ≡ true

  abbrev pub IsOutcome : World × Result Revision → Type 0
  IsOutcome (last, ok rev) = IsWritten last rev
  IsOutcome (last, err e) = Kept last ⊎ IsCut last e

  abbrev IsTurn : (World × Result Revision) ⊎ (World × Error) → Type 0
  IsTurn (inl out) = IsOutcome out
  IsTurn (inr (later, e)) = Kept later

  module _ (reads : (k : ℕ) (w : World) → Kept w → Kept (meanwhile.before_read k w))
      (waits : (k : ℕ) (w : World) → Kept w → Kept (meanwhile.before_publish k w))
      (prepares : Keeps Kept (prepare git plan))
      (refused : (k : ℕ) (w last : World) (old next : ObjectId) (born : Bool) (e : Error)
        → meanwhile.ended_in_publish k last ≡ false
        → Kept w
        → git.publish old next born w ≡ (last, err e)
        → Kept last) where
    after_publish-IsTurn :
        (k : ℕ) (start built at : World) (a : Attempt) (commit : ObjectId)
        → Kept start
        → Kept built
        → Kept at
        → prepare git plan start ≡ (built, ok a)
        → a.commit ≡ some commit
        → (r : World × Result (Unit {0})) → git.publish a.parent commit a.born at ≡ r
        → IsTurn (after_publish git plan meanwhile k a.revision r)
    unfolding after_publish
    after_publish-IsTurn k start built at a commit ks kb ka prepared made (w, ok tt) e = record {
      start = start;
      start_kept = ks;
      built = built;
      built_kept = kb;
      a = a;
      prepared = prepared;
      reported = refl;
      published = inr (commit, at, ka, made, e);
    }
    after_publish-IsTurn k start built at a commit ks kb ka prepared made (w, err reason) e =
        elim (Bool-cases (meanwhile.ended_in_publish k w)) [
          | inl ended ↦ rw ended (
              inr (record {
                start = start;
                start_kept = ks;
                built = built;
                built_kept = kb;
                a = a;
                prepared = prepared;
                commit = commit;
                made = made;
                at = at;
                at_kept = ka;
                failed = e;
                k = k;
                ended = ended;
              }))
          | inr goes_on ↦
              let kept = refused k at w a.parent commit a.born reason goes_on ka e in
              elim (Option-cases (meanwhile.ended_in_wait k)) [
                | inl waits_on ↦ rw (goes_on, waits_on) kept
                | inr (stopped, ends) ↦ rw (goes_on, ends) (inl kept)
              ]
        ]

    publish_prepared-IsTurn :
        (k : ℕ) (start : World) (r : World × Result Attempt)
        → Kept start
        → Kept r.0
        → prepare git plan start ≡ r
        → IsTurn (publish_prepared git plan meanwhile k r)
    unfolding publish_prepared
    publish_prepared-IsTurn k start (built, err e) ks kb prepared = inl kb
    publish_prepared-IsTurn k start (built, ok a) ks kb prepared = elim (Option-cases a.commit) [
      | inl nothing ↦
          rw (nothing, publish_prepared)
            (record {
              start = start;
              start_kept = ks;
              built = built;
              built_kept = kb;
              a = a;
              prepared = prepared;
              reported = refl;
              published = inl (nothing, refl);
            })
      | inr (commit, made) ↦
          let at = meanwhile.before_publish k built in
          rw (made, publish_prepared)
            (after_publish-IsTurn k start built at a commit ks kb (waits k built kb) prepared made
              (git.publish a.parent commit a.born at) refl)
    ]

    attempt-IsTurn : (k : ℕ) (w : World) → Kept w → IsTurn (attempt git plan meanwhile k w)
    unfolding attempt
    attempt-IsTurn k w kw =
        let now = meanwhile.before_read k w in
        elim (Option-cases (meanwhile.ended k)) [
          | inl goes_on ↦
              rw (goes_on, attempt)
                (publish_prepared-IsTurn k now (prepare git plan now) (reads k w kw)
                  (prepares now (reads k w kw)) refl)
          | inr (stopped, ends) ↦ rw (ends, attempt) (inl (reads k w kw))
        ]

    attempts-IsOutcome :
        (n k : ℕ) (w : World) (last : Error)
        → Kept w
        → IsOutcome (attempts git plan meanwhile n k w last)
    unfolding attempts
    attempts-IsOutcome zero k w last kw = inl kw
    attempts-IsOutcome (suc n) k w last kw =
        go (λ later e kl. attempts-IsOutcome n (k + 1) later e kl) (attempt git plan meanwhile k w)
          (attempt-IsTurn k w kw)
      where
        go :
            ((later : World) (e : Error)
              → Kept later
              → IsOutcome (attempts git plan meanwhile n (k + 1) later e))
            → (r : (World × Result Revision) ⊎ (World × Error)) → IsTurn r
            → IsOutcome (elim r [
              | inl out ↦ out
              | inr (later, e) ↦ attempts git plan meanwhile n (k + 1) later e
            ])
        go again (inl out) t = t
        go again (inr (later, e)) t = again later e t

    pub apply-IsOutcome : (w : World) → Kept w → IsOutcome (apply git plan meanwhile w)
    unfolding apply
    apply-IsOutcome w kw = go meanwhile.ended_in_queue
      where
        go :
            (stop : Option Error)
            → IsOutcome (elim stop [
              | some stopped ↦ (w, err stopped)
              | none ↦ attempts git plan meanwhile max_publish_attempts 1 w (Error.foreign [])
            ])
        go none = attempts-IsOutcome max_publish_attempts 1 w (Error.foreign []) kw
        go (some stopped) = inl kw
