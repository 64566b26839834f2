-- ===== src/Git/Apply/Prepared.antt =====
-- git/repository.go: what an attempt of apply was planned on.
use micawber.Prelude.{
  refl, true, Option, ap₂, ◌∙◌, none, inr, ap, sym, some, inl, Bool-cases, ◌≡◌, Bool,
}
use micawber.Core.Errors.{ok}
use micawber.Core.Program.{Program, >>=-ok}
use micawber.Git.Object.{ObjectId}
use micawber.Git.Plan.{Planned}
use micawber.Git.Apply.{Backend, Attempt, prepare, plan_at, build}

module _ {World : Type 0} (git : Backend World)
    (plan : ObjectId → Bool → Program World Planned) where
  -- The branch was read at the attempt's parent, and the plan made there is the one reported.
  pub record IsPrepared (w : World) (a : Attempt) : Type 0 where
    pub read : (git.head w).1 ≡ ok (a.parent, a.born)
    pub planned : Planned
    pub made : (plan a.parent a.born (git.head w).0).1 ≡ ok planned
    pub reports : a.revision ≡ planned.revision
    pub commits : planned.wanted ≡ true → (commit : ObjectId) × (a.commit ≡ some commit)

  build-reports :
      (parent : ObjectId) (born : Bool) (p : Planned) (w : World) {a : Attempt}
      → (build git plan parent born p w).1 ≡ ok a
      → (a.parent ≡ parent)
        × (a.born ≡ born)
        × (a.revision ≡ p.revision)
        × (p.wanted ≡ true → (commit : ObjectId) × (a.commit ≡ some commit))
  unfolding build
  build-reports parent born p w {a} h = elim (Bool-cases p.wanted) [
    | inl wanted ↦
        let (tree, written, rest) =
          >>=-ok (git.write_tree parent born p.edits) _ w (rw (wanted, build) at h) in
        let (commit, recorded, made) = >>=-ok (git.commit_tree tree parent born) _ _ rest in
        fields (some commit) (cc made) (λ _. (commit, refl))
    | inr nothing ↦ fields none (cc (rw (nothing, build) at h)) (λ wanted. cc (wanted, nothing))
  ]
    where
      fields :
          (commit : Option ObjectId)
          → record { parent = parent; born = born; revision = p.revision; commit = commit } ≡ a
          → (p.wanted ≡ true → (made : ObjectId) × (commit ≡ some made))
          → (a.parent ≡ parent)
            × (a.born ≡ born)
            × (a.revision ≡ p.revision)
            × (p.wanted ≡ true → (made : ObjectId) × (a.commit ≡ some made))
      fields commit e wants = (
        sym (ap (λ (b : Attempt). b.parent) e),
        sym (ap (λ (b : Attempt). b.born) e),
        sym (ap (λ (b : Attempt). b.revision) e),
        λ wanted.
            let (made, is_made) = wants wanted in
            (made, sym (ap (λ (b : Attempt). b.commit) e) ∙ is_made),
      )

  pub prepare-IsPrepared :
      (w : World) {a : Attempt} → (prepare git plan w).1 ≡ ok a → IsPrepared w a
  unfolding prepare plan_at
  prepare-IsPrepared w {a} h =
      let ((parent, born), read, rest) = >>=-ok git.head (plan_at git plan) w h in
      let (p, made, built) = >>=-ok (plan parent born) (build git plan parent born) _ rest in
      let (same_parent, same_born, reports, commits) = build-reports parent born p _ built in
      record {
        read = read ∙ sym (ap₂ (λ q b. ok (q, b)) same_parent same_born);
        planned = p;
        made = ap₂ (λ q b. (plan q b (git.head w).0).1) same_parent same_born ∙ made;
        reports = reports;
        commits = commits;
      }
