-- ===== src/Git/Live/Moved.antt =====
-- git/: what a write of apply did to the branch of a Git repository.
use micawber.Git.Exec.Laws.{executed}
use micawber.Core.Change.{Change}
use micawber.Core.Content.{Revision}
use micawber.Core.Errors.{Error, err}
use micawber.Core.Program.{Program}
use micawber.Git.Apply.{Meanwhile, prepare}
use micawber.Git.Apply.Prepared.{prepare-IsPrepared}
use micawber.Git.Apply.Safety.{IsWritten, IsCut}
use micawber.Git.Exec.{Process}
use micawber.Git.Live.{backend}
use micawber.Git.Live.Branch.{
  update_args, IsGit, IsPublished, point, head-IsRead, publish-IsPublished,
}
use micawber.Git.Object.{ObjectId}
use micawber.Git.Plan.{Planned}
use micawber.Git.Repository.{plain, Repository}
use micawber.Git.Tree.{Scratch, publish}
use micawber.Prelude.{
  false, true, Bytes, ℕ, none, some, ◌≡◌, ◌⊎◌, inl, inr, subst, sym, ap, ◌∙◌, Bool, Option,
}

module _ {World : Type 0} (os : Process World) (scratch : Scratch World) (r : Repository)
    (branch : World → Option ObjectId) (git : IsGit os r branch) (meanwhile : Meanwhile World)
    (Allowed : Option ObjectId → Type 0)
    (told : (k : ℕ) (next old : Bytes) (w : World) (stop : Error)
      → (executed os r.exec (plain (update_args r next old)) w).1.ended ≡ some stop
      → meanwhile.ended_in_publish k (executed os r.exec (plain (update_args r next old)) w).0
        ≡ true) where
  -- The branch is where the other writers may move it.
  abbrev pub OnAllowed : World → Type 0
  OnAllowed w = Allowed (branch w)

  -- The branch was read at the attempt's parent, and then either left there, or moved from there to
  -- the attempt's commit.
  pub record IsMoved (ch : Change) (plan : ObjectId → Bool → Program World Planned) (last : World)
      (rev : Revision)
      (written : IsWritten (backend os scratch r ch) plan meanwhile OnAllowed last rev)
      : Type 0 where
    pub read : branch written.start ≡ point written.a.parent written.a.born
    pub moved :
        ((written.a.commit ≡ none) × (branch last ≡ branch written.start))
        ⊎ ((commit : ObjectId) × (at : World) × Allowed (branch at)
            × (written.a.commit ≡ some commit)
            × (branch at ≡ point written.a.parent written.a.born)
            × (branch last ≡ some commit))

  pub written-IsMoved :
      (ch : Change) (plan : ObjectId → Bool → Program World Planned) (last : World) (rev : Revision)
      (written : IsWritten (backend os scratch r ch) plan meanwhile OnAllowed last rev)
      → ((w : World) → branch (prepare (backend os scratch r ch) plan w).0 ≡ branch w)
      → IsMoved ch plan last rev written
  written-IsMoved ch plan last rev written stays =
      let read =
        (prepare-IsPrepared (backend os scratch r ch) plan written.start
          (ap (λ out. out.1) written.prepared)).read in
      let (at, some_id) = head-IsRead os r branch git written.start read in
      record {
        read = at;
        moved = elim written.published [
          | inl (nothing, same) ↦ inl (
            nothing,
            ap branch (same ∙ sym (ap (λ out. out.0) written.prepared)) ∙ stays written.start,
          )
          | inr (commit, there, allowed, made, published) ↦
              let (was, is_now) =
                subst (IsPublished os r branch git there written.a.parent commit written.a.born)
                  published
                  (publish-IsPublished os r branch git there written.a.parent commit
                    written.a.born) in
              inr (commit, there, allowed, made, was some_id, is_now)
        ];
      }

  -- A publication that fails before the context ends leaves the branch as it is.
  pub publish-refused :
      (k : ℕ) (w last : World) (old next : ObjectId) (born : Bool) (e : Error)
      → meanwhile.ended_in_publish k last ≡ false
      → Allowed (branch w)
      → publish os r old next born w ≡ (last, err e)
      → Allowed (branch last)
  publish-refused k w last old next born e goes_on allowed h =
      elim (subst (IsPublished os r branch git w old next born) h
        (publish-IsPublished os r branch git w old next born)) [
          | inl same ↦ subst Allowed (sym same) allowed
          | inr (given, stop, ended, there, was, moved) ↦
              cc (goes_on, ap (meanwhile.ended_in_publish k) there, told k next given w stop ended)
        ]

  -- The branch was moved by a publication behind which the context had ended, so that it returned an
  -- error: from where the attempt had read it, to the attempt's commit.
  abbrev pub IsCutMove :
      (ch : Change) (plan : ObjectId → Bool → Program World Planned) (last : World) (e : Error)
      → IsCut (backend os scratch r ch) plan meanwhile OnAllowed last e
      → Type 0
  IsCutMove ch plan last e cut =
      (branch cut.at ≡ point cut.a.parent cut.a.born) × (branch last ≡ some cut.commit)

  pub cut-IsCutMove :
      (ch : Change) (plan : ObjectId → Bool → Program World Planned) (last : World) (e : Error)
      (cut : IsCut (backend os scratch r ch) plan meanwhile OnAllowed last e)
      → Allowed (branch last) ⊎ IsCutMove ch plan last e cut
  cut-IsCutMove ch plan last e cut =
      let read =
        (prepare-IsPrepared (backend os scratch r ch) plan cut.start
          (ap (λ out. out.1) cut.prepared)).read in
      let (at, some_id) = head-IsRead os r branch git cut.start read in
      elim (subst (IsPublished os r branch git cut.at cut.a.parent cut.commit cut.a.born) cut.failed
        (publish-IsPublished os r branch git cut.at cut.a.parent cut.commit cut.a.born)) [
          | inl same ↦ inl (subst Allowed (sym same) cut.at_kept)
          | inr (given, stop, ended, there, was, moved) ↦ inr (was some_id, moved)
        ]
