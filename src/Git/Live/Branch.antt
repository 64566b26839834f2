-- ===== src/Git/Live/Branch.antt =====
-- git/: the branch that head reads and publish moves.
use micawber.Core.Errors.{is, invalid_value, Error, Result, ok, err, git_error}
use micawber.Core.Program.{lift, or_fail, next_step}
use micawber.Git.Exec.{Invocation, Process, run, Ran, result_of, operand_separator}
use micawber.Git.Exec.Laws.{run_guarded, executed}
use micawber.Git.Live.Keeps.{IsBuilding}
use micawber.Git.Object.{ObjectId}
use micawber.Git.Repository.{Repository, head, head_args, plain, resolved}
use micawber.Git.Repository.Head.{IsResolved, resolved-IsResolved}
use micawber.Git.Tree.{publish}
use micawber.Go.Space.{trim_space}
use micawber.Prelude.{
  ◌⊎◌, none, some, [], ◌∷◌, ◌≡◌, ◌==◌, inl, inr, all, codes, if◌then◌else◌, true, false, sym, ap,
  ◌∙◌, refl, Bool, Option, List, Bytes,
}

-- The id that names no object, and the empty text.
abbrev pub is_zero_id : Bytes → Bool
is_zero_id = all (λ c. c == b'0')

-- The arguments of publish.
abbrev pub update_args : Repository → ObjectId → Bytes → List Bytes
update_args r next old = codes "update-ref" ∷ operand_separator ∷ r.ref ∷ next ∷ old ∷ []

-- git on one repository, where `branch` is the commit that the branch of `r` points at, if it has
-- one. rev-parse prints it; the commands that read, and those that write objects, leave it as it
-- is; update-ref moves it from the old value given, none if that is empty, or leaves it as it is.
-- When run reports an error, the branch was left; or the context had ended, and it was either left or
-- moved.
pub record IsGit {World : Type 0} (os : Process World) (r : Repository)
    (branch : World → Option ObjectId) : Type 0 where
  pub prints_head :
      (w : World) (out : Bytes)
      → result_of (head_args os r) (executed os r.exec (plain (head_args os r)) w).1 ≡ ok out
      → (branch w ≡ some (trim_space out)) × (is_zero_id (trim_space out) ≡ false)
  pub prints_nothing :
      (w : World) (args : List Bytes)
      → result_of (head_args os r) (executed os r.exec (plain (head_args os r)) w).1
        ≡ err (git_error args (some 1) [])
      → branch w ≡ none
  pub builds :
      (i : Invocation) (w : World)
      → IsBuilding i.args
      → branch (executed os r.exec i w).0 ≡ branch w
  pub updates :
      (w : World) (next old out : Bytes)
      → result_of (update_args r next old) (executed os r.exec (plain (update_args r next old)) w).1
        ≡ ok out
      → (is_zero_id old ≡ false → branch w ≡ some old)
        × (old ≡ [] → branch w ≡ none)
        × (branch (executed os r.exec (plain (update_args r next old)) w).0 ≡ some next)
  pub refuses :
      (w : World) (next old : Bytes) (e : Error)
      → result_of (update_args r next old) (executed os r.exec (plain (update_args r next old)) w).1
        ≡ err e
      → (branch (executed os r.exec (plain (update_args r next old)) w).0 ≡ branch w)
        ⊎ ((stop : Error) × ((executed os r.exec (plain (update_args r next old)) w).1.ended
              ≡ some stop)
            × (is_zero_id old ≡ false → branch w ≡ some old)
            × (old ≡ [] → branch w ≡ none)
            × (branch (executed os r.exec (plain (update_args r next old)) w).0 ≡ some next))

-- What head reports, as a branch.
abbrev pub point : ObjectId → Bool → Option ObjectId
point parent born = if born then some parent else none

module _ {World : Type 0} (os : Process World) (r : Repository) (branch : World → Option ObjectId)
    (git : IsGit os r branch) where
  -- The branch was where head reports it.
  abbrev pub IsRead : World → ObjectId → Bool → Type 0
  IsRead w parent born = (branch w ≡ point parent born) × (born ≡ true → is_zero_id parent ≡ false)

  resolved-IsRead :
      (w : World) (found : Result Bytes) (parent : ObjectId) (born : Bool)
      → result_of (head_args os r) (executed os r.exec (plain (head_args os r)) w).1 ≡ found
      → IsResolved os r found parent born
      → IsRead w parent born
  resolved-IsRead w (ok out) parent born printed (named, is_born) =
      let (at, some_id) = git.prints_head w out printed in rw (named, is_born) (at, λ _. some_id)
  resolved-IsRead w (err e) parent born printed ((args, silent), named, not_born) =
      rw not_born (git.prints_nothing w args (printed ∙ ap err silent), λ h. cc h)

  pub head-IsRead :
      (w : World) {parent : ObjectId} {born : Bool}
      → (head os r w).1 ≡ ok (parent, born)
      → IsRead w parent born
  unfolding head is
  head-IsRead w {parent = parent} {born = born} h =
      elim (run_guarded os r.exec (plain (head_args os r)) w) [
        | inl (e, stopped, invalid) ↦
            let (args, silent) =
              (resolved-IsResolved os r (err e)
                (ap (λ out. resolved os r out.1) (sym stopped) ∙ h)).0 in
            cc (ap (λ z. is z invalid_value) silent, invalid)
        | inr (own, safe, env, harmless, went) ↦
            resolved-IsRead w _ parent born refl
              (resolved-IsResolved os r _ (ap (λ out. resolved os r out.1) (sym went) ∙ h))
      ]

  -- What a publication that succeeded, or one that failed, did to the branch.
  abbrev pub IsPublished : World → ObjectId → ObjectId → Bool → World × Result (Unit {0}) → Type 0
  IsPublished w old next born (last, ok _) =
      ((born ≡ true → is_zero_id old ≡ false) → branch w ≡ point old born)
      × (branch last ≡ some next)
  IsPublished w old next born (last, err e) =
      (branch last ≡ branch w)
      ⊎ ((given : Bytes) × (stop : Error) × ((executed os r.exec (plain (update_args r next given))
              w).1.ended
            ≡ some stop)
          × (last ≡ (executed os r.exec (plain (update_args r next given)) w).0)
          × ((born ≡ true → is_zero_id old ≡ false) → branch w ≡ point old born)
          × (branch last ≡ some next))

  pub publish-IsPublished :
      (w : World) (old next : ObjectId) (born : Bool)
      → IsPublished w old next born (publish os r old next born w)
  unfolding publish
  publish-IsPublished w old next born = go (run os r.exec (plain args) w) refl
    where
      given : Bytes
      given = if born then old else []

      args : List Bytes
      args = update_args r next given

      after : World × Ran
      after = executed os r.exec (plain args) w

      was :
          (born : Bool) (given : Bytes)
          → given ≡ (if born then old else [])
          → (born ≡ true → is_zero_id old ≡ false)
          → (is_zero_id given ≡ false → branch w ≡ some given) × (given ≡ [] → branch w ≡ none)
          → branch w ≡ point old born
      was true given e some_id (at, none_at) = at (ap is_zero_id e ∙ some_id refl) ∙ ap some e
      was false given e some_id (at, none_at) = none_at e

      go :
          (out : World × Result Bytes)
          → run os r.exec (plain args) w ≡ out
          → IsPublished w old next born (next_step (or_fail (λ _. lift (ok tt))) out)
      go (last, err e) h = elim (run_guarded os r.exec (plain args) w) [
        | inl (reason, stopped, invalid) ↦ inl (sym (ap (λ o. branch o.0) (sym stopped ∙ h)))
        | inr (own, safe, env, harmless, went) ↦
            let there : last ≡ after.0 = ap (λ o. o.0) (sym h ∙ went) in
            elim (git.refuses w next given e (ap (λ o. o.1) (sym went ∙ h))) [
              | inl left ↦ inl (ap branch there ∙ left)
              | inr (stop, ended, at, none_at, moved) ↦ inr (
                given,
                stop,
                ended,
                there,
                λ some_id. was born given refl some_id (at, none_at),
                ap branch there ∙ moved,
              )
            ]
      ]
      go (last, ok text) h = elim (run_guarded os r.exec (plain args) w) [
        | inl (reason, stopped, invalid) ↦ cc (sym stopped ∙ h)
        | inr (own, safe, env, harmless, went) ↦
            let (at, none_at, moved) =
              git.updates w next given text (ap (λ o. o.1) (sym went ∙ h)) in
            (
              λ some_id. was born given refl some_id (at, none_at),
              ap (λ o. branch o.0) (sym h ∙ went) ∙ moved,
            )
      ]
