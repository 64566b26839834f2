-- ===== src/Git/Repository/Head.antt =====
-- git/repository.go: what head makes of the end of rev-parse.
use micawber.Core.Errors.{Error, Result, ok, err, git_error}
use micawber.Git.Exec.{Process}
use micawber.Git.Object.{ObjectId, valid}
use micawber.Git.Repository.{Repository, resolved, is_unborn}
use micawber.Go.Space.{trim_space}
use micawber.Prelude.{
  none, some, [], ◌∷◌, ◌≡◌, inl, inr, true, false, sym, ap, Bool, List, Bytes, Bool-cases, arith,
}

module _ {World : Type 0} (os : Process World) (r : Repository) where
  -- rev-parse ended with 1 and printed no message.
  abbrev pub IsUnborn : Error → Type 0
  IsUnborn e = (args : List Bytes) × (e ≡ git_error args (some 1) [])

  is_unborn-IsUnborn : (e : Error) → is_unborn os r e ≡ true → IsUnborn e
  is_unborn-IsUnborn (git_error args (some code) (c ∷ s)) h = absurd (ground (arith, h))
  is_unborn-IsUnborn (git_error args (some code) []) h =
      let one : code ≡ 1 = ground (arith, h) in (args, ap (λ n. git_error args (some n) []) one)
  is_unborn-IsUnborn (git_error args none stderr) h = cc
  is_unborn-IsUnborn _ h = cc

  -- What head reports: the id printed, or no commit where rev-parse ended with 1 in silence.
  abbrev pub IsResolved : Result Bytes → ObjectId → Bool → Type 0
  IsResolved (ok out) parent born = (parent ≡ trim_space out) × (born ≡ true)
  IsResolved (err e) parent born = IsUnborn e × (parent ≡ []) × (born ≡ false)

  pub resolved-IsResolved :
      (found : Result Bytes) {parent : ObjectId} {born : Bool}
      → resolved os r found ≡ ok (parent, born)
      → IsResolved found parent born
  unfolding resolved
  resolved-IsResolved (ok out) {parent = parent} {born = born} h =
      elim (Bool-cases (valid (trim_space out))) [
        | inl good ↦
            let e : (trim_space out, true) ≡ (parent, born) = cc (rw (good, resolved) at h) in
            (sym (ap (λ (q : ObjectId × Bool). q.0) e), sym (ap (λ (q : ObjectId × Bool). q.1) e))
        | inr bad ↦ cc (rw (bad, resolved) at h)
      ]
  resolved-IsResolved (err reason) {parent = parent} {born = born} h =
      elim (Bool-cases (is_unborn os r reason)) [
        | inl silent ↦
            let e : ([], false) ≡ (parent, born) = cc (rw (silent, resolved) at h) in
            (
              is_unborn-IsUnborn reason silent,
              sym (ap (λ (q : ObjectId × Bool). q.0) e),
              sym (ap (λ (q : ObjectId × Bool). q.1) e),
            )
        | inr failed ↦ cc (rw (failed, resolved) at h)
      ]
