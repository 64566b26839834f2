-- ===== src/Git/Exec/Laws.antt =====
-- git/exec.go: what run executes.
use micawber.Prelude.{
  subst, refl, [], ◌++◌, ◌⊎◌, Bool-cases, inr, true, ◌∷◌, false, inl, All, any, map, ◌↔◌, codes,
  ◌≡◌, List, Bytes,
}
use micawber.Go.Text.{has_prefix, equal}
use micawber.Core.Errors.{
  leading_dash, FailsWith-bind, >>-ok_iff, git_operand, FailsWith-refuse, refuse-ok_iff,
  invalid_value, FailsWith, ok, err, Error, is, Result, first_error,
}
use micawber.Git.Exec.{
  fixed_env, Process, Runner, Invocation, run, check_operands, safe_arg, operands, environ,
  kept_env, entry_name, redirecting_env, result_of, start, ended_with, Ran,
}

abbrev pub IsOperand : Bytes → Type 0
IsOperand s = has_prefix s (codes "-") ≡ false

pub safe_arg-ok_iff : (s : Bytes) → (safe_arg s ≡ ok tt) ↔ IsOperand s
unfolding safe_arg
safe_arg-ok_iff s = refuse-ok_iff (has_prefix s (codes "-")) _

pub safe_arg-FailsWith : (s : Bytes) → FailsWith invalid_value (safe_arg s)
unfolding safe_arg
safe_arg-FailsWith s = FailsWith-refuse (has_prefix s (codes "-")) git_operand s leading_dash

all_safe : (args : List Bytes) → first_error (map safe_arg args) ≡ ok tt → All IsOperand args
all_safe [] h = tt
all_safe (a ∷ args) h =
    let (first, rest) = (>>-ok_iff (safe_arg a) (first_error (map safe_arg args))).0 h in
    ((safe_arg-ok_iff a).0 first, all_safe args rest)

all_fail : (args : List Bytes) → FailsWith invalid_value (first_error (map safe_arg args))
all_fail [] = tt
all_fail (a ∷ args) =
    FailsWith-bind invalid_value (safe_arg a) _ (safe_arg-FailsWith a) (λ _. all_fail args)

-- An entry of the environment that does not point git elsewhere.
abbrev pub IsHarmless : Bytes → Type 0
IsHarmless entry = any (equal (entry_name entry)) redirecting_env ≡ false

kept_env-IsHarmless : (base : List Bytes) → All IsHarmless (kept_env base)
unfolding kept_env
kept_env-IsHarmless [] = tt
kept_env-IsHarmless (entry ∷ base) =
    elim (Bool-cases (any (equal (entry_name entry)) redirecting_env)) [
      | inl named ↦ rw (named, kept_env) (kept_env-IsHarmless base)
      | inr harmless ↦ rw (harmless, kept_env) (harmless, kept_env-IsHarmless base)
    ]

module _ {World : Type 0} (os : Process World) (r : Runner) where
  -- The command's run, and what run makes of it.
  abbrev pub executed : Invocation → World → World × Ran
  executed i w = os.execute w r.bin r.dir i.args i.stdin (environ os.environment i.env)

  abbrev pub IsGuardedRun : Invocation → World → World × Result Bytes → Type 0
  IsGuardedRun i w out =
      ((e : Error) × (out ≡ (w, err e)) × (is e invalid_value ≡ true))
      ⊎ ((own : List Bytes) × All IsOperand (operands i.args)
          × (environ os.environment i.env ≡ own ++ (fixed_env ++ i.env))
          × All IsHarmless own
          × (out ≡ ((executed i w).0, result_of i.args (executed i w).1)))

  -- run either starts nothing, leaves the world as it was and returns an error that matches
  -- ErrInvalid; or no operand behind the separator begins with a dash, no inherited entry of
  -- the environment that git is started with is one of those that point it elsewhere, and the
  -- result is made of that one execution.
  pub run_guarded : (i : Invocation) (w : World) → IsGuardedRun i w (run os r i w)
  unfolding run start ended_with check_operands environ
  run_guarded i w = go (check_operands i.args) refl
    where
      go :
          (c : Result (Unit {0}))
          → check_operands i.args ≡ c
          → IsGuardedRun i w
              (elim c as (λ _. World × Result Bytes) [ err e ↦ (w, err e) | ok _ ↦ start os r i w ])
      go (err e) h = inl (e, refl, subst (FailsWith invalid_value) h (all_fail (operands i.args)))
      go (ok done) h = inr (
        kept_env os.environment,
        all_safe (operands i.args) h,
        refl,
        kept_env-IsHarmless os.environment,
        refl,
      )
