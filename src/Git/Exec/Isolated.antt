-- ===== src/Git/Exec/Isolated.antt =====
-- git/exec.go: with which operands and which environment git is run.
use micawber.Core.Errors.{invalid_value, is, err, Error, Result}
use micawber.Go.Text.Cut.{cut-append}
use micawber.Go.Text.{contains_byte, equal}
use micawber.Git.Exec.{
  environ, run, result_of, Invocation, redirecting_env, Runner, Process, entry_name, operands,
}
use micawber.Git.Exec.Laws.{run_guarded, IsHarmless, IsOperand}
use micawber.Prelude.{
  ◌&&◌, not, all, All-map_lem, All-append, subst, refl, [], ◌++◌, ◌⊎◌, inr, true, ◌∷◌, false, inl,
  All, any, codes, arith, ap, ◌∙◌, Bool-cases, ◌≡◌, ◌≢◌, List, Bytes,
}

-- The variables that point git at another repository, or sign its commits for someone else.
abbrev foreign_variables : List Bytes
foreign_variables =
    codes "GIT_DIR"
    ∷ codes "GIT_WORK_TREE"
    ∷ codes "GIT_COMMON_DIR"
    ∷ codes "GIT_INDEX_FILE"
    ∷ codes "GIT_OBJECT_DIRECTORY"
    ∷ codes "GIT_ALTERNATE_OBJECT_DIRECTORIES"
    ∷ codes "GIT_NAMESPACE"
    ∷ codes "GIT_AUTHOR_NAME"
    ∷ codes "GIT_AUTHOR_EMAIL"
    ∷ codes "GIT_AUTHOR_DATE"
    ∷ codes "GIT_COMMITTER_NAME"
    ∷ codes "GIT_COMMITTER_EMAIL"
    ∷ codes "GIT_COMMITTER_DATE"
    ∷ []

-- The entry gives the variable no value.
abbrev LeavesUnset : Bytes → Bytes → Type 0
LeavesUnset entry name = (value : Bytes) → entry ≢ name ++ (b'=' ∷ value)

-- An entry that is handed on gives none of them a value.
abbrev pub IsHandedOn : Bytes → Type 0
IsHandedOn entry = All (LeavesUnset entry) foreign_variables

-- Where the separator stands once, what is behind it are operands.
abbrev pub HasSafeOperands : List Bytes → Type 0
HasSafeOperands args =
    (before after : List Bytes) → args ≡ before ++ (codes "--" ∷ after) → All IsOperand after

operands-All :
    (before after : List Bytes)
    → All IsOperand (operands (before ++ (codes "--" ∷ after)))
    → All IsOperand after
unfolding operands equal
operands-All [] after h = h
operands-All (arg ∷ before) after h = elim (Bool-cases (equal arg (codes "--"))) [
  | inl first ↦
      ((All-append IsOperand before (codes "--" ∷ after)).0 (rw (first, operands) at h)).1.1
  | inr other ↦ operands-All before after (rw (other, operands) at h)
]

entry_name-eq :
    (entry name value : Bytes)
    → contains_byte b'=' name ≡ false
    → entry ≡ name ++ (b'=' ∷ value)
    → entry_name entry ≡ name
unfolding entry_name
entry_name-eq entry name value plain e =
    ap entry_name e ∙ rw (cut-append b'=' name value plain, entry_name) refl

unset :
    (entry name : Bytes)
    → IsHarmless entry
    → contains_byte b'=' name ≡ false
    → any (equal name) redirecting_env ≡ true
    → LeavesUnset entry name
unset entry name harmless plain listed value e = cc (
  ap (λ n. any (equal n) redirecting_env) (entry_name-eq entry name value plain e),
  harmless,
  listed,
)

-- Each of these names is free of the equals sign, and on the list that the code strips.
unset_all :
    (entry : Bytes) (names : List Bytes)
    → IsHarmless entry
    → all (λ n. not (contains_byte b'=' n) && any (equal n) redirecting_env) names ≡ true
    → All (LeavesUnset entry) names
unset_all entry [] harmless listed = tt
unset_all entry (name ∷ names) harmless listed = (
  unset entry name harmless (ground (arith, listed)) (ground (arith, listed)),
  unset_all entry names harmless (ground (arith, listed)),
)

IsHarmless-IsHandedOn : (entry : Bytes) → IsHarmless entry → IsHandedOn entry
unfolding equal
IsHarmless-IsHandedOn entry h = unset_all entry foreign_variables h refl

-- Where git was run: with which environment, and that run came to nothing else.
pub record IsIsolated {World : Type 0} (os : Process World) (r : Runner) (i : Invocation)
    (w : World) (out : World × Result Bytes) : Type 0 where
  pub safe : HasSafeOperands i.args
  pub own : List Bytes
  pub handed_on : All IsHandedOn own
  pub env : List Bytes
  pub composed : env ≡ own ++ (codes "GIT_TERMINAL_PROMPT=0" ∷ i.env)
  pub went : out ≡ (
    (os.execute w r.bin r.dir i.args i.stdin env).0,
    result_of i.args (os.execute w r.bin r.dir i.args i.stdin env).1,
  )

-- run either starts nothing, leaves the world as it was and returns an error that matches
-- ErrInvalid; or no argument behind a separator begins with a dash, the environment that git is
-- started with is made of entries that give no value to GIT_DIR, GIT_WORK_TREE, GIT_COMMON_DIR,
-- GIT_INDEX_FILE, the two object directories, GIT_NAMESPACE and the names, addresses and dates of
-- author and committer, then GIT_TERMINAL_PROMPT=0, then the invocation's own, and the result is
-- made of that one execution.
pub run-IsIsolated :
    {World : Type 0} (os : Process World) (r : Runner) (i : Invocation) (w : World)
    → ((e : Error) × (run os r i w ≡ (w, err e)) × (is e invalid_value ≡ true))
      ⊎ IsIsolated os r i w (run os r i w)
run-IsIsolated os r i w = elim (run_guarded os r i w) [
  | inl stopped ↦ inl stopped
  | inr (own, safe, env, harmless, went) ↦ inr (record {
    safe = λ before after e.
        operands-All before after (subst (λ a. All IsOperand (operands a)) e safe);
    own = own;
    handed_on = All-map_lem {P = IsHarmless} {Q = IsHandedOn} IsHarmless-IsHandedOn own harmless;
    env = environ os.environment i.env;
    composed = env;
    went = went;
  })
]
