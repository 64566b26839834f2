-- ===== src/Git/Exec.antt =====
-- git/exec.go: the one place that runs git.
pub mod Laws
pub mod Isolated
use micawber.Prelude.{
  take, length, ltb, any, [], none, some, if◌then◌else◌, ◌++◌, map, ◌∷◌, codes, Option, Bytes, ℕ,
  List,
}
use micawber.Go.Space.{trim_space}
use micawber.Go.Text.{equal, has_prefix, cut}
use micawber.Core.Errors.{
  Result, ok, err, Error, wrapped, git_error, git_operand, leading_dash, invalidf, refuse,
  first_error,
}
use micawber.Core.Program.{Program}

-- redirectingEnv.
abbrev pub redirecting_env : List Bytes
redirecting_env =
    codes "GIT_DIR"
    ∷ codes "GIT_WORK_TREE"
    ∷ codes "GIT_COMMON_DIR"
    ∷ codes "GIT_INDEX_FILE"
    ∷ codes "GIT_OBJECT_DIRECTORY"
    ∷ codes "GIT_ALTERNATE_OBJECT_DIRECTORIES"
    ∷ codes "GIT_NAMESPACE"
    ∷ codes "GIT_AUTHOR_NAME"
    ∷ codes "GIT_AUTHOR_EMAIL"
    ∷ codes "GIT_AUTHOR_DATE"
    ∷ codes "GIT_COMMITTER_NAME"
    ∷ codes "GIT_COMMITTER_EMAIL"
    ∷ codes "GIT_COMMITTER_DATE"
    ∷ []

-- fixedEnv.
abbrev pub fixed_env : List Bytes
fixed_env = codes "GIT_TERMINAL_PROMPT=0" ∷ []

-- maxStderrBytes, operandSeparator.
abbrev pub max_stderr_bytes : ℕ
max_stderr_bytes = 4096

abbrev pub operand_separator : Bytes
operand_separator = codes "--"

-- runner, without the seam of its tests.
pub record Runner : Type 0 where
  pub bin : Bytes
  pub dir : Bytes

-- invocation; a nil stdin is none.
pub record Invocation : Type 0 where
  pub args : List Bytes
  pub stdin : Option Bytes
  pub env : List Bytes

-- What cmd.Run returns: nil, an ExitError with its status, or another error.
pub data Exit : Type 0 where
  success : Exit
  exited : Option ℕ → Exit
  failed : Error → Exit

-- What a run of a command leaves: its output, its end, and ctx.Err() behind it.
pub record Ran : Type 0 where
  pub stdout : Bytes
  pub stderr : Bytes
  pub exit : Exit
  pub ended : Option Error

-- The operating system: os.Environ, and one command run with the program, the directory, the
-- arguments, the input and the environment given.
pub record Process (World : Type 0) : Type 0 where
  pub environment : List Bytes
  pub execute : World → Bytes → Bytes → List Bytes → Option Bytes → List Bytes → World × Ran

-- safeArg.
unfoldable pub safe_arg : Bytes → Result (Unit {0})
unfolding has_prefix
safe_arg s = refuse (has_prefix s (codes "-")) (invalidf git_operand s leading_dash)

-- What stands after the first separator.
unfoldable pub operands : List Bytes → List Bytes
unfolding equal
operands [] = []
operands (arg ∷ args) =
    let rest = operands args in if equal arg operand_separator then args else rest

-- checkOperands.
unfoldable pub check_operands : List Bytes → Result (Unit {0})
unfolding operands safe_arg
check_operands args = first_error (map safe_arg (operands args))

-- The name of an entry of the environment.
unfoldable pub entry_name : Bytes → Bytes
unfolding cut
entry_name entry = elim (cut b'=' entry) [ none ↦ entry | some (name, value) ↦ name ]

unfoldable pub kept_env : List Bytes → List Bytes
unfolding entry_name equal
kept_env [] = []
kept_env (entry ∷ entries) =
    let rest = kept_env entries in
    if any (equal (entry_name entry)) redirecting_env then rest else entry ∷ rest

-- environ.
unfoldable pub environ : List Bytes → List Bytes → List Bytes
unfolding kept_env
environ base extra = kept_env base ++ (fixed_env ++ extra)

-- subcommand.
abbrev pub subcommand : List Bytes → Bytes
subcommand [] = codes "(no arguments)"
subcommand (arg ∷ args) = arg

-- trimStderr.
unfoldable pub trim_stderr : Bytes → Bytes
unfolding trim_space
trim_stderr b = trim_space (if ltb max_stderr_bytes (length b) then take max_stderr_bytes b else b)

-- What run makes of a command that ended.
unfoldable pub result_of : List Bytes → Ran → Result Bytes
unfolding trim_stderr
result_of args ran = elim ran.exit [
  | success ↦ ok ran.stdout
  | exited code ↦ elim ran.ended [
    | some stopped ↦ err (wrapped "git %s: %w" (subcommand args) stopped)
    | none ↦ err (git_error args code (trim_stderr ran.stderr))
  ]
  | failed e ↦ elim ran.ended [
    | some stopped ↦ err (wrapped "git %s: %w" (subcommand args) stopped)
    | none ↦ err (wrapped "git %s: %w" (subcommand args) e)
  ]
]

module _ {World : Type 0} (os : Process World) (r : Runner) where
  ended_with : List Bytes → World × Ran → World × Result Bytes
  unfolding result_of
  ended_with args (w, ran) = (w, result_of args ran)

  start : Invocation → Program World Bytes
  unfolding environ ended_with
  start i w =
      ended_with i.args (os.execute w r.bin r.dir i.args i.stdin (environ os.environment i.env))

  -- run.
  unfoldable pub run : Invocation → Program World Bytes
  unfolding check_operands start
  run i w = elim (check_operands i.args) [ err e ↦ (w, err e) | ok _ ↦ start i w ]
