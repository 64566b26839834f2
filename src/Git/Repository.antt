-- ===== src/Git/Repository.antt =====
-- git/repository.go and git/object.go: the repository, its options, Open, and the reading of
-- objects.
pub mod Head
use micawber.Prelude.{
  true, false, length, any, ◌++◌, ◌&&◌, ◌||◌, [], some, String, ◌∷◌, not, none, Option, ◌==◌,
  is_nil, codes, Bool, List, if◌then◌else◌, ℕ, Bytes,
}
use micawber.Go.Space.{trim_space}
use micawber.Go.Text.{equal, has_prefix}
use micawber.Core.Collection.{to_string, Collection, is_root}
use micawber.Core.Errors.{
  Result, ok, err, Error, wrapped, wrapped_both, sentinel, foreign, git_error, invalid_value,
  not_found,
}
use micawber.Git.Exec.{Process, Runner, Invocation, run, safe_arg}
use micawber.Git.Object.{
  ObjectId, BatchEntry, batch_request, parse_batch, valid, blob_type, tree_type, out_of_range,
}
use micawber.Core.Program.{or_fail, ◌>>=◌, Program, lift, on_result}

-- defaultGitBinary, branchRefPrefix.
abbrev pub default_git_binary : Bytes
default_git_binary = codes "git"

abbrev pub branch_ref_prefix : Bytes
branch_ref_prefix = codes "refs/heads/"

-- Repository; the queue of writers is left out.
pub record Repository : Type 0 where
  pub exec : Runner
  pub ref : Bytes
  pub root : Collection

-- options.
pub record Options : Type 0 where
  pub bin : Bytes
  pub ref : Bytes
  pub root : Collection

-- Option; a nil one is `none` in a list of them.
abbrev pub Setting : Type 0
Setting = Options → Result Options

-- WithGitBinary.
unfoldable pub with_git_binary : Bytes → Setting
with_git_binary path o =
    if is_nil path
    then err (wrapped "git: WithGitBinary: the path is empty: %w" [] (sentinel invalid_value))
    else ok (record { bin = path; ref = o.ref; root = o.root })

abbrev is_ref_space : ℕ → Bool
is_ref_space c = c == b' ' || c == 0x09 || c == 0x0A || c == 0x0D

-- WithBranch.
unfoldable pub with_branch : Bytes → Setting
unfolding trim_space safe_arg has_prefix
with_branch ref o =
    if is_nil (trim_space ref)
    then err (wrapped "git: WithBranch: the branch is empty: %w" [] (sentinel invalid_value))
    else elim (safe_arg ref) [
      | err e ↦ err e
      | ok _ ↦
          if any is_ref_space ref
          then err
              (wrapped "git: WithBranch: %q contains whitespace: %w" ref (sentinel invalid_value))
          else if has_prefix ref (codes "refs/")
          then ok (record { bin = o.bin; ref = ref; root = o.root })
          else ok (record { bin = o.bin; ref = branch_ref_prefix ++ ref; root = o.root })
    ]

-- WithContentRoot.
unfoldable pub with_content_root : Collection → Setting
unfolding safe_arg micawber.Core.Collection.to_string
with_content_root root o = elim (if is_root root then ok tt else safe_arg (to_string root)) [
  | err e ↦ err e
  | ok _ ↦ ok (record { bin = o.bin; ref = o.ref; root = root })
]

-- The options of Open, one after the other.
unfoldable pub apply_settings : Bytes → List (Option Setting) → Options → Result Options
apply_settings dir [] o = ok o
apply_settings dir (none ∷ settings) o =
    err (wrapped "git: open %q: a nil Option was given: %w" dir (sentinel invalid_value))
apply_settings dir (some setting ∷ settings) o = elim (setting o) [
  | err e ↦ err e
  | ok changed ↦ apply_settings dir settings changed
]

-- A command with no input and nothing added to its environment.
abbrev pub plain : List Bytes → Invocation
plain args = record { args = args; stdin = none; env = [] }

module _ {World : Type 0} (os : Process World) where
  -- The branch that Open is to write to.
  resolve_branch : Runner → Bytes → Bytes → Program World Bytes
  unfolding run safe_arg trim_space
  resolve_branch exec dir ref =
      if not (is_nil ref)
      then lift (ok ref)
      else on_result (run os exec (plain (codes "symbolic-ref" ∷ codes "HEAD" ∷ []))) λ r. elim r [
        | err e ↦ lift (
            err (
              wrapped_both
                "git: open %q: HEAD is detached, so there is no branch to compare-and-swap on: %w: %w"
                dir (sentinel invalid_value) e))
        | ok out ↦
            let head = trim_space out in
            elim (safe_arg head) [ err e ↦ lift (err e) | ok _ ↦ lift (ok head) ]
      ]

  -- Open behind its options; the first argument is exec.LookPath.
  open_at : (Bytes → Result Bytes) → Bytes → Options → Program World Repository
  unfolding run resolve_branch trim_space
  open_at look_path dir o =
      if is_nil (trim_space dir)
      then lift (
          err (
            wrapped "git: open: the repository directory is empty: %w" [] (sentinel invalid_value)))
      else elim (look_path o.bin) [
        | err e ↦ lift (
            err (
              wrapped_both "git: git binary %q is not usable: %w: %w" o.bin (sentinel invalid_value)
                e))
        | ok bin ↦
            let exec : Runner = record { bin = bin; dir = dir } in
            on_result (run os exec (plain (codes "rev-parse" ∷ codes "--git-dir" ∷ []))) λ r.
              elim r [
                | err e ↦ lift (
                    err (
                      wrapped_both "git: open %q: not a Git repository: %w: %w" dir
                        (sentinel invalid_value) e))
                | ok _ ↦ do
                  ref ← resolve_branch exec dir o.ref
                  lift (ok (record { exec = exec; ref = ref; root = o.root }))
              ]
      ]

  -- Open, lookGit.
  unfoldable pub open_repository :
      (Bytes → Result Bytes) → Bytes → List (Option Setting) → Program World Repository
  unfolding open_at apply_settings
  open_repository look_path dir settings =
      let start : Options = record {
        bin = default_git_binary;
        ref = [];
        root = record { p = [] };
      } in
      elim (apply_settings dir settings start) [
        | err e ↦ lift (err e)
        | ok o ↦ open_at look_path dir o
      ]

module _ {World : Type 0} (os : Process World) (r : Repository) where
  -- One batch, for a request of this many lines.
  unfoldable pub read_batch : ℕ → Bytes → Program World (List BatchEntry)
  unfolding run parse_batch
  read_batch want request = do
    out ←
        run os r.exec (record {
          args = codes "cat-file" ∷ codes "--batch" ∷ [];
          stdin = some request;
          env = [];
        })
    lift (parse_batch out want)

  -- catFile.
  unfoldable pub cat_file : List Bytes → Program World (List BatchEntry)
  unfolding batch_request read_batch
  cat_file [] = lift (ok [])
  cat_file (spec ∷ specs) =
      or_fail (read_batch (length (spec ∷ specs))) (batch_request (spec ∷ specs))

  -- What readBlob makes of an entry; the name of the thing is a format and its operand.
  unfoldable pub blob_of : String → Bytes → List BatchEntry → Result (ObjectId × Bytes)
  unfolding equal
  blob_of what v [] = err out_of_range
  blob_of what v (entry ∷ entries) =
      if entry.missing
      then err (wrapped what v (sentinel not_found))
      else if equal entry.typ tree_type
      then err (wrapped "git: %s is a directory, not a document: %w" v (sentinel not_found))
      else if not (equal entry.typ blob_type)
      then err (wrapped "git: %s is a %s, not a document: %w" v (sentinel not_found))
      else ok (entry.oid, entry.contents)

  -- readBlob.
  unfoldable pub read_blob : Bytes → String → Bytes → Program World (ObjectId × Bytes)
  unfolding cat_file blob_of
  read_blob spec what v = do entries ← cat_file (spec ∷ []); lift (blob_of what v entries)

  -- The exit that rev-parse has for a branch without commits.
  abbrev is_unborn : Error → Bool
  is_unborn (git_error args (some code) stderr) = code == 1 && is_nil stderr
  is_unborn _ = false

  -- What head makes of the output of rev-parse.
  unfoldable pub resolved : Result Bytes → Result (ObjectId × Bool)
  unfolding valid trim_space
  resolved (err e) =
      if is_unborn e then ok ([], false) else err (wrapped "git: resolve %s: %w" r.ref e)
  resolved (ok out) =
      let oid = trim_space out in
      if valid oid
      then ok (oid, true)
      else err (foreign (codes "git: resolve %s: %q is not an object id"))

  abbrev pub head_args : List Bytes
  head_args =
      codes "rev-parse" ∷ codes "--verify" ∷ codes "--quiet" ∷ (r.ref ++ codes "^{commit}") ∷ []

  -- head.
  unfoldable pub head : Program World (ObjectId × Bool)
  unfolding run resolved
  head = on_result (run os r.exec (plain head_args)) λ found. lift (resolved found)
