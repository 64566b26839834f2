-- ===== src/Tests/Objects.antt =====
-- git/object.go, git/history.go: what git prints, at concrete inputs.
use micawber.Git.Plan.{remove, place}
use micawber.Git.Tree.{index_info}
use micawber.Git.Tree.Info.{index_info-staged, staged, read_info}
use micawber.Go.Number.{negsuc}
use micawber.Prelude.{
  ◌⊎◌, none, ◌+◌, refl, arith, [], some, map, ◌∷◌, true, ℕ, ◌++◌, List, Bytes, ◌≡◌, codes,
}
use micawber.Core.Errors.{invalid_value, is, Error, Result, ok, err}
use micawber.Git.Exec.{Process, Runner, Invocation, Exit, run}
use micawber.Git.Exec.Isolated.{IsIsolated, run-IsIsolated}
use micawber.Git.History.{parse_log}
use micawber.Git.History.Framing.{Logged, print_log, parse_log-print}
use micawber.Git.Object.{
  zero_of, out_of_range, TreeRecord, ObjectId, parse_batch, parse_ls_tree, valid,
}
use micawber.Git.Object.Framing.{Reply, print_replies, entry_of, parse_batch-print}
use micawber.Git.Object.Tree.{print_records, parse_ls_tree-print}
use micawber.Go.Number.{negsuc, atoi, itoa}
use micawber.Go.Space.{fields, trim_space}

-- Two ids, as git prints them.
abbrev pub id_a : ObjectId
id_a = codes "aaaaaaaaaaaaaaaaaaaaaaaaaaaaaaaaaaaaaaaa"

abbrev pub id_b : ObjectId
id_b = codes "bbbbbbbbbbbbbbbbbbbbbbbbbbbbbbbbbbbbbbbb"

pub id_a-valid : valid id_a ≡ true
unfolding valid micawber.Go.Utf8.runes micawber.Go.Utf8.decode
id_a-valid = refl

abbrev hello : Bytes
hello = codes "hi" ++ (0x0A ∷ [])

-- A blob that ends in a line feed, and a path that is not there.
abbrev replies : List Reply
replies = Reply.found id_a (codes "blob") hello ∷ Reply.absent (codes "main:a.md") ∷ []

parse_batch-print_example :
    parse_batch (print_replies replies (codes "more")) 2 ≡ ok (map entry_of replies)
parse_batch-print_example =
    parse_batch-print replies (codes "more") ((id_a-valid, (refl, refl), omega arith), (refl, tt))

-- A size of the largest int: the sum in the test of the length wraps around, and the slice panics.
largest_size :
    parse_batch (id_a ++ (codes " blob 9223372036854775807" ++ (0x0A ∷ []))) 1 ≡ err out_of_range
unfolding parse_batch micawber.Go.Utf8.runes
largest_size = refl

abbrev records : List TreeRecord
records =
    record { mode = codes "100644"; typ = codes "blob"; oid = id_a; path = codes "posts/a b.md" }
    ∷ record { mode = codes "160000"; typ = codes "commit"; oid = id_b; path = codes "module" }
    ∷ []

parse_ls_tree-print_example : parse_ls_tree (print_records records) ≡ ok records
unfolding micawber.Go.Utf8.runes micawber.Go.Utf8.decode
parse_ls_tree-print_example = parse_ls_tree-print records (
  ((refl, refl), (refl, refl), id_a-valid, refl),
  (((refl, refl), (refl, refl), unfold valid in refl, refl), tt),
)

-- time.Parse, by which every text is a time.
abbrev pub any_time : Bytes → Result Bytes
any_time stamp = ok stamp

abbrev one_commit : List Logged
one_commit =
    (
      codes "2026-01-02T03:04:05Z",
      record {
        commit = id_b;
        author = record { name = codes "A"; email = codes "a@b" };
        when = codes "2026-01-02T03:04:05Z";
        message = codes "one" ++ (0x0A ∷ []);
      },
    )
    ∷ []

parse_log-print_example : parse_log any_time (print_log one_commit) ≡ ok (map (λ c. c.1) one_commit)
unfolding micawber.Go.Utf8.runes micawber.Go.Utf8.decode
parse_log-print_example = parse_log-print any_time one_commit (
  record {
    id = unfold valid in refl;
    name = refl;
    email = refl;
    stamp = refl;
    message = refl;
    time = refl;
  },
  tt,
)

-- A git that prints its number of runs.
abbrev counter : Process ℕ
counter = record {
  environment = codes "GIT_DIR=/elsewhere" ∷ codes "HOME=/root" ∷ [];
  execute = λ w bin dir args stdin env.
      (w + 1, record { stdout = codes "ok"; stderr = []; exit = Exit.success; ended = none });
}

abbrev at_dir : Runner
at_dir = record { bin = codes "git"; dir = codes "site" }

abbrev asked : Invocation
asked = record {
  args = codes "ls-tree" ∷ codes "main" ∷ codes "--" ∷ codes "posts" ∷ [];
  stdin = none;
  env = [];
}

run-IsIsolated_example :
    ((e : Error) × (run counter at_dir asked 0 ≡ (0, err e)) × (is e invalid_value ≡ true))
    ⊎ IsIsolated counter at_dir asked 0 (run counter at_dir asked 0)
run-IsIsolated_example = run-IsIsolated counter at_dir asked 0

-- The operand is refused, and git is not run.
dash_refused :
    (run counter at_dir
      (record { args = codes "log" ∷ codes "--" ∷ codes "-x" ∷ []; stdin = none; env = [] })
      0).0
    ≡ 0
unfolding run
dash_refused = refl

spaced :
    (fields (codes "a  b ") ≡ codes "a" ∷ codes "b" ∷ [])
    × (trim_space (codes " a b ") ≡ codes "a b")
unfolding fields trim_space
spaced = (refl, refl)

numbers : (atoi (codes "-12") ≡ some (negsuc 11)) × (itoa 120 ≡ codes "120")
unfolding atoi itoa
numbers = (refl, refl)

-- A file put and one removed, as update-index reads the two lines.
index_info-staged_example :
    read_info (index_info id_a (place (codes "a.md") id_a ∷ remove (codes "b.md") ∷ []))
    ≡ some (map (staged id_a) (place (codes "a.md") id_a ∷ remove (codes "b.md") ∷ []))
unfolding zero_of
index_info-staged_example =
    index_info-staged id_a (place (codes "a.md") id_a ∷ remove (codes "b.md") ∷ [])
      ((refl, refl, refl), ((refl, refl, refl), tt))
