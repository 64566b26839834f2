-- ===== src/Tests/Apply.antt =====
-- git/repository.go: apply where another writer moves the branch once.
use micawber.Git.Object.{ObjectId}
use micawber.Prelude.{
  arith, inr, inl, refl, false, Bool-cases, [], none, if-elim, ◌≡◌, ◌∷◌, ◌==◌, ◌++◌, codes, ℕ,
  is_nil, Bool, if◌then◌else◌, true,
}
use micawber.Go.Text.{equal, equal_iff}
use micawber.Core.Errors.{ok, err, Error}
use micawber.Git.Plan.{Planned, place}
use micawber.Core.Program.{Program, lift}
use micawber.Git.Apply.{Attempt, Backend, Meanwhile, apply, prepare}
use micawber.Git.Apply.Progress.{IsAlive, apply-returns}
use micawber.Core.Content.{Revision}

-- The world is the commit that the branch points at; publishing compares and swaps it.
unfoldable pub swap : ObjectId → ObjectId → Bool → Program ObjectId (Unit {0})
unfolding equal
swap old next born w =
    if equal w old then (next, ok tt) else (w, err (Error.foreign (codes "the branch moved")))

abbrev pub branch : Backend ObjectId
branch = record {
  head = λ w. (w, ok (w, true));
  write_tree = λ parent born edits. lift (ok (codes "t"));
  commit_tree = λ tree parent born. lift (ok (codes "mine on " ++ parent));
  publish = swap;
}

-- During the first attempt another writer commits "theirs".
abbrev pub one_race : Meanwhile ObjectId
one_race = record {
  ended_in_queue = none;
  before_read = λ k w. w;
  before_publish = λ k w. if k == 1 then codes "theirs" else w;
  ended = λ k. none;
  ended_in_publish = λ k w. false;
  ended_in_wait = λ k. none;
}

abbrev place_note : ObjectId → Bool → Program ObjectId Planned
place_note parent born = lift (
    ok (record {
      edits = place (codes "a.md") (codes "b2") ∷ [];
      revision = codes "b2";
      wanted = true;
    }))

-- The branch is never empty.
abbrev pub Exists : ObjectId → Type 0
Exists w = is_nil w ≡ false

pub race-Exists : (k : ℕ) (w : ObjectId) → Exists w → Exists (one_race.before_publish k w)
race-Exists k w h = if-elim Exists (k == 1) refl h

pub swap-refused :
    (k : ℕ) (w last old next : ObjectId) (born : Bool) (e : Error)
    → one_race.ended_in_publish k last ≡ false
    → Exists w
    → swap old next born w ≡ (last, err e)
    → Exists last
unfolding swap
swap-refused k w last old next born e goes_on exists h = elim (Bool-cases (equal w old)) [
  | inl same ↦ cc (rw (same, swap) at h)
  | inr other ↦ cc (exists, rw (other, swap) at h)
]

-- The second attempt builds on the other writer's commit.
rebuilt : apply branch place_note one_race (codes "c0") ≡ (codes "mine on theirs", ok (codes "b2"))
unfolding apply swap
rebuilt = refl

one_race-IsAlive : IsAlive one_race
one_race-IsAlive = record {
  in_queue = refl;
  at_start = λ k. refl;
  in_publish = λ k w. refl;
  in_wait = λ k. refl;
}

-- The branch is at the parent.
abbrev IsTip : ObjectId → ObjectId → Bool → Type 0
IsTip w parent born = w ≡ parent

note_prepared :
    (w : ObjectId)
    → (built : ObjectId) × (a : Attempt) × (prepare branch place_note w ≡ (built, ok a))
      × IsTip built a.parent a.born
unfolding prepare
note_prepared w = (w, _, refl, refl)

swap-accepts :
    (w old next : ObjectId) (born : Bool) → IsTip w old born → (swap old next born w).1 ≡ ok tt
unfolding swap
swap-accepts w old next born at = rw ((equal_iff w old).1 at) refl

apply-returns_example :
    (rev : Revision) × ((apply branch place_note one_race (codes "c0")).1 ≡ ok rev)
apply-returns_example =
    apply-returns branch place_note one_race one_race-IsAlive IsTip note_prepared swap-accepts 1
      (codes "c0") (omega arith) (λ w parent born at. at)
