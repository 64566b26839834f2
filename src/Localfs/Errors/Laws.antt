-- ===== src/Localfs/Errors/Laws.antt =====
-- localfs/errors.go: which errors of the operating system match which of core's sentinels.
use micawber.Go.Text.{equal}
use micawber.Prelude.{
  inr, sym, inl, Bool-cases, codes, none, refl, if◌then◌else◌, some, false, true, ◌≡◌, Option, Bool,
  String, Bytes,
}
use micawber.Core.AssetKey.{AssetKey}
use micawber.Core.Errors.{
  name_taken, not_regular, is_dir, not_dir, escapes, no_entry, Sentinel, Error, Errno, Cause,
  path_error, link_error, errno, cause, wrapped, foreign, is, not_found, exists, enoent, enotdir,
  eisdir, eexist, enotempty, other_errno,
}
use micawber.Localfs.Errors.{
  last_frame, reduce, as_errno, has_escape_message, is_escape, of_errno, classify, is_cause,
  read_error, write_error,
}

-- What a chain of errors of the os package ends in: an Errno, or a text.
pub data Leaf : Type 0 where
  number : Errno → Leaf
  text : Bytes → Leaf

abbrev pub leaf_error : Leaf → Error
leaf_error (number n) = errno n
leaf_error (text m) = foreign m

-- A chain of PathError, LinkError and wrapped messages above it.
pub data Over (leaf : Leaf) : Error → Type 0 where
  bare : Over leaf (leaf_error leaf)
  in_path : {e : Error} → Over leaf e → Over leaf (path_error e)
  in_link : {e : Error} → Over leaf e → Over leaf (link_error e)
  in_message : {f : String} {v : Bytes} {e : Error} → Over leaf e → Over leaf (wrapped f v e)

-- There is nothing of that kind under the name, or the name leaves the root.
abbrev pub is_absent : Leaf → Bool
is_absent (number enoent) = true
is_absent (number enotdir) = true
is_absent (number eisdir) = true
is_absent (number eexist) = false
is_absent (number enotempty) = false
is_absent (number (other_errno n)) = false
is_absent (text m) = equal m (codes "path escapes from parent")

-- Something else has the name, or the name of a directory above it.
abbrev pub is_taken : Leaf → Bool
is_taken (number enoent) = false
is_taken (number enotdir) = true
is_taken (number eisdir) = true
is_taken (number eexist) = true
is_taken (number enotempty) = true
is_taken (number (other_errno n)) = false
is_taken (text m) = false

abbrev Below : Leaf → Option Error → Type 0
Below leaf none = Unit
Below leaf (some e) = Over leaf e

last_frame-Below : (leaf : Leaf) (e : Error) → Over leaf e → Below leaf (last_frame e)
unfolding last_frame
last_frame-Below (number n) e Over.bare = tt
last_frame-Below (text m) e Over.bare = tt
last_frame-Below leaf e (Over.in_path {e = d} o) = go (last_frame d) (last_frame-Below leaf d o)
  where
    go : (f : Option Error) → Below leaf f → Below leaf (elim f [ none ↦ some d | some g ↦ some g ])
    go none h = o
    go (some g) h = h
last_frame-Below leaf e (Over.in_link {e = d} o) = go (last_frame d) (last_frame-Below leaf d o)
  where
    go : (f : Option Error) → Below leaf f → Below leaf (elim f [ none ↦ some d | some g ↦ some g ])
    go none h = o
    go (some g) h = h
last_frame-Below leaf e (Over.in_message {e = d} o) = last_frame-Below leaf d o

reduce-Over : (leaf : Leaf) (e : Error) → Over leaf e → Over leaf (reduce e)
unfolding reduce
reduce-Over leaf e o = go (last_frame e) (last_frame-Below leaf e o)
  where
    go : (f : Option Error) → Below leaf f → Over leaf (elim f [ none ↦ e | some g ↦ g ])
    go none h = o
    go (some g) h = h

as_errno-number : (n : Errno) (e : Error) → Over (number n) e → as_errno e ≡ some n
unfolding as_errno
as_errno-number n e Over.bare = refl
as_errno-number n e (Over.in_path {e = d} o) = as_errno-number n d o
as_errno-number n e (Over.in_link {e = d} o) = as_errno-number n d o
as_errno-number n e (Over.in_message {e = d} o) = as_errno-number n d o

-- A chain above a text has no Errno, none of localfs's errors and none of core's, and the text is
-- what isEscape looks at.
text-clauses :
    (m : Bytes) (c : Cause) (s : Sentinel) (e : Error)
    → Over (text m) e
    → (as_errno e ≡ none)
      × (has_escape_message e ≡ equal m (codes "path escapes from parent"))
      × (is_cause e c ≡ false)
      × (is e s ≡ false)
unfolding as_errno has_escape_message is_cause is
text-clauses m c s e Over.bare = (refl, refl, refl, refl)
text-clauses m c s e (Over.in_path {e = d} o) = text-clauses m c s d o
text-clauses m c s e (Over.in_link {e = d} o) = text-clauses m c s d o
text-clauses m c s e (Over.in_message {e = d} o) = text-clauses m c s d o

abbrev pub Matches : Leaf → String → AssetKey → Error → Type 0
Matches leaf op key e =
    (is (read_error op key e) not_found ≡ is_absent leaf)
    × (is (write_error op key e) exists ≡ is_taken leaf)

number-Matches : (n : Errno) (op : String) (key : AssetKey) → Matches (number n) op key (of_errno n)
unfolding read_error write_error is
number-Matches enoent op key = (refl, refl)
number-Matches enotdir op key = (refl, refl)
number-Matches eisdir op key = (refl, refl)
number-Matches eexist op key = (refl, refl)
number-Matches enotempty op key = (refl, refl)
number-Matches (other_errno n) op key = (refl, refl)

-- Any other error matches neither.
other-Matches :
    (m : Bytes) (op : String) (key : AssetKey) (e : Error)
    → Over (text m) e
    → (is (read_error op key e) not_found ≡ false) × (is (write_error op key e) exists ≡ false)
unfolding read_error write_error is
other-Matches m op key e o =
    let none_of = λ (c : Cause). (text-clauses m c not_found e o).2 in
    rw
      (
        none_of no_entry,
        none_of not_dir,
        none_of is_dir,
        none_of not_regular,
        none_of escapes,
        none_of name_taken,
        read_error,
        write_error,
      )
      ((text-clauses m no_entry not_found e o).3, (text-clauses m no_entry exists e o).3)

text-Matches :
    (m : Bytes) (op : String) (key : AssetKey) (e : Error)
    → Over (text m) e
    → Matches (text m) op key (if is_escape e then cause escapes else e)
unfolding read_error write_error is_escape is
text-Matches m op key e o =
    let message = text-clauses m no_entry not_found e o in
    let same : is_escape e ≡ equal m (codes "path escapes from parent") =
      rw (message.0, is_escape) message.1 in
    elim (Bool-cases (is_escape e)) [
      | inl leaves ↦ rw (sym same, leaves) (refl, refl)
      | inr stays ↦ rw (sym same, stays) (other-Matches m op key e o)
    ]

-- Of a chain of PathError, LinkError and wrapped messages, in any order, above an Errno or a
-- text: what readError makes of the classified error matches ErrNotFound exactly when the chain
-- ends in ENOENT, ENOTDIR, EISDIR or the text of an escape; what writeError makes of it matches
-- ErrExists exactly when it ends in ENOTDIR, EISDIR, EEXIST or ENOTEMPTY.
pub classify-Matches :
    (leaf : Leaf) (op : String) (key : AssetKey) (e : Error)
    → Over leaf e
    → Matches leaf op key (classify e)
unfolding classify
classify-Matches (number n) op key e o =
    rw (as_errno-number n (reduce e) (reduce-Over (number n) e o), classify)
      (number-Matches n op key)
classify-Matches (text m) op key e o =
    let root = reduce-Over (text m) e o in
    rw ((text-clauses m no_entry not_found (reduce e) root).0, classify)
      (text-Matches m op key (reduce e) root)
