-- ===== src/Tests/Live.antt =====
-- git/: Put on a repository of three states, where another writer commits during the first attempt.
use micawber.Core.Errors.{ok, err, Error}
use micawber.Git.Apply.{Meanwhile}
use micawber.Git.Exec.{Process, Exit, Ran, result_of}
use micawber.Git.Live.{put_document, delete_document}
use micawber.Git.Live.Branch.{IsGit, update_args, is_zero_id}
use micawber.Git.Live.Keeps.{IsBuilding}
use micawber.Git.Live.Swap.{IsDocumentDelete, delete_document-IsDocumentDelete}
use micawber.Git.Tree.{Scratch}
use micawber.Git.Repository.{head_args}
use micawber.Go.Space.{trim_space}
use micawber.Core.Errors.{git_error}
use micawber.Go.Text.{equal, equal_iff}
use micawber.Prelude.{
  ◌⊎◌, ◌++◌, refl, none, some, [], ◌∷◌, ◌==◌, ◌||◌, ◌&&◌, ◌≡◌, ◌∙◌, ap, subst, sym, codes,
  if◌then◌else◌, is_nil, true, false, Bool, Bool-cases, inl, inr, ℕ, Option, List, Bytes, arith,
}
use micawber.Tests.Markdown.{block_codecs}
use micawber.Tests.Objects.{id_a, id_b}
use micawber.Tests.Reading.{printed, site}
use micawber.Tests.Writing.{new_note, a_change}

-- The branch has no commit, another writer's, or the one that this Put builds.
data Tip : Type 0 where
  no_commit theirs mine : Tip

abbrev tip_of : Tip → Option Bytes
tip_of no_commit = none
tip_of theirs = some id_a
tip_of mine = some id_b

abbrev refused : Option ℕ → Ran
refused code = record { stdout = []; stderr = []; exit = Exit.exited code; ended = none }

abbrev print_tip : Tip → Ran
print_tip no_commit = refused (some 1)
print_tip theirs = printed id_a
print_tip mine = printed id_b

-- Only the commit id_b can be stored.
abbrev moves : Tip → Bytes → Bytes → Bool
unfolding equal
moves no_commit next old = equal next id_b && is_nil old
moves theirs next old = equal next id_b && equal old id_a
moves mine next old = false

abbrev update : Tip → List Bytes → Tip × Ran
unfolding moves
update tip (separator ∷ ref ∷ next ∷ old ∷ []) =
    if moves tip next old then (mine, printed []) else (tip, refused (some 128))
update tip _ = (tip, refused (some 129))

-- What cat-file prints is given.
abbrev answer : Bytes → Tip → Bytes → Ran
unfolding equal
answer stored tip name =
    if equal name (codes "rev-parse")
    then print_tip tip
    else if equal name (codes "cat-file")
    then printed stored
    else printed id_b

abbrev command : Bytes → Tip → List Bytes → Tip × Ran
unfolding update answer
command stored tip [] = (tip, refused (some 129))
command stored tip (name ∷ args) =
    if equal name (codes "update-ref") then update tip args else (tip, answer stored tip name)

abbrev three_tips : Bytes → Process Tip
three_tips stored = record {
  environment = [];
  execute = λ tip bin dir args stdin env. command stored tip args;
}

abbrev temp : Scratch Tip
temp = record { make_dir = λ tip. (tip, ok (codes "tmp")); remove_all = λ dir tip. tip }

abbrev commits_first : Meanwhile Tip
commits_first = record {
  ended_in_queue = none;
  before_read = λ k tip. tip;
  before_publish = λ k tip. if k == 1 then theirs else tip;
  ended = λ k. none;
  ended_in_publish = λ k w. false;
  ended_in_wait = λ k. none;
}

abbrev empty : Bytes
empty = codes "it missing\n"

abbrev one_note : Bytes
one_note = id_a ++ codes " blob 2\nhi\n"

put_again :
    put_document (three_tips empty) temp site block_codecs commits_first new_note a_change no_commit
    ≡ (mine, ok id_b)
unfolding put_document micawber.Core.FrontMatter.validate micawber.Core.FrontMatter.is_known
    micawber.Go.Utf8.runes micawber.Go.Utf8.decode micawber.Core.Change.control_rune
    micawber.Core.Change.validate_author micawber.Core.RelPath.validate_rel_path
    micawber.Go.Utf8.valid_string micawber.Go.Text.has_suffix micawber.Go.Text.split
    micawber.Go.Path.clean micawber.Core.ContentPath.new_content_path
    micawber.Core.RelPath.reject_git_segment micawber.Go.Fold.equal_fold
    micawber.Git.Repository.head micawber.Markdown.Scan.scan
    micawber.Markdown.Scan.is_delimiter_line micawber.Git.Tree.hash_object
    micawber.Git.Tree.write_tree micawber.Git.Tree.commit_tree micawber.Git.Tree.publish
    micawber.Git.Live.read_entry
put_again = refl

printed_tip :
    (id out : Bytes)
    → id ≡ out
    → (id ≡ trim_space id) × (is_zero_id (trim_space id) ≡ false)
    → (some id ≡ some (trim_space out)) × (is_zero_id (trim_space out) ≡ false)
printed_tip id out e (plain, some_id) =
    subst (λ z. (some id ≡ some (trim_space z)) × (is_zero_id (trim_space z) ≡ false)) e
      (ap some plain, some_id)

prints_head :
    (stored : Bytes) (tip : Tip) (out : Bytes)
    → result_of (head_args (three_tips stored) site) (print_tip tip) ≡ ok out
    → (tip_of tip ≡ some (trim_space out)) × (is_zero_id (trim_space out) ≡ false)
unfolding result_of
prints_head stored no_commit out h = cc
prints_head stored theirs out h = printed_tip id_a out (cc h) (refl, refl)
prints_head stored mine out h = printed_tip id_b out (cc h) (refl, refl)

prints_nothing :
    (stored : Bytes) (tip : Tip) (args : List Bytes)
    → result_of (head_args (three_tips stored) site) (print_tip tip)
      ≡ err (git_error args (some 1) [])
    → tip_of tip ≡ none
unfolding result_of
prints_nothing stored no_commit args h = refl
prints_nothing stored theirs args h = cc
prints_nothing stored mine args h = cc

-- A command of another name than update-ref moves nothing.
named_else :
    (stored : Bytes) (tip : Tip) (name other : Bytes) (args : List Bytes)
    → name ≡ other
    → equal other (codes "update-ref") ≡ false
    → tip_of (command stored tip (name ∷ args)).0 ≡ tip_of tip
unfolding command
named_else stored tip name other args e differs =
    rw (ap (λ z. equal z (codes "update-ref")) e ∙ differs, command) refl

builds :
    (stored : Bytes) (args : List Bytes) (tip : Tip)
    → IsBuilding args
    → tip_of (command stored tip args).0 ≡ tip_of tip
unfolding command
builds stored [] tip h = refl
builds stored (name ∷ args) tip (inl (inl e)) =
    named_else stored tip name (codes "ls-tree") args e refl
builds stored (name ∷ args) tip (inl (inr (inl e))) =
    named_else stored tip name (codes "cat-file") args e refl
builds stored (name ∷ args) tip (inl (inr (inr (inl e)))) =
    named_else stored tip name (codes "rev-parse") args e refl
builds stored (name ∷ args) tip (inl (inr (inr (inr e)))) =
    named_else stored tip name (codes "log") args e refl
builds stored (name ∷ args) tip (inr (inl e)) =
    named_else stored tip name (codes "hash-object") args e refl
builds stored (name ∷ args) tip (inr (inr (inl e))) =
    named_else stored tip name (codes "read-tree") args e refl
builds stored (name ∷ args) tip (inr (inr (inr (inl e)))) =
    named_else stored tip name (codes "update-index") args e refl
builds stored (name ∷ args) tip (inr (inr (inr (inr (inl e))))) =
    named_else stored tip name (codes "write-tree") args e refl
builds stored (name ∷ args) tip (inr (inr (inr (inr (inr e))))) =
    named_else stored tip name (codes "commit-tree") args e refl

moved :
    (tip : Tip) (next old : Bytes)
    → moves tip next old ≡ true
    → (is_zero_id old ≡ false → tip_of tip ≡ some old)
      × (old ≡ [] → tip_of tip ≡ none)
      × (next ≡ id_b)
unfolding moves
moved no_commit next [] h = (λ z. cc z, λ e. refl, (equal_iff next id_b).0 (ground (arith, h)))
moved no_commit next (c ∷ old) h = absurd (ground (arith, h))
moved theirs next old h =
    let same : equal old id_a ≡ true = ground (arith, h) in
    let e : old ≡ id_a = (equal_iff old id_a).0 same in
    (λ _. ap some (sym e), λ nil. cc (sym e ∙ nil), (equal_iff next id_b).0 (ground (arith, h)))
moved mine next old h = cc

updates :
    (stored : Bytes) (tip : Tip) (next old out : Bytes)
    → result_of (update_args site next old) (command stored tip (update_args site next old)).1
      ≡ ok out
    → (is_zero_id old ≡ false → tip_of tip ≡ some old)
      × (old ≡ [] → tip_of tip ≡ none)
      × (tip_of (command stored tip (update_args site next old)).0 ≡ some next)
unfolding command update result_of
updates stored tip next old out h = elim (Bool-cases (moves tip next old)) [
  | inl goes ↦
      let (some_at, none_at, stored) = moved tip next old goes in
      (some_at, none_at, rw goes (ap some (sym stored)))
  | inr stays ↦ cc (rw stays at h)
]

refuses :
    (stored : Bytes) (tip : Tip) (next old : Bytes) (e : Error)
    → result_of (update_args site next old) (command stored tip (update_args site next old)).1
      ≡ err e
    → (tip_of (command stored tip (update_args site next old)).0 ≡ tip_of tip)
      ⊎ ((stop : Error) × ((command stored tip (update_args site next old)).1.ended ≡ some stop)
          × (is_zero_id old ≡ false → tip_of tip ≡ some old)
          × (old ≡ [] → tip_of tip ≡ none)
          × (tip_of (command stored tip (update_args site next old)).0 ≡ some next))
unfolding command update result_of
refuses stored tip next old e h = elim (Bool-cases (moves tip next old)) [
  | inl goes ↦ cc (rw goes at h)
  | inr stays ↦ inl (rw stays refl)
]

-- No command of these sees the context end.
never_ended :
    (stored : Bytes) (tip : Tip) (next old : Bytes)
    → (command stored tip (update_args site next old)).1.ended ≡ none
unfolding command update
never_ended stored tip next old = elim (Bool-cases (moves tip next old)) [
  | inl goes ↦ rw goes refl
  | inr stays ↦ rw stays refl
]

told :
    (stored : Bytes) (k : ℕ) (next old : Bytes) (tip : Tip) (stop : Error)
    → (command stored tip (update_args site next old)).1.ended ≡ some stop
    → commits_first.ended_in_publish k (command stored tip (update_args site next old)).0 ≡ true
told stored k next old tip stop ended = cc (ended, never_ended stored tip next old)

three_tips-IsGit : (stored : Bytes) → IsGit (three_tips stored) site tip_of
unfolding command answer
three_tips-IsGit stored = record {
  prints_head = prints_head stored;
  prints_nothing = prints_nothing stored;
  builds = λ i tip. builds stored i.args tip;
  updates = updates stored;
  refuses = refuses stored;
}

-- The commits that the writers make.
abbrev IsKnown : Option Bytes → Type 0
IsKnown none = Unit
IsKnown (some id) = (equal id id_a || equal id id_b) ≡ true

tip-IsKnown : (tip : Tip) → IsKnown (tip_of tip)
unfolding equal
tip-IsKnown no_commit = tt
tip-IsKnown theirs = refl
tip-IsKnown mine = refl

deleted :
    delete_document
      (three_tips one_note)
      temp
      site
      block_codecs
      commits_first
      new_note.path
      id_a
      a_change
      theirs
    ≡ (mine, ok tt)
unfolding delete_document micawber.Core.FrontMatter.validate micawber.Core.FrontMatter.is_known
    micawber.Go.Utf8.runes micawber.Go.Utf8.decode micawber.Core.Change.control_rune
    micawber.Core.Change.validate_author micawber.Core.RelPath.validate_rel_path
    micawber.Go.Utf8.valid_string micawber.Go.Text.has_suffix micawber.Go.Text.split
    micawber.Go.Path.clean micawber.Core.ContentPath.new_content_path
    micawber.Core.RelPath.reject_git_segment micawber.Go.Fold.equal_fold
    micawber.Git.Repository.head micawber.Markdown.Scan.scan
    micawber.Markdown.Scan.is_delimiter_line micawber.Git.Tree.hash_object
    micawber.Git.Tree.write_tree micawber.Git.Tree.commit_tree micawber.Git.Tree.publish
    micawber.Git.Live.read_entry
deleted = refl

delete_document-IsDocumentDelete_example :
    IsDocumentDelete
      (three_tips one_note)
      temp
      site
      tip_of
      (three_tips-IsGit one_note)
      (λ tip. refl)
      (λ dir tip. refl)
      block_codecs
      commits_first
      IsKnown
      (told one_note)
      new_note.path
      id_a
      a_change
      (delete_document
        (three_tips one_note)
        temp
        site
        block_codecs
        commits_first
        new_note.path
        id_a
        a_change
        theirs)
unfolding equal
delete_document-IsDocumentDelete_example =
    delete_document-IsDocumentDelete (three_tips one_note) temp site tip_of
      (three_tips-IsGit one_note) (λ tip. refl) (λ dir tip. refl) block_codecs commits_first IsKnown
      (told one_note) (λ k tip known. known)
      (λ k tip known. tip-IsKnown (commits_first.before_publish k tip)) new_note.path id_a a_change
      theirs refl
