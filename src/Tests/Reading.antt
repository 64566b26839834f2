-- ===== src/Tests/Reading.antt =====
-- git/repository.go, git/history.go: the reading operations, at concrete inputs.
use micawber.Go.Number.{pos}
use micawber.Core.Value.{Fields}
use micawber.Core.FrontMatter.{no_format}
use micawber.Go.Text.{equal}
use micawber.Prelude.{if◌then◌else◌, refl, ◌+◌, ◌∷◌, ◌++◌, none, [], List, ap, ◌≡◌, codes, ℕ, Bytes}
use micawber.Core.Content.{Content, ContentEntry}
use micawber.Core.ContentPath.{ContentPath}
use micawber.Core.ContentPath.Laws.{path_of}
use micawber.Core.Errors.{ok}
use micawber.Git.Exec.{Process, Exit, Ran}
use micawber.Git.History.{get_revision, history, RevisionInfo}
use micawber.Git.History.Guards.{IsFromHistory, get_revision-IsFromHistory}
use micawber.Git.Read.{get, list_entries, listing}
use micawber.Git.Read.Keeps.{reads_keep}
use micawber.Git.Read.Listing.{IsListing, listing-IsListing}
use micawber.Git.Object.{TreeRecord, parse_ls_tree}
use micawber.Git.Repository.{Repository}
use micawber.Tests.Markdown.{block_codecs}
use micawber.Tests.Objects.{id_a, id_b, any_time}

abbrev pub printed : Bytes → Ran
printed out = record { stdout = out; stderr = []; exit = Exit.success; ended = none }

-- One commit, which left the blob id_a; cat-file answers with that blob.
abbrev log_text : Bytes
log_text =
    id_b
    ++ (0
        ∷ (codes "A" ++ (0 ∷ (codes "a@b" ++ (0 ∷ (codes "t" ++ (0 ∷ (codes "m" ++ (0 ∷ [])))))))))

abbrev blob_text : Bytes
blob_text = id_a ++ (codes " blob 2" ++ (0x0A ∷ (codes "hi" ++ (0x0A ∷ []))))

abbrev tree_text : Bytes
tree_text =
    codes "100644 blob "
    ++ (id_a
        ++ (0x09
            ∷ (codes "b.md"
                ++ (0 ∷ (codes "120000 blob " ++ (id_b ++ (0x09 ∷ (codes "a.md" ++ (0 ∷ [])))))))))

canned : List Bytes → Bytes
unfolding equal
canned [] = []
canned (name ∷ args) =
    if equal name (codes "log")
    then log_text
    else if equal name (codes "cat-file")
    then blob_text
    else tree_text

-- The world is the number of commands run.
abbrev archive : Process ℕ
archive = record {
  environment = [];
  execute = λ w bin dir args stdin env. (w + 1, printed (canned args));
}

-- The same, with a world that no command changes.
abbrev still : Process ℕ
still = record {
  environment = [];
  execute = λ w bin dir args stdin env. (w, printed (canned args));
}

abbrev pub site : Repository
site = record {
  exec = record { bin = codes "git"; dir = codes "site" };
  ref = codes "refs/heads/main";
  root = record { p = [] };
}

abbrev note : ContentPath
note = path_of (codes "b.md")

abbrev stored : Content
stored = record {
  path = note;
  front_matter = record { format = no_format; fields = Fields.end; raw = [] };
  body = codes "hi";
  revision = id_a;
}

got : get_revision archive any_time site block_codecs note id_a 0 ≡ (3, ok stored)
unfolding get_revision canned micawber.Core.RelPath.validate_rel_path micawber.Go.Utf8.valid_string
    micawber.Go.Utf8.runes micawber.Go.Path.clean micawber.Core.ContentPath.new_content_path
    micawber.Core.RelPath.reject_git_segment micawber.Go.Fold.equal_fold micawber.Markdown.Scan.scan
    micawber.Markdown.Scan.is_delimiter_line
got = refl

get_revision-IsFromHistory_example :
    IsFromHistory archive any_time site block_codecs note id_a 0 stored
get_revision-IsFromHistory_example =
    get_revision-IsFromHistory archive any_time site block_codecs note id_a 0 (ap (λ o. o.1) got)

abbrev the_history : List RevisionInfo
the_history =
    record {
      revision = id_a;
      author = record { name = codes "A"; email = codes "a@b" };
      time = codes "t";
      message = codes "m";
    }
    ∷ []

known : history archive any_time site note (pos 0) 0 ≡ (2, ok the_history)
unfolding history canned micawber.Core.RelPath.validate_rel_path micawber.Go.Utf8.valid_string
    micawber.Go.Utf8.runes micawber.Go.Path.clean micawber.Core.ContentPath.new_content_path
    micawber.Core.RelPath.reject_git_segment micawber.Go.Fold.equal_fold
known = refl

reads_keep_example :
    ((list_entries still site (record { p = [] }) 7).0 ≡ 7)
    × ((get still site block_codecs note 7).0 ≡ 7)
    × ((history still any_time site note (pos 0) 7).0 ≡ 7)
    × ((get_revision still any_time site block_codecs note id_a 7).0 ≡ 7)
reads_keep_example =
    reads_keep (λ w. w ≡ 7) still site (λ i w reading safe h. h) any_time block_codecs
      (record { p = [] }) note (pos 0) id_a 7 refl

abbrev the_entries : List ContentEntry
the_entries = record { path = note; revision = id_a } ∷ []

listed : listing (record { p = [] }) (record { p = [] }) tree_text ≡ ok the_entries
unfolding listing micawber.Go.Utf8.runes micawber.Core.RelPath.validate_rel_path
    micawber.Go.Utf8.valid_string micawber.Go.Text.has_prefix micawber.Go.Text.has_suffix
    micawber.Go.Path.clean micawber.Core.RelPath.reject_git_segment micawber.Go.Fold.equal_fold
    micawber.Go.Path.ext
listed = refl

listing-IsListing_example :
    (recs : List TreeRecord) × (parse_ls_tree tree_text ≡ ok recs)
    × IsListing (record { p = [] }) recs the_entries
listing-IsListing_example =
    listing-IsListing (record { p = [] }) (record { p = [] }) tree_text listed
