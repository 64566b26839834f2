-- ===== src/Tests/Git.antt =====
-- git/: the theorems at concrete inputs, and the definitions evaluated.
use micawber.Git.Object.{BatchEntry}
use micawber.Prelude.{ap, refl, some, ◌≡◌, ◌∷◌, true, [], codes, false}
use micawber.Core.Errors.{ok}
use micawber.Core.Program.{lift}
use micawber.Core.ContentPath.{new_content_path}
use micawber.Core.ContentPath.Laws.{path_of, new_content_path-ok}
use micawber.Core.Collection.{Collection}
use micawber.Core.Content.{Content}
use micawber.Git.Plan.{
  Commands, Planned, remove, plan_update, plan_delete, repo_path, content_path_of,
}
use micawber.Git.Plan.Update.{plan_update-unedited}
use micawber.Git.Plan.Guards.{IsStored, IsUpdate, plan_update-guarded}
use micawber.Git.Plan.Paths.{content_path_of-repo_path}
use micawber.Tests.Markdown.{block_codecs, block_codecs-AreCodecs, page, page_document, page_parsed}

abbrev stored_page : BatchEntry
stored_page = record { missing = false; typ = codes "blob"; oid = codes "a1"; contents = page }

-- Every path holds the page, and every blob gets the id "b2".
abbrev one_page : Commands (Unit {0})
one_page = record {
  cat_file = λ parent path. lift (ok stored_page);
  hash_object = λ written. lift (ok (codes "b2"));
}

abbrev unedited : Content
unedited = record {
  path = path_of (codes "a.md");
  front_matter = page_document.content.front_matter;
  body = [];
  revision = codes "a1";
}

abbrev nothing : Planned
nothing = record { edits = []; revision = codes "a1"; wanted = false }

plan_update-unedited_example :
    plan_update block_codecs one_page unedited (codes "posts/a.md") (codes "c0") true tt
    ≡ (tt, ok nothing)
plan_update-unedited_example =
    plan_update-unedited block_codecs one_page unedited (codes "posts/a.md") (codes "c0") tt
      block_codecs-AreCodecs refl refl refl refl page_parsed (tt, tt) refl refl

nothing_planned :
    plan_update block_codecs one_page unedited (codes "posts/a.md") (codes "c0") true tt
    ≡ (tt, ok nothing)
nothing_planned =
    plan_update-unedited block_codecs one_page unedited (codes "posts/a.md") (codes "c0") tt
      block_codecs-AreCodecs refl refl refl refl page_parsed (tt, tt) refl refl

plan_update-guarded_example :
    (entry : BatchEntry) × IsStored one_page (codes "c0") (codes "posts/a.md") true tt entry
    × (entry.oid ≡ codes "a1")
    × IsUpdate (codes "posts/a.md") (codes "a1") nothing
plan_update-guarded_example =
    plan_update-guarded block_codecs one_page unedited (codes "posts/a.md") (codes "c0") true tt
      (ap (λ out. out.1) nothing_planned)

abbrev removal : Planned
removal = record { edits = remove (codes "posts/a.md") ∷ []; revision = []; wanted = true }

removed :
    plan_delete block_codecs one_page
      (path_of (codes "a.md"))
      (codes "a1")
      (codes "posts/a.md")
      (codes "c0")
      true
      tt
    ≡ (tt, ok removal)
unfolding plan_delete
removed = refl

abbrev posts : Collection
posts = record { p = codes "posts" }

note_accepted : new_content_path (codes "a.md") ≡ ok (path_of (codes "a.md"))
unfolding new_content_path micawber.Core.RelPath.validate_rel_path micawber.Go.Utf8.valid_string
    micawber.Go.Utf8.decode micawber.Go.Utf8.runes micawber.Go.Text.has_prefix
    micawber.Go.Text.has_suffix micawber.Go.Text.split micawber.Go.Path.clean
    micawber.Core.RelPath.reject_git_segment micawber.Go.Fold.equal_fold
note_accepted = refl

note_in_repository : repo_path posts (path_of (codes "a.md")) ≡ ok (codes "posts/a.md")
unfolding repo_path micawber.Core.RelPath.validate_rel_path micawber.Go.Utf8.valid_string
    micawber.Go.Utf8.decode micawber.Go.Utf8.runes micawber.Go.Text.has_prefix
    micawber.Go.Text.has_suffix micawber.Go.Text.split micawber.Go.Path.clean new_content_path
    micawber.Core.RelPath.reject_git_segment micawber.Go.Fold.equal_fold
note_in_repository = refl

content_path_of-repo_path_example :
    content_path_of posts (codes "posts/a.md") ≡ some (path_of (codes "a.md"))
content_path_of-repo_path_example =
    content_path_of-repo_path posts (path_of (codes "a.md"))
      (new_content_path-ok (codes "a.md") note_accepted).0 note_in_repository
