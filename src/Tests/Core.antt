-- ===== src/Tests/Core.antt =====
-- core/: the theorems at concrete inputs, and the definitions evaluated.
use micawber.Go.Text.{split}
use micawber.Prelude.{◌++◌, List, ◌≢◌, some, false, true, [], refl, ◌↔◌, codes, ◌≡◌, Bytes}
use micawber.Core.Errors.{ok, err, invalidf, content_path, drive_prefix, git_segment}
use micawber.Core.RelPath.{validate_rel_path, reject_git_segment}
use micawber.Core.RelPath.Spec.{NoDrive, IsRelPath, validate_rel_path_iff}
use micawber.Core.ContentPath.{ContentPath, new_content_path, unmarshal_text}
use micawber.Core.ContentPath.Laws.{
  Unmarshals, new_content_path-ok, IsContentPath, path_of, new_content_path_iff,
  unmarshal_text-Unmarshals,
}
use micawber.Core.Collection.{Collection, contains, join, rel, new_collection}
use micawber.Core.Collection.Laws.{contains_iff, join_lands_below, join-rel_iff, segments_of, below}

abbrev page_path : Bytes
page_path = codes "posts/a.md"

validate_rel_path_iff_example :
    (validate_rel_path content_path page_path 4096 ≡ ok tt) ↔ IsRelPath 4096 page_path
validate_rel_path_iff_example = validate_rel_path_iff content_path page_path 4096

new_content_path_iff_example :
    (new_content_path page_path ≡ ok (path_of page_path))
    ↔ (IsContentPath page_path × (path_of page_path ≡ path_of page_path))
new_content_path_iff_example = new_content_path_iff page_path (path_of page_path)

page_accepted : new_content_path page_path ≡ ok (path_of page_path)
unfolding new_content_path validate_rel_path micawber.Go.Utf8.valid_string micawber.Go.Utf8.decode
    micawber.Go.Utf8.runes micawber.Go.Text.has_prefix micawber.Go.Text.has_suffix
    micawber.Go.Text.split micawber.Go.Path.clean reject_git_segment micawber.Go.Fold.equal_fold
page_accepted = refl

drive_refused :
    validate_rel_path content_path (codes "c:/x") 4096
    ≡ err (invalidf content_path (codes "c:/x") drive_prefix)
unfolding validate_rel_path micawber.Go.Utf8.valid_string micawber.Go.Utf8.decode
    micawber.Go.Utf8.runes micawber.Go.Text.has_prefix micawber.Go.Text.has_suffix
    micawber.Go.Text.split
drive_refused = refl

git_refused :
    new_content_path (codes "a/.Git/x")
    ≡ err (invalidf content_path (codes "a/.Git/x") (git_segment (codes ".Git")))
unfolding new_content_path validate_rel_path micawber.Go.Utf8.valid_string micawber.Go.Utf8.decode
    micawber.Go.Utf8.runes micawber.Go.Text.has_prefix micawber.Go.Text.has_suffix
    micawber.Go.Text.split micawber.Go.Path.clean reject_git_segment micawber.Go.Fold.equal_fold
git_refused = refl

-- The receiver that UnmarshalText writes to.
abbrev blank_path : ContentPath
blank_path = path_of []

unmarshal_text-Unmarshals_example :
    Unmarshals blank_path page_path (unmarshal_text blank_path page_path)
unmarshal_text-Unmarshals_example = unmarshal_text-Unmarshals blank_path page_path

page_unmarshals : unmarshal_text blank_path page_path ≡ (path_of page_path, ok tt)
unfolding unmarshal_text new_content_path validate_rel_path micawber.Go.Utf8.valid_string
    micawber.Go.Utf8.decode micawber.Go.Utf8.runes micawber.Go.Text.has_prefix
    micawber.Go.Text.has_suffix split micawber.Go.Path.clean reject_git_segment
    micawber.Go.Fold.equal_fold
page_unmarshals = refl

abbrev posts : Collection
posts = record { p = codes "posts" }

contains_iff_example : (contains posts (path_of page_path) ≡ true) ↔ (
    (page_path ≢ [])
    × ((r : List Bytes) × (r ≢ []) × (split b'/' page_path ≡ segments_of posts.p ++ r)))
contains_iff_example = contains_iff posts (path_of page_path)

not_a_prefix : contains posts (path_of (codes "postscript/a.md")) ≡ false
unfolding contains micawber.Go.Text.has_prefix
not_a_prefix = refl

joined : join posts (codes "a.md") ≡ ok (path_of page_path)
unfolding join validate_rel_path micawber.Go.Utf8.valid_string micawber.Go.Utf8.decode
    micawber.Go.Utf8.runes micawber.Go.Text.has_prefix micawber.Go.Text.has_suffix split
    micawber.Go.Path.clean new_content_path reject_git_segment micawber.Go.Fold.equal_fold
joined = refl

join_lands_below_example :
    (path_of page_path ≡ path_of (below posts.p (codes "a.md")))
    × (contains posts (path_of page_path) ≡ true)
    × (rel posts (path_of page_path) ≡ some (codes "a.md"))
join_lands_below_example = join_lands_below posts (codes "a.md") joined

rel_page : rel posts (path_of page_path) ≡ some (codes "a.md")
unfolding rel micawber.Go.Text.has_prefix micawber.Go.Text.trim_prefix
rel_page = refl

join-rel_iff_example :
    (join posts (codes "a.md") ≡ ok (path_of page_path)) ↔ NoDrive (split b'/' (codes "a.md"))
join-rel_iff_example =
    join-rel_iff posts (path_of page_path) (new_content_path-ok page_path page_accepted).0 rel_page

-- Rel can return a text that Join refuses.
colon_path : rel posts (path_of (codes "posts/a:b.md")) ≡ some (codes "a:b.md")
unfolding rel micawber.Go.Text.has_prefix micawber.Go.Text.trim_prefix
colon_path = refl

colon_refused :
    join posts (codes "a:b.md") ≡ err (invalidf content_path (codes "a:b.md") drive_prefix)
unfolding join validate_rel_path micawber.Go.Utf8.valid_string micawber.Go.Utf8.decode
    micawber.Go.Utf8.runes micawber.Go.Text.has_prefix micawber.Go.Text.has_suffix split
colon_refused = refl

new_posts : new_collection (codes "posts") ≡ ok posts
unfolding new_collection micawber.Go.Text.equal validate_rel_path micawber.Go.Utf8.valid_string
    micawber.Go.Utf8.decode micawber.Go.Utf8.runes micawber.Go.Text.has_prefix
    micawber.Go.Text.has_suffix split micawber.Go.Path.clean reject_git_segment
    micawber.Go.Fold.equal_fold
new_posts = refl
