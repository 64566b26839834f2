-- ===== src/Tests/Values.antt =====
-- core/: digests, changes and front matter at concrete inputs.
use micawber.Core.Clone.Unshared.{clone-IsUnshared, IsUnshared}
use micawber.Core.Clone.{write_body, edit_all, clone, seen_content, ContentRef, Memory}
use micawber.Go.Fold.{to_lower}
use micawber.Go.Text.{equal}
use micawber.Prelude.{arith, [], some, ◌∷◌, refl, ◌↔◌, none, ◌≡◌, codes, Bytes}
use micawber.Core.Errors.{ok, err, invalidf, author, no_at}
use micawber.Core.Digest as Digest
use micawber.Core.Digest.{Digest, new_digest, algorithm, hex}
use micawber.Core.Change as Change
use micawber.Core.Change.{Author, Change, validate_author}
use micawber.Core.Change.Laws.{IsChange, validate_change-ok_iff}
use micawber.Core.Value.{Value, Fields, IsGoMap}
use micawber.Core.FrontMatter as FrontMatter
use micawber.Core.FrontMatter.{FrontMatter, yaml}
use micawber.Core.FrontMatter.Laws.{IsFrontMatter, validate-ok_iff}

-- strings.ToLower on text that is not ASCII, for the examples: the identity.
abbrev same_case : Bytes → Bytes
same_case s = s

new_sha : new_digest same_case (codes "sha256") (codes "0AbC") ≡ ok (codes "sha256:0abc")
unfolding new_digest Digest.validate_hex to_lower micawber.Go.Utf8.runes micawber.Go.Utf8.decode
new_sha = refl

sha_accepted : Digest.validate (codes "sha256:0abc") ≡ ok tt
unfolding Digest.validate micawber.Go.Text.cut Digest.validate_hex micawber.Go.Utf8.runes
    micawber.Go.Utf8.decode
sha_accepted = refl

abbrev ada : Author
ada = record { name = codes "Ada"; email = codes "ada@example.org" }

abbrev edit : Change
edit = record { message = codes "Fix\n"; author = ada; time = none }

validate_change-ok_iff_example : (Change.validate edit ≡ ok tt) ↔ IsChange edit
validate_change-ok_iff_example = validate_change-ok_iff edit

edit_accepted : Change.validate edit ≡ ok tt
unfolding Change.validate micawber.Go.Utf8.runes micawber.Go.Utf8.decode Change.control_rune
    validate_author
edit_accepted = refl

no_at_refused :
    validate_author (record { name = codes "Ada"; email = codes "ada" })
    ≡ err (invalidf author (codes "ada") no_at)
unfolding validate_author micawber.Go.Utf8.runes micawber.Go.Utf8.decode Change.control_rune
no_at_refused = refl

-- A NaN and a nested map.
abbrev some_fields : Fields
some_fields = Fields.field (codes "a") (Value.float 0x7FF8000000000001) (
    Fields.field (codes "b") (Value.object (Fields.field (codes "a") Value.null Fields.end))
      Fields.end)

some_fields-IsGoMap : IsGoMap some_fields
unfolding equal
some_fields-IsGoMap = (refl, tt, (refl, (refl, tt, tt), tt))

abbrev untitled : FrontMatter
untitled = record { format = yaml; raw = codes "a: 1\n"; fields = some_fields }

validate-ok_iff_example : (FrontMatter.validate untitled ≡ ok tt) ↔ IsFrontMatter untitled
validate-ok_iff_example = validate-ok_iff untitled

-- A body and raw bytes in memory, and one map.
abbrev one_document : Memory
one_document = record {
  arrays = codes "body" ∷ codes "raw" ∷ [];
  maps = ((codes "tags", 0) ∷ []) ∷ [];
  values = Value.text (codes "go") ∷ [];
}

abbrev held : ContentRef
held = record {
  path = record { p = codes "a.md" };
  front_matter = record { format = yaml; raw = some 1; fields = some 0 };
  body = some 0;
  revision = codes "1";
}

clone-IsUnshared_example :
    IsUnshared one_document held (clone held one_document).0 (clone held one_document).1
clone-IsUnshared_example =
    clone-IsUnshared held one_document
      (record { body = omega arith; raw = omega arith; fields = omega arith })

-- Writing to the clone's body leaves the original's.
edited :
    seen_content
      (edit_all
        (clone held one_document).1
        (write_body (codes "new") ∷ [])
        (clone held one_document).0)
      held
    ≡ seen_content one_document held
unfolding seen_content edit_all clone
edited = refl
