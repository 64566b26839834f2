-- ===== src/Tests/Toml.antt =====
-- markdown/toml.go: the scanner of the authored keys at concrete blocks.
use micawber.Markdown.Scan.{invalid_block}
use micawber.Go.Text.{equal}
use micawber.Core.Errors.{not_well_formed_at, nil_value, err, ok}
use micawber.Prelude.{none, ◌++◌, Option, refl, [], ◌∷◌, some, codes, ◌≡◌, List, Bytes}
use micawber.Core.FrontMatter.{toml}
use micawber.Go.Number.{pos}
use micawber.Core.Value.{Value, Fields, IsGoMap, lookup}
use micawber.Markdown.Toml.Encode.{encode}
use micawber.Markdown.Toml.Encode.Complete.{IsWrittenIn, encode_complete}
use micawber.Markdown.Toml.Decode.{toml_invalid}
use micawber.Markdown.Toml.Keys.{top_level_keys}
use micawber.Markdown.Toml.Returns.{AreDifferent, top_level_keys-returns}

-- A dotted key, an array over two lines that holds a "[", a table, and a key of the table.
abbrev block : Bytes
block = codes "a.b = [\n \"[\",\n]\n[t]\nx = 1\n"

top_level_keys-returns_example :
    (order : List Bytes) × (top_level_keys block ≡ some order) × AreDifferent order
top_level_keys-returns_example = top_level_keys-returns block

block_keys : top_level_keys block ≡ some (codes "a" ∷ codes "t" ∷ [])
unfolding top_level_keys
block_keys = refl

-- A quoted key with an escape, a literal string that ends in a backslash, a comment.
quoted_keys :
    top_level_keys (codes "\"\\u0041\" = 'C:\\' # c\n'k' = \"\"\"\n[no]\n\"\"\"\n")
    ≡ some (codes "A" ∷ codes "k" ∷ [])
unfolding top_level_keys
quoted_keys = refl

-- An encoder of one entry that writes a text or nothing.
abbrev pub write_text : Bytes → Value → Option Bytes
write_text k (Value.text s) = some (k ++ (codes " = " ++ s))
write_text k v = none

abbrev title_only : Fields
title_only = Fields.field (codes "title") (Value.text (codes "'x'")) Fields.end

title_only-IsGoMap : IsGoMap title_only
title_only-IsGoMap = (refl, tt, tt)

title_encoded : encode write_text title_only [] ≡ ok (codes "title = 'x'")
unfolding encode
title_encoded = refl

title_found : lookup (codes "title") title_only ≡ some (Value.text (codes "'x'"))
unfolding lookup equal
title_found = refl

encode_complete_example :
    IsWrittenIn write_text (codes "title = 'x'") (codes "title") (Value.text (codes "'x'"))
encode_complete_example =
    encode_complete write_text title_only [] title_only-IsGoMap title_encoded (codes "title")
      (Value.text (codes "'x'")) title_found

-- A field that is nil is refused, not dropped.
nil_refused :
    encode write_text (Fields.field (codes "a") Value.null Fields.end) []
    ≡ err (invalid_block toml nil_value)
unfolding encode
nil_refused = refl

-- The row of a DecodeError comes before the line that its message names.
row_first :
    toml_invalid (record { row = some (pos 3); message = codes "line 7" })
    ≡ invalid_block toml (not_well_formed_at 3)
unfolding toml_invalid
row_first = refl

line_named :
    toml_invalid (record { row = some (pos 0); message = codes "at line 7:" })
    ≡ invalid_block toml (not_well_formed_at 7)
unfolding toml_invalid
line_named = refl
