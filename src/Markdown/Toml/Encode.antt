-- ===== src/Markdown/Toml/Encode.antt =====
-- markdown/toml.go: tomlEncode and tomlCodec.encode over an encoder of one entry.
pub mod Complete
use micawber.Prelude.{
  ◌++◌, is_nil, [], some, ◌==◌, none, List, false, if◌then◌else◌, Option, true, ◌∷◌, Bool, Bytes,
}
use micawber.Core.Errors.{◌>>=◌, Result, ok, err, front_matter, invalidf, nil_value, cannot_encode}
use micawber.Core.FrontMatter.{toml}
use micawber.Core.Value.{Value, Fields, lookup}
use micawber.Markdown.Scan.{invalid_block}
use micawber.Markdown.Codec.Keys.{toml_key_order}
use micawber.Markdown.Toml.Keys.{top_level_keys}

-- bytes.TrimLeft(b, "\n").
unfoldable pub trim_newlines : Bytes → Bytes
trim_newlines [] = []
trim_newlines (c ∷ s) = let rest = trim_newlines s in if c == b'\n' then rest else c ∷ s

abbrev pub is_null : Value → Bool
is_null Value.null = true
is_null _ = false

-- The library's encoder on a map of one entry; `none` where it returns an error.
module _ (encoder : Bytes → Value → Option Bytes) where
  -- The entry of one key.
  unfoldable pub encode_entry : Bytes → Value → Result Bytes
  unfolding trim_newlines
  encode_entry key v =
      if is_null v then err (invalid_block toml nil_value) else elim (encoder key v) [
        | none ↦ err (invalid_block toml cannot_encode)
        | some out ↦ ok (trim_newlines out)
      ]

  -- What a key adds: nothing where the map does not have it.
  unfoldable pub encode_key : Fields → Bytes → Result Bytes
  unfolding encode_entry lookup
  encode_key fields key = elim (lookup key fields) [ none ↦ ok [] | some v ↦ encode_entry key v ]

  -- tomlEncode.
  unfoldable pub toml_encode : Fields → List Bytes → Result Bytes
  unfolding encode_key
  toml_encode fields [] = ok []
  toml_encode fields (key ∷ order) = do
    out ← encode_key fields key
    rest ← toml_encode fields order
    ok (out ++ rest)

  -- tomlCodec.encode. The scanner of the authored keys always returns.
  unfoldable pub encode : Fields → Bytes → Result Bytes
  unfolding toml_encode toml_key_order top_level_keys
  encode fields prev =
      let authored = if is_nil prev then some [] else top_level_keys prev in
      elim authored [
        | none ↦ err (invalid_block toml cannot_encode)
        | some keys ↦ toml_encode fields (toml_key_order fields keys)
      ]
