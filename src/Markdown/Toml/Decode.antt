-- ===== src/Markdown/Toml/Decode.antt =====
-- markdown/toml.go: decode over the decoder of a TOML library, and its errors.
use micawber.Core.Errors.{Error, Result, ok, err, not_well_formed, not_well_formed_at}
use micawber.Core.FrontMatter.{toml}
use micawber.Core.Value.{Fields}
use micawber.Go.Number.{ℤ}
use micawber.Markdown.Codec.{normalize_lf}
use micawber.Markdown.Lines.{error_line, positive}
use micawber.Markdown.Scan.{invalid_block}
use micawber.Prelude.{none, some, inl, inr, ◌⊎◌, Option, Bytes}

-- What tomlInvalid reads of an error: the row of a DecodeError, if it is one, and the message.
pub record DecodeFailure : Type 0 where
  pub row : Option ℤ
  pub message : Bytes

-- tomlInvalid.
unfoldable pub toml_invalid : DecodeFailure → Error
unfolding error_line
toml_invalid failure = elim (positive failure.row) [
  | some row ↦ invalid_block toml (not_well_formed_at row)
  | none ↦ elim (error_line failure.message) [
    | some line ↦ invalid_block toml (not_well_formed_at line)
    | none ↦ invalid_block toml not_well_formed
  ]
]

-- tomlCodec.decode; the nil map and the empty one are not told apart.
unfoldable pub decode : (Bytes → DecodeFailure ⊎ Fields) → Bytes → Result Fields
unfolding toml_invalid normalize_lf
decode unmarshal raw = elim (unmarshal (normalize_lf raw)) [
  | inl failure ↦ err (toml_invalid failure)
  | inr fields ↦ ok fields
]
