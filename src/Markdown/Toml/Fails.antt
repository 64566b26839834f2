-- ===== src/Markdown/Toml/Fails.antt =====
-- markdown/toml.go: what the TOML codec owes as a codec.
use micawber.Core.Errors.{
  Result, ok, err, is, FailsWith, FailsWith-bind, invalid_value, cannot_encode,
}
use micawber.Core.FrontMatter.{toml}
use micawber.Core.Value.{Value, Fields, IsGoMap, is_end, lookup}
use micawber.Markdown.Codec.{OnlyInvalid, Codec, IsCodec, normalize_lf}
use micawber.Markdown.Codec.Keys.{toml_key_order}
use micawber.Markdown.Lines.{error_line, positive}
use micawber.Markdown.Scan.{invalid_block}
use micawber.Markdown.Toml.Decode.{DecodeFailure, toml_invalid, decode}
use micawber.Markdown.Toml.Encode.{
  encode_entry, encode_key, toml_encode, encode, is_null, trim_newlines,
}
use micawber.Markdown.Toml.Keys.{top_level_keys}
use micawber.Prelude.{
  none, some, inl, inr, [], ◌∷◌, ◌≡◌, ◌⊎◌, true, refl, if-elim, is_nil, if◌then◌else◌, Option,
  Option-cases, List, Bytes,
}

toml_invalid-is : (failure : DecodeFailure) → is (toml_invalid failure) invalid_value ≡ true
unfolding toml_invalid is
toml_invalid-is failure = elim (Option-cases (positive failure.row)) [
  | inl unknown ↦ elim (Option-cases (error_line failure.message)) [
    | inl unnamed ↦ rw (unknown, unnamed, toml_invalid) refl
    | inr (line, named) ↦ rw (unknown, named, toml_invalid) refl
  ]
  | inr (row, known) ↦ rw (known, toml_invalid) refl
]

-- What is used of the TOML library's decoder: it decodes to a Go map, and an empty text to an empty
-- one.
pub record IsToml (unmarshal : Bytes → DecodeFailure ⊎ Fields) : Type 0 where
  pub decodes_map : (b : Bytes) (fs : Fields) → unmarshal b ≡ inr fs → IsGoMap fs
  pub nothing : (fs : Fields) → unmarshal [] ≡ inr fs → is_end fs ≡ true

module _ (unmarshal : Bytes → DecodeFailure ⊎ Fields) (encoder : Bytes → Value → Option Bytes) where
  encode_entry-Fails :
      (key : Bytes) (v : Value) → FailsWith invalid_value (encode_entry encoder key v)
  unfolding encode_entry is
  encode_entry-Fails key v = if-elim (FailsWith invalid_value) (is_null v) refl (go (encoder key v))
    where
      go :
          (out : Option Bytes)
          → FailsWith invalid_value (elim out [
            | none ↦ err (invalid_block toml cannot_encode)
            | some out ↦ ok (trim_newlines out)
          ])
      go none = refl
      go (some out) = tt

  encode_key-Fails :
      (fs : Fields) (key : Bytes) → FailsWith invalid_value (encode_key encoder fs key)
  unfolding encode_key
  encode_key-Fails fs key = elim (Option-cases (lookup key fs)) [
    | inl missing ↦ rw (missing, encode_key) tt
    | inr (v, there) ↦ rw (there, encode_key) (encode_entry-Fails key v)
  ]

  toml_encode-Fails :
      (fs : Fields) (order : List Bytes) → FailsWith invalid_value (toml_encode encoder fs order)
  unfolding toml_encode
  toml_encode-Fails fs [] = tt
  toml_encode-Fails fs (key ∷ order) =
      FailsWith-bind invalid_value (encode_key encoder fs key) _ (encode_key-Fails fs key) (λ out.
        FailsWith-bind invalid_value (toml_encode encoder fs order) _ (toml_encode-Fails fs order)
          (λ rest. tt))

  encode-Fails : (fs : Fields) (prev : Bytes) → FailsWith invalid_value (encode encoder fs prev)
  unfolding encode is
  encode-Fails fs prev = go (if is_nil prev then some [] else top_level_keys prev)
    where
      go :
          (authored : Option (List Bytes))
          → FailsWith invalid_value (elim authored [
            | none ↦ err (invalid_block toml cannot_encode)
            | some keys ↦ toml_encode encoder fs (toml_key_order fs keys)
          ])
      go none = refl
      go (some keys) = toml_encode-Fails fs (toml_key_order fs keys)

  -- decode of a block, by what the library makes of it.
  decode-eq :
      (raw : Bytes) (fs : Fields)
      → decode unmarshal raw ≡ ok fs
      → unmarshal (normalize_lf raw) ≡ inr fs
  unfolding decode
  decode-eq raw fs h = go (unmarshal (normalize_lf raw)) h
    where
      go :
          (u : DecodeFailure ⊎ Fields)
          → (elim u as (λ _. Result Fields) [
            | inl failure ↦ err (toml_invalid failure)
            | inr fields ↦ ok fields
          ])
            ≡ ok fs
          → u ≡ inr fs
      go (inl failure) h = cc h
      go (inr fields) h = cc h

  decode-Fails : (raw : Bytes) → FailsWith invalid_value (decode unmarshal raw)
  unfolding decode
  decode-Fails raw = go (unmarshal (normalize_lf raw))
    where
      go :
          (u : DecodeFailure ⊎ Fields)
          → FailsWith invalid_value
              (elim u [ inl failure ↦ err (toml_invalid failure) | inr fields ↦ ok fields ])
      go (inl failure) = toml_invalid-is failure
      go (inr fields) = tt

  abbrev pub toml_codec : Codec
  toml_codec = record { decode = decode unmarshal; encode = encode encoder }

  pub toml_codec-OnlyInvalid : OnlyInvalid toml_codec
  toml_codec-OnlyInvalid = record { decoding = decode-Fails; encoding = encode-Fails }

  pub toml_codec-IsCodec : IsToml unmarshal → IsCodec toml_codec
  unfolding normalize_lf
  toml_codec-IsCodec laws = record {
    decodes_map = λ raw fs h. laws.decodes_map (normalize_lf raw) fs (decode-eq raw fs h);
    decodes_nothing = λ fs h. laws.nothing fs (decode-eq [] fs h);
    decode_fails = decode-Fails;
    encode_fails = encode-Fails;
  }
