-- ===== src/Markdown/Json/Fails.antt =====
-- markdown/json.go: what the JSON codec owes as a codec.
use micawber.Core.Errors.{
  ◌>>=◌, Result, ok, err, is, FailsWith, FailsWith-bind, invalid_value, cannot_encode,
}
use micawber.Core.FrontMatter.{json}
use micawber.Core.Value.{Value, Fields, IsGoMap, is_end}
use micawber.Markdown.Codec.{OnlyInvalid, Codec, IsCodec}
use micawber.Markdown.Codec.Keys.{ordered_keys}
use micawber.Markdown.Json.{
  Library, Read, read, failed, json_invalid, marshalled, value_of, json_lines, json_encode,
  json_indent, json_top_level_keys, decode, encode,
}
use micawber.Markdown.Json.Keys.{ReadsOn, AreKeys, json_invalid-is, json_top_level_keys-returns}
use micawber.Markdown.Scan.{invalid_block}
use micawber.Prelude.{
  none, some, [], ◌∷◌, ◌≡◌, true, refl, ap, if-elim, sym, subst, is_nil, if◌then◌else◌, Option,
  List, ℕ, Bytes,
}

-- What is used of encoding/json's decoder, besides that it reads on: an object decodes to a Go map,
-- and the empty text to nothing.
pub record IsJson {State : Type 0} (lib : Library State) : Type 0 where
  pub decodes_map : (s : State) (fs : Fields) → lib.decode_fields s ≡ read fs → IsGoMap fs
  pub nothing : (fs : Fields) → lib.decode_fields (lib.start []) ≡ read fs → is_end fs ≡ true

module _ {State : Type 0} (lib : Library State) (left : State → ℕ) (on : ReadsOn lib left) where
  marshalled-Fails :
      (v : Value) (indent : Bytes) → FailsWith invalid_value (marshalled lib v indent)
  unfolding marshalled is
  marshalled-Fails v indent = go (lib.marshal v indent)
    where
      go :
          (out : Option Bytes)
          → FailsWith invalid_value
              (elim out [ none ↦ err (invalid_block json cannot_encode) | some out ↦ ok out ])
      go none = refl
      go (some out) = tt

  json_lines-Fails :
      (fs : Fields) (indent : Bytes) (order : List Bytes)
      → FailsWith invalid_value (json_lines lib fs indent order)
  unfolding json_lines
  json_lines-Fails fs indent [] = tt
  json_lines-Fails fs indent (key ∷ order) =
      FailsWith-bind invalid_value (marshalled lib (Value.text key) indent) _
        (marshalled-Fails (Value.text key) indent)
        (λ name.
          FailsWith-bind invalid_value (marshalled lib (value_of lib fs key) indent) _
            (marshalled-Fails (value_of lib fs key) indent)
            (λ value.
              FailsWith-bind invalid_value (json_lines lib fs indent order) _
                (json_lines-Fails fs indent order) (λ rest. tt)))

  json_encode-Fails :
      (fs : Fields) (order : List Bytes) (indent : Bytes)
      → FailsWith invalid_value (json_encode lib fs order indent)
  unfolding json_encode
  json_encode-Fails fs order indent =
      FailsWith-bind invalid_value (json_lines lib fs indent order) _
        (json_lines-Fails fs indent order) (λ body. tt)

  AreKeys-Fails : (out : Result (List Bytes)) → AreKeys out → FailsWith invalid_value out
  AreKeys-Fails (ok keys) h = tt
  AreKeys-Fails (err e) h = h

  authored-returns :
      (prev : Bytes)
      → (keys : Result (List Bytes)) × ((if is_nil prev
            then some (ok [])
            else json_top_level_keys lib prev)
          ≡ some keys)
        × FailsWith invalid_value keys
  authored-returns prev =
      let (keys, found, are_keys) = json_top_level_keys-returns lib left on prev in
      if-elim (λ o. (keys : Result (List Bytes)) × (o ≡ some keys) × FailsWith invalid_value keys)
        (is_nil prev) (ok [], refl, tt) (keys, found, AreKeys-Fails keys are_keys)

  -- encode returns, with a block or an error that matches ErrInvalid.
  pub encode-returns :
      (fs : Fields) (prev : Bytes)
      → (out : Result Bytes) × (encode lib fs prev ≡ some out) × FailsWith invalid_value out
  unfolding encode
  encode-returns fs prev =
      let (authored, found, fails) = authored-returns prev in
      let made : List Bytes → Result Bytes =
        λ keys. json_encode lib fs (ordered_keys fs keys) (json_indent prev) in
      (
        authored >>= made,
        ap
            (λ o. elim o as (λ _. Option (Result Bytes)) [
              | none ↦ none
              | some keys ↦ some (keys >>= made)
            ])
            found,
        FailsWith-bind invalid_value authored made fails
            (λ keys. json_encode-Fails fs (ordered_keys fs keys) (json_indent prev)),
      )

  decode-Fails : (raw : Bytes) → FailsWith invalid_value (decode lib raw)
  unfolding decode
  decode-Fails raw = go (lib.decode_fields (lib.start raw))
    where
      go :
          (d : Read Fields)
          → FailsWith invalid_value
              (elim d [ failed e ↦ err (json_invalid raw e) | read fields ↦ ok fields ])
      go (failed e) = json_invalid-is raw e
      go (read fields) = tt

  decode-eq :
      (raw : Bytes) (fs : Fields)
      → decode lib raw ≡ ok fs
      → lib.decode_fields (lib.start raw) ≡ read fs
  unfolding decode
  decode-eq raw fs h = go (lib.decode_fields (lib.start raw)) h
    where
      go :
          (d : Read Fields)
          → (elim d as (λ _. Result Fields) [
            | failed e ↦ err (json_invalid raw e)
            | read fields ↦ ok fields
          ])
            ≡ ok fs
          → d ≡ read fs
      go (failed e) h = cc h
      go (read fields) h = cc h

  -- The loop over the authored keys always returns.
  abbrev returned : Option (Result Bytes) → Result Bytes
  returned none = err (invalid_block json cannot_encode)
  returned (some out) = out

  abbrev pub json_codec : Codec
  json_codec = record { decode = decode lib; encode = λ fs prev. returned (encode lib fs prev) }

  pub json_codec-OnlyInvalid : OnlyInvalid json_codec
  json_codec-OnlyInvalid = record {
    decoding = decode-Fails;
    encoding = λ fs prev.
        let (out, e, fails) = encode-returns fs prev in
        subst (λ o. FailsWith invalid_value (returned o)) (sym e) fails;
  }

  pub json_codec-IsCodec : IsJson lib → IsCodec json_codec
  json_codec-IsCodec laws = record {
    decodes_map = λ raw fs h. laws.decodes_map (lib.start raw) fs (decode-eq raw fs h);
    decodes_nothing = λ fs h. laws.nothing fs (decode-eq [] fs h);
    decode_fails = decode-Fails;
    encode_fails = json_codec-OnlyInvalid.encoding;
  }
