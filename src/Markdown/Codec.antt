-- ===== src/Markdown/Codec.antt =====
-- markdown/codec.go: the codec interface, and what the three codecs share.
pub mod Keys
use micawber.Go.Text.{has_prefix}
use micawber.Prelude.{
  true, [], ◌&&◌, ◌==◌, if◌then◌else◌, subst, ◌<◌, none, ◌∷◌, some, ℕ, ◌≡◌, Option, Bytes,
}
use micawber.Core.FrontMatter.{Format, no_format, yaml, toml, json, other_format}
use micawber.Core.Value.{is_end, Fields, keys, has_key, IsGoMap}
use micawber.Core.Errors.{Result, ok, FailsWith, invalid_value}

-- The interface `codec`: decode and encode, the latter with the authored block.
pub record Codec : Type 0 where
  pub decode : Bytes → Result Fields
  pub encode : Fields → Bytes → Result Bytes

-- The three implementations, and the JSON decoder's end of a leading object, which scan asks for.
pub record Codecs : Type 0 where
  pub yaml_codec : Codec
  pub toml_codec : Codec
  pub json_codec : Codec
  pub json_object_end : Bytes → Option ℕ

-- codecFor.
unfoldable pub codec_for : Codecs → Format → Option Codec
codec_for cs yaml = some cs.yaml_codec
codec_for cs toml = some cs.toml_codec
codec_for cs json = some cs.json_codec
codec_for cs _ = none

-- What a codec owes: it decodes to a Go map, an empty block to an empty one, and its errors match
-- ErrInvalid.
pub record IsCodec (c : Codec) : Type 0 where
  pub decodes_map : (raw : Bytes) (fs : Fields) → c.decode raw ≡ ok fs → IsGoMap fs
  pub decodes_nothing : (fs : Fields) → c.decode [] ≡ ok fs → is_end fs ≡ true
  pub decode_fails : (raw : Bytes) → FailsWith invalid_value (c.decode raw)
  pub encode_fails : (fs : Fields) (prev : Bytes) → FailsWith invalid_value (c.encode fs prev)

-- Every error of the codec matches ErrInvalid.
pub record OnlyInvalid (c : Codec) : Type 0 where
  pub decoding : (raw : Bytes) → FailsWith invalid_value (c.decode raw)
  pub encoding : (fs : Fields) (prev : Bytes) → FailsWith invalid_value (c.encode fs prev)

-- A decoded JSON object takes up at least one byte.
pub record AreCodecs (cs : Codecs) : Type 0 where
  pub is_yaml : IsCodec cs.yaml_codec
  pub is_toml : IsCodec cs.toml_codec
  pub is_json : IsCodec cs.json_codec
  pub consumes : (w : Bytes) (n : ℕ) → cs.json_object_end w ≡ some n → 0 < n

pub codec_for-IsCodec :
    (cs : Codecs) (f : Format) {c : Codec} → AreCodecs cs → codec_for cs f ≡ some c → IsCodec c
unfolding codec_for
codec_for-IsCodec cs yaml h e = subst IsCodec (cc e) h.is_yaml
codec_for-IsCodec cs toml h e = subst IsCodec (cc e) h.is_toml
codec_for-IsCodec cs json h e = subst IsCodec (cc e) h.is_json
codec_for-IsCodec cs no_format h e = cc
codec_for-IsCodec cs (other_format s) h e = cc

-- normalizeLF: bytes.ReplaceAll(b, "\r\n", "\n").
unfoldable pub normalize_lf : Bytes → Bytes
unfolding has_prefix
normalize_lf [] = []
normalize_lf (c ∷ s) =
    let rest = normalize_lf s in if c == b'\r' && has_prefix s (b'\n' ∷ []) then rest else c ∷ rest
