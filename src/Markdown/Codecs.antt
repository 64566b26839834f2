-- ===== src/Markdown/Codecs.antt =====
-- markdown/codec.go: the three codecs that codecFor hands out.
use micawber.Core.Value.{Value, Fields}
use micawber.Core.FrontMatter.{Format, yaml, toml, json, no_format, other_format}
use micawber.Markdown.Codec.{codec_for, Codec, OnlyInvalid, Codecs, AreCodecs}
use micawber.Markdown.Json as Json
use micawber.Markdown.Json.Fails.{IsJson, json_codec, json_codec-IsCodec, json_codec-OnlyInvalid}
use micawber.Markdown.Json.Keys.{ReadsOn}
use micawber.Markdown.Toml.Decode.{DecodeFailure}
use micawber.Markdown.Toml.Fails.{IsToml, toml_codec, toml_codec-IsCodec, toml_codec-OnlyInvalid}
use micawber.Markdown.Yaml as Yaml
use micawber.Markdown.Yaml.Fails.{IsYaml, yaml_codec, yaml_codec-IsCodec, yaml_codec-OnlyInvalid}
use micawber.Prelude.{subst, some, ◌≡◌, ◌<◌, ◌⊎◌, Option, ℕ, Bytes}

-- What the codecs take from other libraries.
pub record Libraries : Type 1 where
  pub Node : Type 0
  pub yaml_library : Yaml.Library Node
  pub toml_unmarshal : Bytes → DecodeFailure ⊎ Fields
  pub toml_encoder : Bytes → Value → Option Bytes
  pub State : Type 0
  pub json_library : Json.Library State
  pub json_left : State → ℕ
  pub json_reads_on : ReadsOn json_library json_left
  pub json_object_end : Bytes → Option ℕ

-- yamlCodec{}, tomlCodec{} and jsonCodec{}.
abbrev pub codecs : Libraries → Codecs
codecs libs = record {
  yaml_codec = yaml_codec libs.yaml_library;
  toml_codec = toml_codec libs.toml_unmarshal libs.toml_encoder;
  json_codec = json_codec libs.json_library libs.json_left libs.json_reads_on;
  json_object_end = libs.json_object_end;
}

-- What is used of them.
pub record AreLibraries (libs : Libraries) : Type 0 where
  pub is_yaml : IsYaml libs.yaml_library
  pub is_toml : IsToml libs.toml_unmarshal
  pub is_json : IsJson libs.json_library
  pub consumes : (w : Bytes) (n : ℕ) → libs.json_object_end w ≡ some n → 0 < n

-- The three codecs are codecs when the libraries decode mappings to Go maps and the empty text to
-- nothing: each decodes to a map with different keys, decodes an empty block to no field, and every
-- error of its decode and of its encode matches ErrInvalid.
pub codecs-AreCodecs : (libs : Libraries) → AreLibraries libs → AreCodecs (codecs libs)
codecs-AreCodecs libs laws = record {
  is_yaml = yaml_codec-IsCodec libs.yaml_library laws.is_yaml;
  is_toml = toml_codec-IsCodec libs.toml_unmarshal libs.toml_encoder laws.is_toml;
  is_json = json_codec-IsCodec libs.json_library libs.json_left libs.json_reads_on laws.is_json;
  consumes = laws.consumes;
}

-- Whatever the libraries return, errors included: every error of decode and of encode of the codec
-- that codecFor finds for a format matches ErrInvalid.
pub codecs_fail_invalid :
    (libs : Libraries) (f : Format) {c : Codec} → codec_for (codecs libs) f ≡ some c → OnlyInvalid c
unfolding codec_for
codecs_fail_invalid libs yaml h =
    subst OnlyInvalid (cc h) (yaml_codec-OnlyInvalid libs.yaml_library)
codecs_fail_invalid libs toml h =
    subst OnlyInvalid (cc h) (toml_codec-OnlyInvalid libs.toml_unmarshal libs.toml_encoder)
codecs_fail_invalid libs json h =
    subst OnlyInvalid (cc h)
      (json_codec-OnlyInvalid libs.json_library libs.json_left libs.json_reads_on)
codecs_fail_invalid libs no_format h = cc
codecs_fail_invalid libs (other_format s) h = cc
