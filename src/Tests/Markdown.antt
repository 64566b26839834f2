-- ===== src/Tests/Markdown.antt =====
-- markdown/: the theorems at concrete inputs, and the definitions evaluated.
use micawber.Go.Sort.{count}
use micawber.Go.Text.{equal, has_prefix}
use micawber.Prelude.{
  sym, ap, ◌<◌, none, [], some, arith, refl, ◌∷◌, ◌++◌, ℕ, Option, subst, is_nil, codes, ◌≡◌, false,
  Bytes, if◌then◌else◌,
}
use mathlib.Core.List.{Permᴰ}
use micawber.Core.Errors.{ok, err, FailsWith, invalid_value, never_closed}
use micawber.Core.FrontMatter as FrontMatter
use micawber.Core.FrontMatter.{FrontMatter, yaml, json, no_format}
use micawber.Core.Value.{is_end, Value, Fields, has_key, IsGoMap}
use micawber.Markdown.Document.{Document}
use micawber.Markdown.Scan.{Parts, scan, invalid_block}
use micawber.Markdown.Scan.Shape.{IsScan}
use micawber.Markdown.Scan.Laws.{scan-IsScan}
use micawber.Markdown.Codec.{Codec, Codecs, IsCodec, AreCodecs}
use micawber.Markdown.Codec.Keys.{ordered_keys, toml_key_order}
use micawber.Markdown.Codec.Keys.Order.{ordered_keys-Perm}
use micawber.Markdown.Codec.Keys.Tables.{ScalarsFirst, toml_key_order-ScalarsFirst}
use micawber.Markdown.Parse.{parse, document, block_of}
use micawber.Markdown.Parse.Errors.{FailsWith-parse}
use micawber.Markdown.Serialize.{bytes}
use micawber.Markdown.Serialize.RoundTrip.{parse-bytes}

-- A codec that keeps the block as the one field "block".
abbrev block_codec : Codec
block_codec = record {
  decode = λ raw.
      if is_nil raw
      then ok Fields.end
      else ok (Fields.field (codes "block") (Value.text raw) Fields.end);
  encode = λ fields prev. ok (codes "{}");
}

block_codec-IsCodec : IsCodec block_codec
block_codec-IsCodec = record {
  decodes_map = maps;
  decodes_nothing = λ fields e. let same : Fields.end ≡ fields = cc e in ap is_end (sym same);
  decode_fails = fails;
  encode_fails = λ fields prev. tt;
}
  where
    maps : (raw : Bytes) (fs : Fields) → block_codec.decode raw ≡ ok fs → IsGoMap fs
    maps [] fs e = let same : Fields.end ≡ fs = cc e in subst IsGoMap same tt
    maps (c ∷ raw) fs e =
        let one = Fields.field (codes "block") (Value.text (c ∷ raw)) Fields.end in
        let same : one ≡ fs = cc e in subst IsGoMap same (refl, tt, tt)

    fails : (raw : Bytes) → FailsWith invalid_value (block_codec.decode raw)
    fails [] = tt
    fails (c ∷ raw) = tt

-- The end of the one object that the examples hold.
abbrev empty_object_end : Bytes → Option ℕ
empty_object_end w = if has_prefix w (codes "{}") then some 2 else none

abbrev pub block_codecs : Codecs
block_codecs = record {
  yaml_codec = block_codec;
  toml_codec = block_codec;
  json_codec = block_codec;
  json_object_end = empty_object_end;
}

consumes_two : (w : Bytes) (n : ℕ) → empty_object_end w ≡ some n → 0 < n
unfolding has_prefix
consumes_two w n e = ground arith

pub block_codecs-AreCodecs : AreCodecs block_codecs
block_codecs-AreCodecs = record {
  is_yaml = block_codec-IsCodec;
  is_toml = block_codec-IsCodec;
  is_json = block_codec-IsCodec;
  consumes = consumes_two;
}

-- A fenced page with CRLF line endings and no newline behind the closing delimiter.
abbrev pub page : Bytes
page = codes "---" ++ (b'\r' ∷ b'\n' ∷ (codes "a: 1" ++ (b'\r' ∷ b'\n' ∷ codes "---")))

abbrev page_parts : Parts
page_parts = record {
  layout = record {
    has_bom = false;
    opening = codes "---" ++ (b'\r' ∷ b'\n' ∷ []);
    closing = codes "---";
  };
  format = yaml;
  raw = codes "a: 1" ++ (b'\r' ∷ b'\n' ∷ []);
  body = [];
}

page_scanned : scan empty_object_end page ≡ ok page_parts
unfolding scan has_prefix micawber.Markdown.Scan.is_delimiter_line
    micawber.Markdown.Scan.scan_delimited micawber.Markdown.Scan.reject_nul
page_scanned = refl

scan-IsScan_example : IsScan page page_parts
scan-IsScan_example = scan-IsScan empty_object_end consumes_two page page_scanned

abbrev pub page_document : Document
page_document =
    document page_parts.layout
      (block_of page_parts (Fields.field (codes "block") (Value.text page_parts.raw) Fields.end))
      page_parts.body

pub page_parsed : parse block_codecs page ≡ ok page_document
unfolding parse scan has_prefix micawber.Markdown.Scan.is_delimiter_line
    micawber.Markdown.Scan.scan_delimited micawber.Markdown.Scan.reject_nul FrontMatter.validate
    FrontMatter.is_known
page_parsed = refl

parse-bytes_example : bytes block_codecs page_document ≡ ok page
parse-bytes_example = parse-bytes block_codecs page block_codecs-AreCodecs page_parsed (tt, tt)

open_page_refused : parse block_codecs (codes "---") ≡ err (invalid_block yaml never_closed)
unfolding parse scan has_prefix micawber.Markdown.Scan.is_delimiter_line
    micawber.Markdown.Scan.scan_delimited
open_page_refused = refl

FailsWith-parse_example : FailsWith invalid_value (parse block_codecs (codes "---"))
FailsWith-parse_example = FailsWith-parse block_codecs (codes "---") block_codecs-AreCodecs

-- Two listings of one map: a table and a scalar.
abbrev title_last : Fields
title_last =
    Fields.field (codes "b") (Value.object Fields.end)
      (Fields.field (codes "a") (Value.text (codes "x")) Fields.end)

abbrev title_first : Fields
title_first =
    Fields.field (codes "a") (Value.text (codes "x"))
      (Fields.field (codes "b") (Value.object Fields.end) Fields.end)

title_last-IsGoMap : IsGoMap title_last
unfolding equal
title_last-IsGoMap = (refl, tt, (refl, tt, tt))

ordered_keys-Perm_example :
    ordered_keys title_last (codes "b" ∷ []) ≡ ordered_keys title_first (codes "b" ∷ [])
ordered_keys-Perm_example =
    ordered_keys-Perm title_last title_first (codes "b" ∷ []) (Permᴰ.swap refl refl)

toml_key_order-ScalarsFirst_example :
    ScalarsFirst title_last (toml_key_order title_last (codes "b" ∷ []))
    × ((k : Bytes)
        → count k (toml_key_order title_last (codes "b" ∷ []))
          ≡ (if has_key k title_last then 1 else 0))
toml_key_order-ScalarsFirst_example =
    toml_key_order-ScalarsFirst title_last (codes "b" ∷ []) title_last-IsGoMap

authored_first : ordered_keys title_last (codes "b" ∷ []) ≡ codes "b" ∷ codes "a" ∷ []
unfolding ordered_keys
authored_first = refl

scalars_before_tables : toml_key_order title_last (codes "b" ∷ []) ≡ codes "a" ∷ codes "b" ∷ []
unfolding toml_key_order
scalars_before_tables = refl
