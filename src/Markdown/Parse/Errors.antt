-- ===== src/Markdown/Parse/Errors.antt =====
-- markdown/parse.go: how Parse fails.
use micawber.Markdown.Scan.Laws.{scan-IsScan}
use micawber.Core.FrontMatter.Laws.{FailsWith-validate}
use micawber.Markdown.Scan.Fails.{FailsWith-scan}
use micawber.Core.Errors.{
  FailsWith-refuse, FailsWith-bind_eq, FailsWith-bind, invalid_value, FailsWith,
}
use micawber.Markdown.Scan.Shape.{HasShape}
use micawber.Prelude.{Option-cases, inr, inl, none, Bool-cases, ◌≢◌, false, ◌≡◌, Bytes}
use micawber.Markdown.Scan.{Parts}
use micawber.Markdown.Codec.{codec_for-IsCodec, AreCodecs, IsCodec, Codecs, codec_for, Codec}
use micawber.Core.FrontMatter.{Format, no_format, yaml, toml, json, other_format, is_none}
use micawber.Markdown.Parse.{parse, parse_parts, decode_parts, block_of}

FailsWith-decode_parts :
    (c : Codec) (p : Parts) → IsCodec c → FailsWith invalid_value (decode_parts c p)
unfolding decode_parts
FailsWith-decode_parts c p h = FailsWith-bind invalid_value _ _ (FailsWith-refuse _ _ _ _) (λ _.
    FailsWith-bind invalid_value _ _ (h.decode_fails p.raw) (λ fields.
      FailsWith-bind invalid_value _ _ (FailsWith-validate (block_of p fields)) (λ _. tt)))

-- A scanned format has a codec.
codec_for-HasShape :
    (cs : Codecs) (f : Format) (p : Parts)
    → HasShape f p
    → is_none f ≡ false
    → codec_for cs f ≢ none
unfolding codec_for
codec_for-HasShape cs no_format p h fenced = cc
codec_for-HasShape cs yaml p h fenced = λ e. cc
codec_for-HasShape cs toml p h fenced = λ e. cc
codec_for-HasShape cs json p h fenced = λ e. cc
codec_for-HasShape cs (other_format s) p h fenced = absurd h

FailsWith-parse_parts :
    (cs : Codecs) (p : Parts)
    → AreCodecs cs
    → HasShape p.format p
    → FailsWith invalid_value (parse_parts cs p)
unfolding parse_parts
FailsWith-parse_parts cs p laws shape = elim (Bool-cases (is_none p.format)) [
  | inl bare ↦ rw (bare, parse_parts) tt
  | inr fenced ↦ elim (Option-cases (codec_for cs p.format)) [
    | inl missing ↦ absurd (codec_for-HasShape cs p.format p shape fenced missing)
    | inr (c, found) ↦
        rw (fenced, found, parse_parts)
          (FailsWith-decode_parts c p (codec_for-IsCodec cs p.format laws found))
  ]
]

-- Of codecs that keep what AreCodecs states: every error that Parse returns matches ErrInvalid.
-- So the branch that returns ErrUnsupported is never reached: a format that scan returns has a
-- codec.
pub FailsWith-parse :
    (cs : Codecs) (s : Bytes) → AreCodecs cs → FailsWith invalid_value (parse cs s)
unfolding parse
FailsWith-parse cs s laws =
    FailsWith-bind_eq invalid_value _ (parse_parts cs) (FailsWith-scan cs.json_object_end s) (λ p e.
      FailsWith-parse_parts cs p laws (scan-IsScan cs.json_object_end laws.consumes s e).shape)
