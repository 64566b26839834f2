-- ===== src/Markdown/Parse.antt =====
-- markdown/parse.go: Parse.
pub mod Errors
pub mod Inverse
use micawber.Core.Value.{Fields}
use micawber.Core.Errors.{
  unsupported, sentinel, wrapped, err, over_line_limit, ok, refuse, ◌>>◌, ◌>>=◌, Result,
}
use micawber.Go.Text.{count_byte}
use micawber.Prelude.{some, none, ltb, if◌then◌else◌, [], Bytes, ℕ}
use micawber.Core.Content.{Content}
use micawber.Core.FrontMatter as FrontMatter
use micawber.Core.FrontMatter.{FrontMatter, Format, is_none, no_front_matter, format_string}
use micawber.Markdown.Document.{Document, Layout}
use micawber.Markdown.Scan.{Parts, scan, invalid_block}
use micawber.Markdown.Codec.{Codec, Codecs, codec_for}

-- MaxFrontMatterLines.
abbrev pub max_front_matter_lines : ℕ
max_front_matter_lines = 1000

-- The document of a front matter and a body; path and revision are the caller's to set.
abbrev pub document : Layout → FrontMatter → Bytes → Document
document layout fm body = record {
  content = record { path = record { p = [] }; front_matter = fm; body = body; revision = [] };
  layout = layout;
}

abbrev pub block_of : Parts → Fields → FrontMatter
block_of p fields = record { format = p.format; raw = p.raw; fields = fields }

-- Parse, once the codec is known.
decode_parts : Codec → Parts → Result Document
unfolding count_byte
decode_parts c p = do
  refuse (ltb max_front_matter_lines (count_byte b'\n' p.raw))
      (invalid_block p.format (over_line_limit (count_byte b'\n' p.raw)))
  fields ← c.decode p.raw
  FrontMatter.validate (block_of p fields)
  ok (document p.layout (block_of p fields) p.body)

parse_parts : Codecs → Parts → Result Document
unfolding decode_parts codec_for
parse_parts cs p =
    if is_none p.format
    then ok (document p.layout no_front_matter p.body)
    else elim (codec_for cs p.format) [
      | none ↦
          err (
            wrapped "markdown: %s front matter: %w" (format_string p.format) (sentinel unsupported))
      | some c ↦ decode_parts c p
    ]

-- Parse.
unfoldable pub parse : Codecs → Bytes → Result Document
unfolding parse_parts
parse cs s = scan cs.json_object_end s >>= parse_parts cs
