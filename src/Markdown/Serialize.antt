-- ===== src/Markdown/Serialize.antt =====
-- markdown/serialize.go: Document.Bytes and Format.
pub mod RoundTrip
use micawber.Go.Lines.{ends_newline}
use micawber.Core.Errors.{
  unsupported, invalid_value, sentinel, wrapped, refuse, err, wrap, ◌>>◌, ◌>>=◌, ok, Result,
}
use micawber.Go.Text.{replace_byte, equal}
use micawber.Prelude.{
  some, none, ◌++◌, codes, ◌||◌, [], ◌&&◌, false, ◌∷◌, not, is_nil, true, if◌then◌else◌, Bool,
  Bytes,
}
use micawber.Core.Content.{Content}
use micawber.Core.FrontMatter as FrontMatter
use micawber.Core.FrontMatter.{FrontMatter, Format, no_format, json, is_none, format_string}
use micawber.Core.Value.{fields_equal, is_end}
use micawber.Markdown.Document.{
  Document, Layout, zero_layout, layout_is_zero, line_ending, default_layout, bom,
}
use micawber.Markdown.Scan.{Parts, scan}
use micawber.Markdown.Codec.{Codec, Codecs, codec_for, normalize_lf}

-- bodyOpensFrontMatter.
body_opens_front_matter : Codecs → Bytes → Bool
body_opens_front_matter cs body = elim (scan cs.json_object_end body) [
  | ok p ↦ not (is_none p.format)
  | err e ↦ true
]

-- applyLineEnding.
unfoldable pub apply_line_ending : Bytes → Bytes → Bytes
unfolding equal normalize_lf replace_byte
apply_line_ending b ending =
    if equal ending (b'\n' ∷ []) then b else replace_byte b'\n' ending (normalize_lf b)

is_json : Format → Bool
is_json json = true
is_json _ = false

-- The third arm of frontMatterBlock: the fields have been edited, or nothing was authored.
encode_block : Codec → FrontMatter → Bytes → Result Bytes
unfolding apply_line_ending
encode_block c fm ending = do
  encoded ← c.encode fm.fields fm.raw
  ok (apply_line_ending encoded ending)

-- The second arm: an authored block that still says what the fields say is emitted as it is.
authored_block : Codec → FrontMatter → Bytes → Result Bytes
unfolding encode_block
authored_block c fm ending = do
  authored ← wrap "markdown: cannot serialize: %w" [] (c.decode fm.raw)
  if fields_equal authored fm.fields then ok fm.raw else encode_block c fm ending

codec_block : Codec → FrontMatter → Bytes → Result Bytes
unfolding authored_block is_json
codec_block c fm ending =
    if is_nil fm.raw && is_end fm.fields
    then (if is_json fm.format then ok (codes "{}") else ok fm.raw)
    else if is_nil fm.raw
    then encode_block c fm ending
    else authored_block c fm ending

-- frontMatterBlock.
unfoldable pub front_matter_block : Codecs → FrontMatter → Bytes → Result Bytes
unfolding codec_block codec_for
front_matter_block cs fm ending =
    if is_none fm.format then ok [] else elim (codec_for cs fm.format) [
      | none ↦
          err (
            wrapped "markdown: %s front matter: %w" (format_string fm.format)
              (sentinel unsupported))
      | some c ↦ codec_block c fm ending
    ]

-- terminateBlock.
unfoldable pub terminate_block : Bytes → Layout → Bytes → Bytes
unfolding line_ending
terminate_block block layout body =
    if is_nil block || ends_newline block
    then block
    else let fenced_by_a_delimiter = not (is_nil layout.opening) in
      let glued_to_the_body = is_nil layout.closing && not (is_nil body) in
      if not fenced_by_a_delimiter && not glued_to_the_body
      then block
      else block ++ line_ending layout

-- The layout that is written: the canonical one for the zero value.
abbrev pub effective_layout : Layout → Format → Layout
effective_layout l f = if layout_is_zero l then default_layout f else l

-- Bytes.
unfoldable pub bytes : Codecs → Document → Result Bytes
unfolding body_opens_front_matter front_matter_block terminate_block default_layout
bytes cs d = do
  wrap "markdown: cannot serialize: %w" [] (FrontMatter.validate d.content.front_matter)
  refuse (is_none d.content.front_matter.format && body_opens_front_matter cs d.content.body) (
      wrapped "markdown: cannot serialize: the body would be read as opening a block: %w" []
        (sentinel invalid_value))
  let layout = effective_layout d.layout d.content.front_matter.format
  block ← front_matter_block cs d.content.front_matter (line_ending layout)
  ok (
      (if layout.has_bom then bom else [])
      ++ (layout.opening
          ++ (terminate_block block layout d.content.body ++ (layout.closing ++ d.content.body))))

-- Format.
unfoldable pub format : Codecs → Content → Result Bytes
unfolding bytes
format cs c = bytes cs (record { content = c; layout = zero_layout })
