-- ===== src/Markdown/Document.antt =====
-- markdown/document.go: Document, Layout and the canonical delimiters.
use micawber.Go.Text.{has_suffix}
use micawber.Prelude.{is_nil, ◌&&◌, ◌++◌, if◌then◌else◌, not, [], codes, ◌∷◌, false, Bool, Bytes}
use micawber.Core.FrontMatter.{Format, yaml, toml}
use micawber.Core.Content.{Content}

-- bom: the UTF-8 byte-order mark.
abbrev pub bom : Bytes
bom = 0xEF ∷ 0xBB ∷ 0xBF ∷ []

-- yamlDelimiter, tomlDelimiter.
abbrev pub yaml_delimiter : Bytes
yaml_delimiter = codes "---"

abbrev pub toml_delimiter : Bytes
toml_delimiter = codes "+++"

-- Layout; the fields Open and Close are `opening` and `closing`.
pub record Layout : Type 0 where
  pub has_bom : Bool
  pub opening : Bytes
  pub closing : Bytes

abbrev pub zero_layout : Layout
zero_layout = record { has_bom = false; opening = []; closing = [] }

pub record Document : Type 0 where
  pub content : Content
  pub layout : Layout

-- IsZero.
abbrev pub layout_is_zero : Layout → Bool
layout_is_zero l = not l.has_bom && (is_nil l.opening && is_nil l.closing)

abbrev pub crlf : Bytes
crlf = b'\r' ∷ b'\n' ∷ []

abbrev pub lf : Bytes
lf = b'\n' ∷ []

-- lineEnding.
unfoldable pub line_ending : Layout → Bytes
line_ending l =
    if has_suffix l.opening crlf
    then crlf
    else if has_suffix l.opening lf
    then lf
    else if has_suffix l.closing crlf
    then crlf
    else lf

-- defaultLayout.
unfoldable pub default_layout : Format → Layout
default_layout yaml = record {
  has_bom = false;
  opening = yaml_delimiter ++ lf;
  closing = yaml_delimiter ++ lf;
}
default_layout toml = record {
  has_bom = false;
  opening = toml_delimiter ++ lf;
  closing = toml_delimiter ++ lf;
}
default_layout _ = zero_layout
