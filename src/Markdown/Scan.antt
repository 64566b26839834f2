-- ===== src/Markdown/Scan.antt =====
-- markdown/parse.go: scan, which splits a file into its five slots without decoding anything.
pub mod Shape
pub mod Delimited
pub mod Json
pub mod Laws
pub mod Fails
use micawber.Go.Lines.{concat, later_lines, lines, first_line, newline}
use micawber.Go.Text.{has_prefix, trim_suffix, trim_right, index_byte, equal}
use micawber.Core.Errors.{
  ◌>>=◌, nul_byte, over_byte_limit, ok, never_closed, front_matter, err, invalidf, Result, Error,
  Reason,
}
use micawber.Prelude.{
  false, true, take, drop, codes, ◌&&◌, length, ltb, ◌++◌, none, some, if◌then◌else◌, ◌||◌, ◌∷◌,
  List, Option, ◌==◌, [], Bool, Bytes, ℕ,
}
use micawber.Core.FrontMatter.{Format, no_format, yaml, toml, json, format_string}
use micawber.Markdown.Document.{Layout, zero_layout, bom, yaml_delimiter, toml_delimiter}

-- MaxFrontMatterBytes.
abbrev pub max_front_matter_bytes : ℕ
max_front_matter_bytes = 1048576

-- invalidf: the value is the format, never a byte of the document.
abbrev pub invalid_block : Format → Reason → Error
invalid_block f r = invalidf front_matter (format_string f) r

pub record Parts : Type 0 where
  pub layout : Layout
  pub format : Format
  pub raw : Bytes
  pub body : Bytes

abbrev pub no_parts : Bytes → Parts
no_parts s = record { layout = zero_layout; format = no_format; raw = []; body = s }

abbrev is_blank_byte : ℕ → Bool
is_blank_byte c = c == b' ' || c == b'\t'

-- isDelimiterLine.
unfoldable pub is_delimiter_line : Bytes → Bytes → Bool
unfolding equal trim_right trim_suffix
is_delimiter_line line delimiter =
    equal (trim_right is_blank_byte (trim_suffix line (b'\r' ∷ []))) delimiter

-- openingDelimiter.
unfoldable pub opening_delimiter : Bytes → Option (Format × Bytes)
opening_delimiter line =
    if is_delimiter_line line yaml_delimiter
    then some (yaml, yaml_delimiter)
    else if is_delimiter_line line toml_delimiter
    then some (toml, toml_delimiter)
    else none

-- What lineAt returns of a line: its bytes without the terminator.
abbrev pub line_text : Bytes → Bytes
line_text l = trim_suffix l (newline ∷ [])

-- scanDelimited. The index that walks from line to line over `rest` is kept as the block read so
-- far and the lines still to come.
unfoldable pub scan_delimited : Bool → Format → Bytes → Bytes → Bytes → List Bytes → Result Parts
scan_delimited has_bom format delimiter opening raw [] = err (invalid_block format never_closed)
scan_delimited has_bom format delimiter opening raw (l ∷ ls) =
    let rest = scan_delimited has_bom format delimiter opening (raw ++ l) ls in
    if ltb max_front_matter_bytes (length raw)
    then err (invalid_block format over_byte_limit)
    else if is_delimiter_line (line_text l) delimiter
    then ok (record {
      layout = record { has_bom = has_bom; opening = opening; closing = l };
      format = format;
      raw = raw;
      body = concat ls;
    })
    else rest

-- rejectNUL.
unfoldable pub reject_nul : Parts → Result Parts
unfolding index_byte
reject_nul p = elim (index_byte 0 p.raw) [
  | none ↦ ok p
  | some i ↦ err (invalid_block p.format (nul_byte i))
]

-- The spaces and tabs at the front, and the rest.
split_blanks : Bytes → Bytes × Bytes
split_blanks [] = ([], [])
split_blanks (c ∷ s) =
    let (blanks, rest) = split_blanks s in
    if is_blank_byte c then (c ∷ blanks, rest) else ([], c ∷ s)

-- The terminator that a text begins with, and the rest; at the end of the text it is empty.
end_of_line : Bytes → Option (Bytes × Bytes)
end_of_line [] = some ([], [])
end_of_line (c ∷ []) = if c == b'\n' then some (c ∷ [], []) else none
end_of_line (c ∷ d ∷ s) =
    if c == b'\n'
    then some (c ∷ [], d ∷ s)
    else if c == b'\r' && d == b'\n'
    then some (c ∷ d ∷ [], s)
    else none

json_parts : Bool → Bytes → Bytes → Option (Bytes × Bytes) → Option Parts
json_parts has_bom raw blanks none = none
json_parts has_bom raw blanks (some (terminator, body)) = some (record {
  layout = record { has_bom = has_bom; opening = []; closing = blanks ++ terminator };
  format = json;
  raw = raw;
  body = body;
})

-- The object is read within the byte limit.
abbrev json_window : Bytes → Bytes
json_window s = if ltb max_front_matter_bytes (length s) then take max_front_matter_bytes s else s

-- What follows an object that ends at n decides whether it is front matter.
json_at : Bytes → Bool → ℕ → Option Parts
json_at s has_bom n =
    let (blanks, rest) = split_blanks (drop n s) in
    json_parts has_bom (take n s) blanks (end_of_line rest)

-- The decoder's InputOffset behind a leading JSON object of the window, if there is one.
module _ (json_object_end : Bytes → Option ℕ) where
  -- scanJSON; `none` where the second result is false.
  unfoldable pub scan_json : Bytes → Bool → Option Parts
  unfolding split_blanks end_of_line json_parts json_at
  scan_json s has_bom = elim (json_object_end (json_window s)) [
    | none ↦ none
    | some n ↦ json_at s has_bom n
  ]

  -- scan, behind the byte-order mark.
  scan_brace : Bytes → Bytes → Bool → Result Parts
  scan_brace s rest has_bom = elim (scan_json rest has_bom) [
    | none ↦ ok (no_parts s)
    | some p ↦ reject_nul p
  ]

  scan_fence : Bytes → Bool → List Bytes → Result Parts
  unfolding opening_delimiter
  scan_fence s has_bom ls = elim (opening_delimiter (line_text (first_line ls))) [
    | none ↦ ok (no_parts s)
    | some (format, delimiter) ↦
        scan_delimited has_bom format delimiter (first_line ls) [] (later_lines ls) >>= reject_nul
  ]

  scan_rest : Bytes → Bytes → Bool → Result Parts
  unfolding lines
  scan_rest s rest has_bom =
      if has_prefix rest (codes "{")
      then scan_brace s rest has_bom
      else scan_fence s has_bom (lines rest)

  -- scan.
  unfoldable pub scan : Bytes → Result Parts
  unfolding scan_rest scan_brace scan_fence
  scan s = if has_prefix s bom then scan_rest s (drop 3 s) true else scan_rest s s false
