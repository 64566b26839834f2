-- ===== src/Markdown/Toml.antt =====
-- markdown/toml.go: the scanner of the authored keys. An index into the block is the text that is
-- still to come behind it.
pub mod Keys
pub mod Encode
pub mod Decode
pub mod Bounds
pub mod Returns
pub mod Fails
use micawber.Go.Utf8.{append_rune}
use micawber.Prelude.{
  zero, ◌++◌, ◌+◌, ◌-◌, length, ◌*◌, ◌&&◌, [], none, ltb, leb, ◌||◌, take, some, if◌then◌else◌,
  ◌==◌, suc, Option, ◌∷◌, Bool, Bytes, ℕ,
}

abbrev pub is_blank : ℕ → Bool
is_blank c = c == b' ' || c == b'\t'

-- tomlSkipLine.
unfoldable pub skip_line : Bytes → Bytes
skip_line [] = []
skip_line (c ∷ s) = let rest = skip_line s in if c == b'\n' then s else rest

-- `for j < len(b) && (b[j] == ' ' || b[j] == '\t')`
unfoldable pub skip_blanks : Bytes → Bytes
skip_blanks [] = []
skip_blanks (c ∷ s) = let rest = skip_blanks s in if is_blank c then rest else c ∷ s

-- The value of a hex digit, as strconv.ParseUint reads it.
hex_digit : ℕ → Option ℕ
hex_digit c =
    if leb b'0' c && leb c b'9'
    then some (c - b'0')
    else if leb b'a' c && leb c b'f'
    then some (c - 87)
    else if leb b'A' c && leb c b'F'
    then some (c - 55)
    else none

-- strconv.ParseUint(s, 16, 32) on at most eight digits, behind the value read so far.
parse_hex : ℕ → Bytes → Option ℕ
unfolding hex_digit
parse_hex value [] = some value
parse_hex value (c ∷ s) = elim (hex_digit c) [ none ↦ none | some d ↦ parse_hex (value * 16 + d) s ]

-- The appended bytes, and the length, of an escape with this many digits at the front of `t`,
-- behind the backslash and the letter.
hex_escape : ℕ → ℕ → Bytes → Bytes × ℕ
unfolding parse_hex append_rune
hex_escape letter digits t =
    let written = b'\\' ∷ letter ∷ take digits t in
    if ltb (length t) digits
    then (b'\\' ∷ letter ∷ t, length t + 2)
    else elim (parse_hex 0 (take digits t)) [
      | none ↦ (written, digits + 2)
      | some value ↦
          if ltb 0x10FFFF value then (written, digits + 2) else (append_rune value, digits + 2)
    ]

-- The letters that stand for one byte.
escape_letter : ℕ → Option ℕ
escape_letter d =
    if d == b'b'
    then some 8
    else if d == b't'
    then some 9
    else if d == b'n'
    then some 10
    else if d == b'f'
    then some 12
    else if d == b'r'
    then some 13
    else if d == b'e'
    then some 0x1B
    else if d == b'"'
    then some b'"'
    else if d == b'\\'
    then some b'\\'
    else none

-- tomlEscape at a backslash, behind which `t` stands: what it appends, and the length it consumes.
unfoldable pub escape : Bytes → Bytes × ℕ
unfolding escape_letter hex_escape
escape [] = (b'\\' ∷ [], 1)
escape (d ∷ t) = elim (escape_letter d) [
  | some byte ↦ (byte ∷ [], 2)
  | none ↦
      if d == b'x'
      then hex_escape d 2 t
      else if d == b'u'
      then hex_escape d 4 t
      else if d == b'U'
      then hex_escape d 8 t
      else (b'\\' ∷ d ∷ [], 2)
]

-- The name in a basic string behind its quote; the number says how many bytes an escape that was
-- read still takes up.
unfoldable pub quoted : ℕ → Bytes → Bytes × Bytes
unfolding escape
quoted skip [] = ([], [])
quoted (suc skip) (c ∷ s) = quoted skip s
quoted zero (c ∷ s) =
    let (appended, width) = if c == b'\\' then escape s else (c ∷ [], 1) in
    let (name, rest) = quoted (width - 1) s in
    if c == b'"' then ([], s) else if c == b'\n' then ([], c ∷ s) else (appended ++ name, rest)

unfoldable pub literal : Bytes → Bytes × Bytes
literal [] = ([], [])
literal (c ∷ s) =
    let (name, rest) = literal s in
    if c == b'\'' then ([], s) else if c == b'\n' then ([], c ∷ s) else (c ∷ name, rest)

abbrev is_bare : ℕ → Bool
is_bare c =
    c == b'-'
    || c == b'_'
    || (leb b'0' c && leb c b'9')
    || (leb b'a' c && leb c b'z')
    || (leb b'A' c && leb c b'Z')

unfoldable pub bare : Bytes → Bytes × Bytes
bare [] = ([], [])
bare (c ∷ s) = let (name, rest) = bare s in if is_bare c then (c ∷ name, rest) else ([], c ∷ s)

-- tomlKeyPart.
unfoldable pub key_part : Bytes → Bytes × Bytes
unfolding quoted literal bare
key_part [] = ([], [])
key_part (c ∷ s) = if c == b'"' then quoted 0 s else if c == b'\'' then literal s else bare (c ∷ s)
