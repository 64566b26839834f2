-- ===== src/Markdown/Lines.antt =====
-- markdown/codec.go and markdown/json.go: the line that a decoder's error names.
pub mod Bounds
use micawber.Go.Number.{ℤ, pos, negsuc, atoi}
use micawber.Go.Text.{has_prefix, count_byte}
use micawber.Prelude.{
  [], take, length, suc, ◌&&◌, drop, ◌+◌, min, some, leb, codes, ℕ, if◌then◌else◌, none, Option,
  Bytes, ◌∷◌,
}

-- What stands behind the first "line " of a message.
unfoldable pub after_marker : Bytes → Option Bytes
unfolding has_prefix
after_marker [] = none
after_marker (c ∷ s) =
    let rest = after_marker s in
    if has_prefix (c ∷ s) (codes "line ") then some (drop 5 (c ∷ s)) else rest

unfoldable pub leading_digits : Bytes → Bytes
leading_digits [] = []
leading_digits (c ∷ s) =
    let rest = leading_digits s in if leb b'0' c && leb c b'9' then c ∷ rest else []

abbrev pub positive : Option ℤ → Option ℕ
positive (some (pos (suc n))) = some (suc n)
positive _ = none

-- errorLine, of the message of an error.
unfoldable pub error_line : Bytes → Option ℕ
unfolding after_marker leading_digits atoi
error_line message = elim (after_marker message) [
  | none ↦ none
  | some digits ↦ positive (atoi (leading_digits digits))
]

abbrev clamped : ℤ → Bytes → ℕ
clamped (pos n) b = min n (length b)
clamped (negsuc n) b = 0

-- lineAtOffset.
unfoldable pub line_at_offset : Bytes → ℤ → ℕ
unfolding count_byte
line_at_offset b offset = 1 + count_byte b'\n' (take (clamped offset b) b)
