-- ===== src/Markdown/Lines/Bounds.antt =====
-- markdown/json.go: lineAtOffset names a line of the block.
use micawber.Prelude.{[], zero, length, ◌∷◌, min, suc, ◌+◌, arith, ◌≤◌, take, Bytes, ℕ}
use micawber.Go.Number.{ℤ, pos, negsuc}
use micawber.Go.Text.{count_byte}
use micawber.Markdown.Lines.{line_at_offset}

count_byte-take : (c n : ℕ) (b : Bytes) → count_byte c (take n b) ≤ count_byte c b
unfolding count_byte
count_byte-take c zero b = omega arith
count_byte-take c (suc n) [] = omega arith
count_byte-take c (suc n) (x ∷ b) = omega (arith, count_byte-take c n b)

-- The line is at least 1 and at most one more than the block has line feeds, whatever the offset.
pub line_at_offset-bounded :
    (b : Bytes) (offset : ℤ)
    → (1 ≤ line_at_offset b offset) × (line_at_offset b offset ≤ 1 + count_byte b'\n' b)
unfolding line_at_offset
line_at_offset-bounded b (pos n) =
    (omega arith, omega (arith, count_byte-take b'\n' (min n (length b)) b))
line_at_offset-bounded b (negsuc n) = (omega arith, omega arith)
