-- ===== src/Go/Lines.antt =====
-- Lines with their terminators, as bytes.Lines and an index that walks from line to line give them.
use micawber.Prelude.{
  inr, inl, refl, ◌==◌, [], Bool-cases, true, ◌≢◌, arith, false, if◌then◌else◌, ◌≡◌, ◌++◌, Bool,
  ◌∷◌, List, Bytes, ℕ,
}
use micawber.Go.Text.{cons_head}

abbrev pub newline : ℕ
newline = b'\n'

-- The lines of a text, each with its terminator; the last may have none.
unfoldable pub lines : Bytes → List Bytes
lines [] = []
lines (c ∷ s) = let rest = lines s in if c == newline then (c ∷ []) ∷ rest else cons_head c rest

abbrev pub concat : List Bytes → Bytes
concat [] = []
concat (l ∷ ls) = l ++ concat ls

-- The first line and those behind it; an empty text has an empty first line.
abbrev pub first_line : List Bytes → Bytes
first_line [] = []
first_line (l ∷ ls) = l

abbrev pub later_lines : List Bytes → List Bytes
later_lines [] = []
later_lines (l ∷ ls) = ls

-- Whether a text is not empty and its last byte is a line feed.
abbrev pub ends_newline : Bytes → Bool
ends_newline [] = false
ends_newline (c ∷ []) = c == newline
ends_newline (c ∷ d ∷ s) = ends_newline (d ∷ s)

pub first-append-later : (ls : List Bytes) → first_line ls ++ concat (later_lines ls) ≡ concat ls
first-append-later [] = refl
first-append-later (l ∷ ls) = refl

concat-cons_head : (c : ℕ) (ls : List Bytes) → concat (cons_head c ls) ≡ c ∷ concat ls
concat-cons_head c [] = refl
concat-cons_head c (l ∷ ls) = refl

-- The lines of a text make it up.
pub concat-lines : (s : Bytes) → concat (lines s) ≡ s
unfolding lines
concat-lines [] = refl
concat-lines (c ∷ s) = ground (arith, concat-lines s, concat-cons_head c (lines s))

-- Every line but the last ends in a line feed.
abbrev pub AreLines : List Bytes → Type 0
AreLines [] = Unit
AreLines (l ∷ ls) = (ls ≢ [] → ends_newline l ≡ true) × AreLines ls

ends_newline-cons : (c : ℕ) (l : Bytes) → ends_newline l ≡ true → ends_newline (c ∷ l) ≡ true
ends_newline-cons c [] h = cc
ends_newline-cons c (d ∷ l) h = h

pub ends_newline-append : (a l : Bytes) → ends_newline l ≡ true → ends_newline (a ++ l) ≡ true
ends_newline-append [] l h = h
ends_newline-append (c ∷ a) l h = ends_newline-cons c (a ++ l) (ends_newline-append a l h)

AreLines-cons_head : (c : ℕ) (ls : List Bytes) → AreLines ls → AreLines (cons_head c ls)
AreLines-cons_head c [] h = (λ ne. absurd (ne refl), tt)
AreLines-cons_head c (l ∷ ls) h = (λ ne. ends_newline-cons c l (h.0 ne), h.1)

pub AreLines-lines : (s : Bytes) → AreLines (lines s)
unfolding lines
AreLines-lines [] = tt
AreLines-lines (c ∷ s) = elim (Bool-cases (c == newline)) [
  | inl e ↦ rw e ((λ ne. e), AreLines-lines s)
  | inr e ↦ rw e (AreLines-cons_head c (lines s) (AreLines-lines s))
]
