-- ===== src/Go/Text/Cut.antt =====
-- strings.Cut finds the first separator.
use micawber.Prelude.{
  ℕ, false, [], ◌∷◌, ◌++◌, ◌≡◌, arith, Bytes, ◌==◌, some, Bool-cases, inl, inr, Option-cases,
}
use micawber.Go.Text.{cut, contains_byte}

pub cut-append :
    (sep : ℕ) (a b : Bytes) → contains_byte sep a ≡ false → cut sep (a ++ (sep ∷ b)) ≡ some (a, b)
unfolding cut
cut-append sep [] b h = ground arith
cut-append sep (c ∷ a) b h = ground (arith, cut-append sep a b)

pub cut-split :
    (sep : ℕ) (s : Bytes) {a b : Bytes}
    → cut sep s ≡ some (a, b)
    → (s ≡ a ++ (sep ∷ b)) × (contains_byte sep a ≡ false)
unfolding cut
cut-split sep [] h = cc
cut-split sep (c ∷ s) h = elim (Bool-cases (c == sep)) [
  | inl e ↦ ground arith
  | inr e ↦ elim (Option-cases (cut sep s)) [
    | inl missing ↦ ground arith
    | inr ((a', b'), found) ↦ ground (arith, cut-split sep s found)
  ]
]
