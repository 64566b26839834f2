-- ===== src/Go/Number.antt =====
-- strconv: decimal numbers.
pub mod Laws
use micawber.Prelude.{
  ℕ, zero, suc, ◌+◌, ◌-◌, ◌*◌, ◌/◌, ◌%◌, Bool, true, false, ◌||◌, [], ◌∷◌, Bytes, ltb, leb, ◌==◌,
  if◌then◌else◌, Option, none, some,
}

-- The number that digits spell behind n.
unfoldable pub read_digits : Bytes → ℕ → Option ℕ
read_digits [] n = some n
read_digits (c ∷ s) n =
    let rest = read_digits s (n * 10 + (c - b'0')) in
    if ltb c b'0' || ltb b'9' c then none else rest

-- An int; `negsuc n` is -(n + 1).
pub data ℤ : Type 0 where
  pos : ℕ → ℤ
  negsuc : ℕ → ℤ

abbrev with_sign : Bool → ℕ → ℤ
with_sign false n = pos n
with_sign true zero = pos 0
with_sign true (suc n) = negsuc n

-- math.MaxInt64.
abbrev pub max_int : ℕ
max_int = 0x7FFFFFFFFFFFFFFF

-- One or more digits, within the range of an int of that sign.
unfoldable pub read_magnitude : Bool → Bytes → Option ℤ
unfolding read_digits
read_magnitude negative [] = none
read_magnitude negative (c ∷ s) = elim (read_digits (c ∷ s) 0) [
  | none ↦ none
  | some n ↦
      if leb n (if negative then max_int + 1 else max_int)
      then some (with_sign negative n)
      else none
]

-- strconv.Atoi; `none` for an error.
unfoldable pub atoi : Bytes → Option ℤ
unfolding read_magnitude
atoi [] = none
atoi (c ∷ s) =
    if c == b'-'
    then read_magnitude true s
    else if c == b'+'
    then read_magnitude false s
    else read_magnitude false (c ∷ s)

-- The digits of a positive number put before those given, with fuel.
unfoldable pub digits : ℕ → ℕ → Bytes → Bytes
digits zero n out = out
digits (suc k) n out =
    let rest = digits k (n / 10) ((b'0' + n % 10) ∷ out) in if n == 0 then out else rest

-- strconv.Itoa, %d, of a number that is not negative.
unfoldable pub itoa : ℕ → Bytes
unfolding digits
itoa n = if n == 0 then b'0' ∷ [] else digits n n []
