-- ===== src/Go/Number/Laws.antt =====
-- What Atoi makes of what Itoa prints.
use micawber.Go.Number.{pos, read_digits, max_int, read_magnitude, atoi, digits, itoa}
use micawber.Prelude.{
  ℕ, zero, suc, ◌+◌, ◌/◌, ◌%◌, ◌≤◌, Bool, true, false, ◌&&◌, [], ◌∷◌, ◌≡◌, ◌≢◌, refl, Bytes, arith,
  some, all, leb, Bool-cases, inl, inr, ◌==◌,
}

abbrev pub is_digit : ℕ → Bool
is_digit c = leb b'0' c && leb c b'9'

read_digits-digits :
    (k n : ℕ) (out : Bytes) → n ≤ k → read_digits (digits k n out) 0 ≡ read_digits out n
unfolding digits read_digits
read_digits-digits zero n out h = ground arith
read_digits-digits (suc k) n out h = elim (Bool-cases (n == 0)) [
  | inl none_left ↦ ground arith
  | inr some_left ↦
      let rest = read_digits-digits k (n / 10) ((b'0' + n % 10) ∷ out) (omega arith) in ground arith
]

digits-is_digit :
    (k n : ℕ) (out : Bytes) → all is_digit out ≡ true → all is_digit (digits k n out) ≡ true
unfolding digits
digits-is_digit zero n out h = h
digits-is_digit (suc k) n out h =
    let rest = digits-is_digit k (n / 10) ((b'0' + n % 10) ∷ out) in ground (arith, rest)

digits-ne-nil : (k n : ℕ) (out : Bytes) → out ≢ [] → digits k n out ≢ []
unfolding digits
digits-ne-nil zero n out h = h
digits-ne-nil (suc k) n out h =
    let rest = digits-ne-nil k (n / 10) ((b'0' + n % 10) ∷ out) (λ e. cc) in ground (arith, rest)

-- What Itoa prints is one or more digits.
pub itoa-digits : (n : ℕ) → (itoa n ≢ []) × (all is_digit (itoa n) ≡ true)
unfolding itoa digits
itoa-digits zero = ground arith
itoa-digits (suc m) =
    let last = (b'0' + suc m % 10) ∷ [] in
    let some_digits = digits-ne-nil m (suc m / 10) last (λ e. cc) in
    let all_digits = digits-is_digit m (suc m / 10) last (ground arith) in
    (ground (arith, some_digits), ground (arith, all_digits))

read_magnitude-digits :
    (s : Bytes) (n : ℕ)
    → s ≢ []
    → n ≤ max_int
    → read_digits s 0 ≡ some n
    → read_magnitude false s ≡ some (pos n)
unfolding read_magnitude
read_magnitude-digits [] n h fits e = absurd (h refl)
read_magnitude-digits (c ∷ s) n h fits e = rw (e, read_magnitude) (ground arith)

atoi-digits :
    (s : Bytes) (n : ℕ)
    → s ≢ []
    → all is_digit s ≡ true
    → n ≤ max_int
    → read_digits s 0 ≡ some n
    → atoi s ≡ some (pos n)
unfolding atoi
atoi-digits [] n h all_digits fits e = absurd (h refl)
atoi-digits (c ∷ s) n h all_digits fits e = ground (arith, read_magnitude-digits (c ∷ s) n h fits e)

read_digits-itoa : (n : ℕ) → read_digits (itoa n) 0 ≡ some n
unfolding itoa read_digits
read_digits-itoa n = ground (arith, read_digits-digits n n [] (omega arith))

-- Atoi reads every int that Itoa prints.
pub atoi-itoa : (n : ℕ) → n ≤ max_int → atoi (itoa n) ≡ some (pos n)
atoi-itoa n h =
    let (nonempty, all_digits) = itoa-digits n in
    atoi-digits (itoa n) n nonempty all_digits h (read_digits-itoa n)
