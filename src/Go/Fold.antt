-- ===== src/Go/Fold.antt =====
-- Letter case: strings.EqualFold, strings.ToLower and strings.ToUpper.
use micawber.Prelude.{
  [], ◌∷◌, true, ◌≡◌, arith, refl, not, ℕ, ◌+◌, ◌-◌, Bool, ◌&&◌, Bytes, ltb, leb, ◌==◌,
  if◌then◌else◌, map, all,
}
use micawber.Go.Text.{equal}
use micawber.Go.Utf8.{runes}

-- The two runes above ASCII whose case folding is an ASCII letter are the Kelvin sign and the
-- long s. So this is Go's folding wherever one of the two strings is ASCII, as in every call here.
unfoldable pub fold_rune : ℕ → ℕ
fold_rune r =
    if leb b'A' r && leb r b'Z'
    then r + 32
    else if r == 0x212A
    then b'k'
    else if r == 0x17F
    then b's'
    else r

-- strings.EqualFold(s, t) for an ASCII t.
unfoldable pub equal_fold : Bytes → Bytes → Bool
unfolding fold_rune runes equal
equal_fold s t = equal (map fold_rune (runes s)) (map fold_rune (runes t))

lower_byte : ℕ → ℕ
lower_byte c = if leb b'A' c && leb c b'Z' then c + 32 else c

unfoldable pub upper_byte : ℕ → ℕ
upper_byte c = if leb b'a' c && leb c b'z' then c - 32 else c

abbrev pub is_ascii : Bytes → Bool
is_ascii = all (λ c. ltb c 0x80)

-- strings.ToLower; on text that is not ASCII it is the Unicode tables' map, the first argument.
unfoldable pub to_lower : (Bytes → Bytes) → Bytes → Bytes
unfolding lower_byte
to_lower unicode s = if is_ascii s then map lower_byte s else unicode s

-- strings.ToUpper.
unfoldable pub to_upper : (Bytes → Bytes) → Bytes → Bytes
unfolding upper_byte
to_upper unicode s = if is_ascii s then map upper_byte s else unicode s

-- ASCII text with no upper-case letter is its own lower case.
pub to_lower_id :
    (unicode : Bytes → Bytes) (s : Bytes)
    → all (λ c. ltb c 0x80 && not (leb b'A' c && leb c b'Z')) s ≡ true
    → to_lower unicode s ≡ s
unfolding to_lower
to_lower_id unicode s h = rw (go s h).0 (go s h).1
  where
    go :
        (s : Bytes)
        → all (λ c. ltb c 0x80 && not (leb b'A' c && leb c b'Z')) s ≡ true
        → (is_ascii s ≡ true) × (map lower_byte s ≡ s)
    go [] h = (refl, refl)
    go (c ∷ s) h = ground (arith, go s)
