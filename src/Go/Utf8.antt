-- ===== src/Go/Utf8.antt =====
-- unicode/utf8 and the runes of `for _, r := range s`.
use micawber.Prelude.{
  ◌%◌, ◌/◌, Bool-cases, ltb→lt, ltb-false, all, zero, suc, ◌<◌, ◌++◌, ℕ, zero, suc, ◌≤◌, ◌+◌, ◌-◌,
  ◌*◌, Bool, true, false, ◌&&◌, ◌||◌, List, [], ◌∷◌, ◌≡◌, refl, ◌⊎◌, inl, inr, Option, none, some,
  arith, Bytes, ltb, leb, ◌==◌, if◌then◌else◌, any,
}

-- utf8.RuneError, which an invalid byte decodes to.
abbrev pub rune_error : ℕ
rune_error = 0xFFFD

abbrev continues : ℕ → Bool
continues c = leb 0x80 c && leb c 0xBF

decode2 : ℕ → Bytes → Option (ℕ × ℕ)
decode2 b [] = none
decode2 b (c ∷ s) = if continues c then some ((b - 0xC0) * 64 + (c - 0x80), 1) else none

abbrev within_lead3 : ℕ → ℕ → Bool
within_lead3 b c =
    leb (if b == 0xE0 then 0xA0 else 0x80) c && leb c (if b == 0xED then 0x9F else 0xBF)

decode3 : ℕ → Bytes → Option (ℕ × ℕ)
decode3 b [] = none
decode3 b (c ∷ []) = none
decode3 b (c ∷ d ∷ s) =
    if within_lead3 b c && continues d
    then some ((b - 0xE0) * 4096 + (c - 0x80) * 64 + (d - 0x80), 2)
    else none

abbrev within_lead4 : ℕ → ℕ → Bool
within_lead4 b c =
    leb (if b == 0xF0 then 0x90 else 0x80) c && leb c (if b == 0xF4 then 0x8F else 0xBF)

decode4 : ℕ → Bytes → Option (ℕ × ℕ)
decode4 b [] = none
decode4 b (c ∷ []) = none
decode4 b (c ∷ d ∷ []) = none
decode4 b (c ∷ d ∷ e ∷ s) =
    if within_lead4 b c && continues d && continues e
    then some ((b - 0xF0) * 262144 + (c - 0x80) * 4096 + (d - 0x80) * 64 + (e - 0x80), 3)
    else none

-- utf8.DecodeRune at a lead byte and what follows it: the rune and the number of continuation
-- bytes, or `none` where Go returns (RuneError, 1).
unfoldable pub decode : ℕ → Bytes → Option (ℕ × ℕ)
unfolding decode2 decode3 decode4
decode b s =
    if ltb b 0x80
    then some (b, 0)
    else if ltb b 0xC2
    then none
    else if ltb b 0xE0
    then decode2 b s
    else if ltb b 0xF0
    then decode3 b s
    else if ltb b 0xF5
    then decode4 b s
    else none

-- The first argument counts the continuation bytes still to be passed over.
valid_from : ℕ → Bytes → Bool
valid_from k [] = true
valid_from (suc k) (b ∷ s) = valid_from k s
valid_from zero (b ∷ s) = elim (decode b s) [ none ↦ false | some (r, w) ↦ valid_from w s ]

-- utf8.ValidString.
unfoldable pub valid_string : Bytes → Bool
unfolding valid_from
valid_string = valid_from 0

unfoldable pub runes_from : ℕ → Bytes → List ℕ
runes_from k [] = []
runes_from (suc k) (b ∷ s) = runes_from k s
runes_from zero (b ∷ s) = elim (decode b s) [
  | none ↦ rune_error ∷ runes_from 0 s
  | some (r, w) ↦ r ∷ runes_from w s
]

-- The runes that `range s` visits.
unfoldable pub runes : Bytes → List ℕ
unfolding runes_from
runes = runes_from 0

-- The next k bytes, as far as there are any, are no ASCII.
abbrev HighFor : ℕ → Bytes → Type 0
HighFor zero s = Unit
HighFor (suc k) [] = Unit
HighFor (suc k) (b ∷ s) = (0x80 ≤ b) × HighFor k s

pub decode_ascii : (b : ℕ) (s : Bytes) → b < 0x80 → decode b s ≡ some (b, 0)
unfolding decode
decode_ascii b s h = ground arith

abbrev HighAfter : Option (ℕ × ℕ) → Bytes → Type 0
HighAfter none s = Unit
HighAfter (some (r, w)) s = HighFor w s

decode-HighAfter : (b : ℕ) (s : Bytes) → HighAfter (decode b s) s
unfolding decode
decode-HighAfter b [] = ground arith
decode-HighAfter b (c ∷ []) = ground arith
decode-HighAfter b (c ∷ d ∷ []) = ground arith
decode-HighAfter b (c ∷ d ∷ e ∷ s) = ground arith

-- A lead byte below 0x80 is its rune, and any other gives a rune from 0x80 on.
abbrev AgreesWith : ℕ → Option (ℕ × ℕ) → Type 0
AgreesWith b none = 0x80 ≤ b
AgreesWith b (some (r, w)) = (r ≡ b) ⊎ ((0x80 ≤ b) × (0x80 ≤ r))

decode-AgreesWith : (b : ℕ) (s : Bytes) → AgreesWith b (decode b s)
unfolding decode
decode-AgreesWith b [] = ground arith
decode-AgreesWith b (c ∷ []) = ground arith
decode-AgreesWith b (c ∷ d ∷ []) = ground arith
decode-AgreesWith b (c ∷ d ∷ e ∷ s) = ground arith

module _ (p : ℕ → Bool) (ascii : (r : ℕ) → 0x80 ≤ r → p r ≡ false) where
  any_decoded :
      (b : ℕ) (s : Bytes) (o : Option (ℕ × ℕ))
      → AgreesWith b o
      → HighAfter o s
      → ((k : ℕ) → HighFor k s → any p (runes_from k s) ≡ any p s)
      → any p (elim o [ none ↦ rune_error ∷ runes_from 0 s | some (r, w) ↦ r ∷ runes_from w s ])
        ≡ (p b || any p s)
  any_decoded b s none agrees high later =
      rw (ascii rune_error (omega arith), ascii b agrees) (later 0 tt)
  any_decoded b s (some (r, w)) (inl same) high later = rw (same, later w high)
  any_decoded b s (some (r, w)) (inr (hb, hr)) high later =
      rw (ascii r hr, ascii b hb, later w high)

  any_skipping : (k : ℕ) (s : Bytes) → HighFor k s → any p (runes_from k s) ≡ any p s
  unfolding runes_from
  any_skipping zero [] h = refl
  any_skipping (suc k) [] h = refl
  any_skipping (suc k) (b ∷ s) h = rw (ascii b h.0) (any_skipping k s h.1)
  any_skipping zero (b ∷ s) h =
      any_decoded b s (decode b s) (decode-AgreesWith b s) (decode-HighAfter b s)
        (λ k. any_skipping k s)

  -- A test that only ASCII can pass finds the same among the runes and among the bytes.
  pub any-runes : (s : Bytes) → any p (runes s) ≡ any p s
  unfolding runes
  any-runes s = any_skipping 0 s tt

valid_after_ascii :
    (k : ℕ) (a : Bytes) (c : ℕ) (b : Bytes)
    → c < 0x80
    → HighFor k (a ++ (c ∷ b))
    → valid_from k (a ++ (c ∷ b)) ≡ true
    → valid_from 0 b ≡ true
unfolding valid_from
valid_after_ascii zero [] c b low high h = rw (decode_ascii c b low, valid_from) at h
valid_after_ascii (suc k) [] c b low high h = absurd (omega arith)
valid_after_ascii (suc k) (x ∷ a) c b low high h = valid_after_ascii k a c b low high.1 h
valid_after_ascii zero (x ∷ a) c b low high h =
    go (decode x (a ++ (c ∷ b))) (decode-HighAfter x (a ++ (c ∷ b)))
      (λ w. valid_after_ascii w a c b low) h
  where
    go :
        (o : Option (ℕ × ℕ))
        → HighAfter o (a ++ (c ∷ b))
        → ((w : ℕ)
            → HighFor w (a ++ (c ∷ b))
            → valid_from w (a ++ (c ∷ b)) ≡ true
            → valid_from 0 b ≡ true)
        → elim o [ none ↦ false | some (r, w) ↦ valid_from w (a ++ (c ∷ b)) ] ≡ true
        → valid_from 0 b ≡ true
    go none high later e = cc
    go (some (r, w)) high later e = later w high e

-- What follows an ASCII byte in valid UTF-8 is valid UTF-8.
pub valid_string_after_ascii :
    (a : Bytes) (c : ℕ) (b : Bytes)
    → c < 0x80
    → valid_string (a ++ (c ∷ b)) ≡ true
    → valid_string b ≡ true
unfolding valid_string
valid_string_after_ascii a c b low h = valid_after_ascii 0 a c b low tt h

-- A test that only ASCII can pass holds of all runes exactly when it holds of all bytes.
module _ (p : ℕ → Bool) (ascii : (r : ℕ) → 0x80 ≤ r → p r ≡ false) where
  all_decoded :
      (b : ℕ) (s : Bytes) (o : Option (ℕ × ℕ))
      → AgreesWith b o
      → (b < 0x80 → o ≡ some (b, 0))
      → all p (runes_from 0 s) ≡ all p s
      → all p (elim o [ none ↦ rune_error ∷ runes_from 0 s | some (r, w) ↦ r ∷ runes_from w s ])
        ≡ (p b && all p s)
  all_decoded b s none high low later = rw (ascii rune_error (omega arith), ascii b high)
  all_decoded b s (some (r, w)) (inr (hb, hr)) low later = rw (ascii r hr, ascii b hb)
  all_decoded b s (some (r, w)) (inl same) low later = elim (Bool-cases (ltb b 0x80)) [
    | inl small ↦
        let none_skipped : w ≡ 0 = ground (arith, low (ltb→lt b 0x80 small)) in
        rw (same, none_skipped, later)
    | inr large ↦ let high : p b ≡ false = ascii b (ltb-false b 0x80 large) in rw (same, high)
  ]

  pub all-runes : (s : Bytes) → all p (runes s) ≡ all p s
  unfolding runes runes_from
  all-runes [] = refl
  all-runes (b ∷ s) =
      all_decoded b s (decode b s) (decode-AgreesWith b s) (λ h. decode_ascii b s h) (all-runes s)

-- utf8.AppendRune(nil, r): a surrogate half and a rune above the last give U+FFFD.
unfoldable pub append_rune : ℕ → Bytes
append_rune r =
    if ltb r 0x80
    then r ∷ []
    else if ltb r 0x800
    then (0xC0 + r / 64) ∷ (0x80 + r % 64) ∷ []
    else if ltb 0x10FFFF r || (leb 0xD800 r && leb r 0xDFFF)
    then 0xEF ∷ 0xBF ∷ 0xBD ∷ []
    else if ltb r 0x10000
    then (0xE0 + r / 4096) ∷ (0x80 + r / 64 % 64) ∷ (0x80 + r % 64) ∷ []
    else (0xF0 + r / 262144) ∷ (0x80 + r / 4096 % 64) ∷ (0x80 + r / 64 % 64) ∷ (0x80 + r % 64) ∷ []
