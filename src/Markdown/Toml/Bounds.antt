-- ===== src/Markdown/Toml/Bounds.antt =====
-- markdown/toml.go: how far each part of the scanner moves.
use micawber.Go.Text.{has_prefix}
use micawber.Prelude.{
  min, refl, leb, ◌∙◌, ap, not, none, Option, Bool-cases, ◌-◌, Option-cases, ◌&&◌, ◌<◌, inl, inr,
  ◌==◌, if-elim, length-drop, drop, true, zero, codes, [], false, suc, some, if◌then◌else◌, arith,
  ◌≡◌, ◌≤◌, ◌∷◌, Bool, length, Bytes, ℕ,
}
use micawber.Go.Loop.{loop_returns}
use micawber.Markdown.Toml.{skip_line, skip_blanks, quoted, literal, bare, key_part}
use micawber.Markdown.Toml.Keys.{
  after_key_step, header_name, quote_run, skip_multiline, string_end, skip_string, value_step,
  skip_value, dotted_key, scan_all,
}

pub skip_line-le : (c : ℕ) (s : Bytes) → length (skip_line (c ∷ s)) ≤ length s
unfolding skip_line
skip_line-le c [] = ground arith
skip_line-le c (d ∷ s) = ground (arith, skip_line-le d s)

skip_line-le_all : (s : Bytes) → length (skip_line s) ≤ length s
unfolding skip_line
skip_line-le_all [] = omega arith
skip_line-le_all (c ∷ s) = omega (arith, skip_line-le c s)

skip_blanks-le : (s : Bytes) → length (skip_blanks s) ≤ length s
unfolding skip_blanks
skip_blanks-le [] = omega arith
skip_blanks-le (c ∷ s) = ground (arith, skip_blanks-le s)

quoted-le : (skip : ℕ) (s : Bytes) → length (quoted skip s).1 ≤ length s
unfolding quoted
quoted-le skip [] = omega arith
quoted-le (suc skip) (c ∷ s) = omega (arith, quoted-le skip s)
quoted-le zero (c ∷ s) =
    let Fits : Bytes × Bytes → Type 0 = λ r. length r.1 ≤ suc (length s) in
    if-elim Fits (c == b'"') (omega arith)
      (if-elim Fits (c == b'\n') (omega arith) (omega (arith, quoted-le _ s)))

literal-le : (s : Bytes) → length (literal s).1 ≤ length s
unfolding literal
literal-le [] = omega arith
literal-le (c ∷ s) = ground (arith, literal-le s)

bare-le : (s : Bytes) → length (bare s).1 ≤ length s
unfolding bare
bare-le [] = omega arith
bare-le (c ∷ s) = ground (arith, bare-le s)

key_part-le : (s : Bytes) → length (key_part s).1 ≤ length s
unfolding key_part
key_part-le [] = omega arith
key_part-le (c ∷ s) = ground (arith, quoted-le 0 s, literal-le s, bare-le (c ∷ s))

pub header_name-le : (s : Bytes) → length (header_name s).1 ≤ length s
unfolding header_name
header_name-le s =
    let inner = if has_prefix s (codes "[") then drop 1 s else s in
    let part = skip_blanks inner in
    let inside : length inner ≤ length s = ground (arith, length-drop 1 s) in
    omega
      (arith, inside, skip_blanks-le inner, key_part-le part, skip_line-le_all (key_part part).1)

skip_multiline-le :
    (quote passed : ℕ) (s : Bytes) → length (skip_multiline quote passed s) ≤ length s
unfolding skip_multiline
skip_multiline-le quote passed [] = omega arith
skip_multiline-le quote (suc passed) (c ∷ s) = omega (arith, skip_multiline-le quote passed s)
skip_multiline-le quote zero (c ∷ s) =
    let run = quote_run quote (c ∷ s) in
    let escapes = quote == b'"' && c == b'\\' in
    let passes = if escapes then 1 else run - 1 in
    if-elim (λ r. length r ≤ suc (length s)) (not escapes && leb 3 run)
      {x = drop (min run 5) (c ∷ s)} {y = skip_multiline quote passes s}
      (omega (arith, length-drop (min run 5) (c ∷ s)))
      (omega (arith, skip_multiline-le quote passes s))

string_end-le :
    (quote : ℕ) (escaped : Bool) (s : Bytes) {rest : Bytes}
    → string_end quote escaped s ≡ some rest
    → length rest ≤ length s
unfolding string_end
string_end-le quote escaped [] h = cc
string_end-le quote true (c ∷ s) h = omega (arith, string_end-le quote false s h)
string_end-le quote false (c ∷ s) {rest} h =
    let escapes = quote == b'"' && c == b'\\' in
    let later = string_end-le quote escapes s {rest = rest} in
    elim (Bool-cases (c == b'\n')) [
      | inl ends ↦ cc (rw (ends, string_end) at h)
      | inr more ↦ elim (Bool-cases (c == quote)) [
        | inl closes ↦
            let same : s ≡ rest = cc (rw (more, closes, string_end) at h) in
            omega (arith, ap (λ z. length z) same)
        | inr inside ↦ omega (arith, later (rw (more, inside, string_end) at h))
      ]
    ]

pub skip_string-le : (quote : ℕ) (s : Bytes) → length (skip_string quote s) ≤ length s
unfolding skip_string
skip_string-le quote s =
    let unmatched : Bytes = elim (string_end quote false s) [
      | none ↦ skip_line (quote ∷ s)
      | some rest ↦ rest
    ] in
    if-elim (λ r. length r ≤ length s) (has_prefix s (quote ∷ quote ∷ []))
      {x = skip_multiline quote 0 (drop 2 s)} {y = unmatched}
      (omega (arith, skip_multiline-le quote 0 (drop 2 s), length-drop 2 s))
      (elim (Option-cases (string_end quote false s)) [
        | inl unclosed ↦ rw unclosed (skip_line-le quote s)
        | inr (rest, found) ↦ rw found (string_end-le quote false s found)
      ])

-- What a turn of tomlDottedKey's loop does to the text.
after_key_step-lt : (s later : Bytes) → after_key_step s ≡ inr later → length later < length s
unfolding after_key_step
after_key_step-lt [] later h = cc
after_key_step-lt (c ∷ s) later h = ground (arith, skip_blanks-le s, key_part-le (skip_blanks s))

after_key_step-le : (s : Bytes) (v : Bytes) → after_key_step s ≡ inl (some v) → length v < length s
unfolding after_key_step
after_key_step-le [] v h = cc
after_key_step-le (c ∷ s) v h = ground arith

-- tomlDottedKey's loop ends, behind the text that it started at.
pub after_key-returns :
    (s : Bytes)
    → (out : Option Bytes) × (scan_all after_key_step s ≡ some out)
      × ((v : Bytes) → out ≡ some v → length v ≤ length s)
after_key-returns s =
    loop_returns after_key_step (λ st. length st) (λ st. length st ≤ length s)
      (λ o. (v : Bytes) → o ≡ some v → length v ≤ length s) after_key_step-lt
      (λ st later k e. omega (arith, k, after_key_step-lt st later e))
      (λ st o k e v f. omega (arith, k, after_key_step-le st v (e ∙ ap inl f))) (suc (length s)) s
      (omega arith) (omega arith)

-- tomlDottedKey ends, and the value lies behind the key.
pub dotted_key-lt :
    (s name value : Bytes) → dotted_key s ≡ some (name, value) → length value < length s
unfolding dotted_key
dotted_key-lt s name value h =
    let rest = (key_part s).1 in
    let (out, left, ends) = after_key-returns rest in
    elim (Bool-cases (length rest == length s)) [
      | inl nothing ↦ cc (rw (nothing, dotted_key) at h)
      | inr moved ↦
          let lt : length rest < length s = ground (arith, key_part-le s) in
          go out (rw (moved, left, dotted_key) at h) ends lt
    ]
  where
    go :
        (out : Option Bytes)
        → (elim (some out) as (λ _. Option (Bytes × Bytes)) [
          | none ↦ none
          | some none ↦ none
          | some (some v) ↦ some ((key_part s).0, v)
        ])
          ≡ some (name, value)
        → ((v : Bytes) → out ≡ some v → length v ≤ length (key_part s).1)
        → length (key_part s).1 < length s
        → length value < length s
    go none e ends lt = cc
    go (some v) e ends lt =
        let same : v ≡ value = cc e in omega (arith, lt, ends v refl, ap (λ z. length z) same)

value_step-lt : (st later : ℕ × Bytes) → value_step st ≡ inr later → length later.1 < length st.1
unfolding value_step
value_step-lt (depth, []) later h = cc
value_step-lt (depth, c ∷ s) later h = ground (arith, skip_line-le c s, skip_string-le c s)

value_step-le :
    (st : ℕ × Bytes) (rest : Bytes) → value_step st ≡ inl rest → length rest ≤ length st.1
unfolding value_step
value_step-le (depth, []) rest h = ground arith
value_step-le (depth, c ∷ s) rest h = ground (arith, skip_line-le c s)

-- tomlSkipValue ends, within the block.
pub skip_value-le :
    (s : Bytes) → (rest : Bytes) × (skip_value s ≡ some rest) × (length rest ≤ length s)
unfolding skip_value
skip_value-le s =
    loop_returns value_step (λ st. length st.1) (λ st. length st.1 ≤ length s)
      (λ r. length r ≤ length s) value_step-lt
      (λ st later k e. omega (arith, k, value_step-lt st later e))
      (λ st r k e. omega (arith, k, value_step-le st r e)) (suc (length s)) (0, s) (omega arith)
      (omega arith)
