-- ===== src/Markdown/Toml/Keys.antt =====
-- markdown/toml.go: from the key of a line to the top-level keys of a block.
use micawber.Go.Text.{equal, has_prefix}
use micawber.Prelude.{
  zero, min, leb, not, true, ◌+◌, ◌-◌, ◌||◌, ◌&&◌, drop, some, inr, ◌++◌, [], false, ◌==◌, codes,
  inl, length, none, suc, ◌∷◌, if◌then◌else◌, ◌⊎◌, List, Option, Bool, ℕ, Bytes,
}
use micawber.Go.Loop.{loop}
use micawber.Markdown.Toml.{is_blank, skip_line, skip_blanks, key_part}
use micawber.Markdown.Codec.{normalize_lf}
use micawber.Markdown.Codec.Keys.{mem}

-- What a loop over a text returns when it is given a turn for each byte and one more.
abbrev pub scan_all {ℓ} : {Out : Type ℓ} → (Bytes → Out ⊎ Bytes) → Bytes → Option Out
scan_all step s = loop step (suc (length s)) s

-- The part behind a dot; without one, or at anything but "=", the line holds no key.
unfoldable pub after_key_step : Bytes → Option Bytes ⊎ Bytes
unfolding key_part skip_blanks
after_key_step [] = inl none
after_key_step (c ∷ s) =
    if is_blank c
    then inr s
    else if c == b'.'
    then (let part = skip_blanks s in
        let rest = (key_part part).1 in if length rest == length part then inl none else inr rest)
    else if c == b'='
    then inl (some s)
    else inl none

-- tomlDottedKey: the first part and what follows the "=".
unfoldable pub dotted_key : Bytes → Option (Bytes × Bytes)
unfolding key_part after_key_step loop
dotted_key s =
    let (first, rest) = key_part s in
    if length rest == length s then none else elim (scan_all after_key_step rest) [
      | none ↦ none
      | some none ↦ none
      | some (some value) ↦ some (first, value)
    ]

-- tomlHeaderName at a "[" behind which `s` stands.
unfoldable pub header_name : Bytes → Bytes × Bytes
unfolding key_part skip_blanks skip_line has_prefix
header_name s =
    let (name, rest) = key_part (skip_blanks (if has_prefix s (codes "[") then drop 1 s else s)) in
    (name, skip_line rest)

-- `for run < len(b) && b[run] == quote`
unfoldable pub quote_run : ℕ → Bytes → ℕ
quote_run quote [] = 0
quote_run quote (c ∷ s) = let rest = quote_run quote s in if c == quote then suc rest else 0

-- tomlSkipMultilineString; the number says how many bytes that were read are still to pass.
unfoldable pub skip_multiline : ℕ → ℕ → Bytes → Bytes
unfolding quote_run
skip_multiline quote passed [] = []
skip_multiline quote (suc passed) (c ∷ s) = skip_multiline quote passed s
skip_multiline quote zero (c ∷ s) =
    let run = quote_run quote (c ∷ s) in
    let escapes = quote == b'"' && c == b'\\' in
    let rest = skip_multiline quote (if escapes then 1 else run - 1) s in
    if not escapes && leb 3 run then drop (min run 5) (c ∷ s) else rest

-- The rest behind the closing quote of a string on one line; the flag says that the byte is escaped.
unfoldable pub string_end : ℕ → Bool → Bytes → Option Bytes
string_end quote escaped [] = none
string_end quote true (c ∷ s) = string_end quote false s
string_end quote false (c ∷ s) =
    let rest = string_end quote (quote == b'"' && c == b'\\') s in
    if c == b'\n' then none else if c == quote then some s else rest

-- tomlSkipString at a quote behind which `s` stands.
unfoldable pub skip_string : ℕ → Bytes → Bytes
unfolding skip_multiline string_end skip_line has_prefix
skip_string quote s =
    if has_prefix s (quote ∷ quote ∷ [])
    then skip_multiline quote 0 (drop 2 s)
    else elim (string_end quote false s) [ none ↦ skip_line (quote ∷ s) | some rest ↦ rest ]

-- One turn of tomlSkipValue, at a depth of brackets.
unfoldable pub value_step : ℕ × Bytes → Bytes ⊎ (ℕ × Bytes)
unfolding skip_string skip_line
value_step (depth, []) = inl []
value_step (depth, c ∷ s) =
    if c == b'\n'
    then (if depth == 0 then inl s else inr (depth, s))
    else if c == b'#'
    then (if depth == 0 then inl (skip_line (c ∷ s)) else inr (depth, skip_line (c ∷ s)))
    else if c == b'"' || c == b'\''
    then inr (depth, skip_string c s)
    else if c == b'[' || c == b'{'
    then inr (depth + 1, s)
    else if c == b']' || c == b'}'
    then inr (depth - 1, s)
    else inr (depth, s)

-- tomlSkipValue.
unfoldable pub skip_value : Bytes → Option Bytes
unfolding value_step loop
skip_value s = loop value_step (suc (length s)) (0, s)

-- The state of tomlTopLevelKeys: whether a header was met, the keys in order, the text to come.
pub record KeyScan : Type 0 where
  pub in_table : Bool
  pub order : List Bytes
  pub rest : Bytes

-- `record`
unfoldable pub record_key : Bytes → List Bytes → List Bytes
unfolding equal
record_key name order = if mem name order then order else order ++ (name ∷ [])

-- A line with a key; without one the line is dropped.
unfoldable pub line_step : KeyScan → Option (Bytes × Bytes) → List Bytes ⊎ KeyScan
unfolding record_key skip_value skip_line
line_step st none = inr (record st { rest = skip_line st.rest })
line_step st (some (name, value)) = elim (skip_value value) [
  | none ↦ inl st.order
  | some rest ↦ inr (record {
    in_table = st.in_table;
    order = if st.in_table then st.order else record_key name st.order;
    rest = rest;
  })
]

unfoldable pub keys_step_at : KeyScan → Bytes → List Bytes ⊎ KeyScan
unfolding line_step dotted_key header_name
keys_step_at st [] = inl st.order
keys_step_at st (c ∷ s) =
    if is_blank c || c == b'\r' || c == b'\n'
    then inr (record st { rest = s })
    else if c == b'#'
    then inr (record st { rest = skip_line (c ∷ s) })
    else if c == b'['
    then (let (name, rest) = header_name s in
        inr (record { in_table = true; order = record_key name st.order; rest = rest }))
    else line_step st (dotted_key (c ∷ s))

-- One turn of tomlTopLevelKeys.
unfoldable pub keys_step : KeyScan → List Bytes ⊎ KeyScan
unfolding keys_step_at
keys_step st = keys_step_at st st.rest

-- tomlTopLevelKeys.
unfoldable pub top_level_keys : Bytes → Option (List Bytes)
unfolding keys_step loop normalize_lf
top_level_keys raw =
    let b = normalize_lf raw in
    loop keys_step (suc (length b)) (record { in_table = false; order = []; rest = b })
