-- ===== src/Tests/Json.antt =====
-- markdown/json.go at concrete blocks, over a decoder that reads one-byte keys and digits.
use micawber.Core.Errors.{Result, ok, err, not_well_formed_at}
use micawber.Core.FrontMatter.{json}
use micawber.Core.Value.{Value, Fields}
use micawber.Go.Number.{pos, negsuc}
use micawber.Markdown.Json.{
  Library, Token, Read, read, failed, open_brace, string_token, syntax, other_failure, json_indent,
  json_top_level_keys,
}
use micawber.Markdown.Json.Keys.{ReadsOn, AreKeys, json_top_level_keys-returns}
use micawber.Markdown.Lines.{error_line, line_at_offset}
use micawber.Markdown.Scan.{invalid_block}
use micawber.Prelude.{
  suc, ◌+◌, false, refl, [], ◌∷◌, ◌≡◌, codes, some, none, Bytes, ℕ, Bool, if◌then◌else◌, ◌==◌, not,
  length, ◌<◌, ◌≤◌, arith, subst, if-elim, List,
}

abbrev text_at : Bytes → Read (Token × Bytes)
text_at (k ∷ quote ∷ s) = read (string_token (k ∷ []), s)
text_at _ = failed other_failure

abbrev after_comma : Bytes → Read (Token × Bytes)
after_comma (quote ∷ s) = text_at s
after_comma [] = failed other_failure

abbrev token_at : Bytes → Read (Token × Bytes)
token_at (c ∷ s) =
    if c == b'{'
    then read (open_brace, s)
    else if c == b'"'
    then text_at s
    else if c == b','
    then after_comma s
    else failed (syntax (pos 0))
token_at [] = failed other_failure

abbrev value_at : Bytes → Read (Value × Bytes)
value_at (colon ∷ d ∷ s) = read (Value.text (d ∷ []), s)
value_at _ = failed other_failure

abbrev more_at : Bytes → Bool
more_at [] = false
more_at (c ∷ s) = not (c == b'}')

abbrev pub digits_library : Library Bytes
digits_library = record {
  start = λ raw. raw;
  token = token_at;
  more = more_at;
  decode = value_at;
  decode_fields = λ s. read Fields.end;
  marshal = λ v indent. none;
}

abbrev Leaves : {A : Type 0} → ℕ → Read (A × Bytes) → Type 0
Leaves n (failed e) = Unit
Leaves n (read (a, s)) = length s < n

text_at-Leaves : (s : Bytes) (n : ℕ) → length s ≤ n → Leaves n (text_at s)
text_at-Leaves [] n h = tt
text_at-Leaves (k ∷ []) n h = tt
text_at-Leaves (k ∷ quote ∷ s) n h = omega (arith, h)

after_comma-Leaves : (s : Bytes) → Leaves (suc (length s)) (after_comma s)
after_comma-Leaves [] = tt
after_comma-Leaves (quote ∷ s) = text_at-Leaves s (suc (suc (length s))) (omega arith)

token_at-Leaves : (s : Bytes) → Leaves (length s) (token_at s)
token_at-Leaves [] = tt
token_at-Leaves (c ∷ s) =
    let Goes = Leaves (length (c ∷ s)) in
    if-elim Goes (c == b'{') (omega arith) (
      if-elim Goes (c == b'"') (text_at-Leaves s (length (c ∷ s)) (omega arith))
        (if-elim Goes (c == b',') (after_comma-Leaves s) tt))

value_at-Leaves : (s : Bytes) → Leaves (length s + 1) (value_at s)
value_at-Leaves [] = tt
value_at-Leaves (colon ∷ []) = tt
value_at-Leaves (colon ∷ d ∷ s) = omega arith

pub digits_library-ReadsOn : ReadsOn digits_library (λ s. length s)
digits_library-ReadsOn = record {
  started = λ raw. omega arith;
  token_read = λ s t later e. subst (Leaves (length s)) e (token_at-Leaves s);
  value_read = λ s v later e.
      let goes = subst (Leaves (length s + 1)) e (value_at-Leaves s) in omega (arith, goes);
}

-- A key that is there twice.
abbrev pairs : Bytes
pairs = codes "{\"a\":1,\"b\":2,\"a\":3}"

json_top_level_keys-returns_example :
    (out : Result (List Bytes)) × (json_top_level_keys digits_library pairs ≡ some out)
    × AreKeys out
json_top_level_keys-returns_example =
    json_top_level_keys-returns digits_library (λ s. length s) digits_library-ReadsOn pairs

pairs_keys : json_top_level_keys digits_library pairs ≡ some (ok (codes "a" ∷ codes "b" ∷ []))
unfolding json_top_level_keys micawber.Go.Text.equal
pairs_keys = refl

broken_keys :
    json_top_level_keys digits_library (codes "{\"a\":1 \"b\":2}")
    ≡ some (err (invalid_block json (not_well_formed_at 1)))
unfolding json_top_level_keys
broken_keys = refl

tab_indent : json_indent (codes "{\n\t\"a\": 1\n}") ≡ codes "\t"
unfolding json_indent
tab_indent = refl

one_line_indent : json_indent (codes "{\"a\": 1}") ≡ codes "  "
unfolding json_indent
one_line_indent = refl

second_line : line_at_offset (codes "{\n\n}") (pos 2) ≡ 2
unfolding line_at_offset
second_line = refl

before_start : line_at_offset (codes "\n\n") (negsuc 0) ≡ 1
unfolding line_at_offset
before_start = refl

yaml_line : error_line (codes "yaml: line 12: did not find") ≡ some 12
unfolding error_line
yaml_line = refl

no_line : error_line (codes "yaml: line x") ≡ none
unfolding error_line
no_line = refl
