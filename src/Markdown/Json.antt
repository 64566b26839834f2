-- ===== src/Markdown/Json.antt =====
-- markdown/json.go: the JSON codec over the decoder and the encoder of encoding/json.
pub mod Keys
pub mod Fails
use micawber.Core.Errors.{
  not_object, not_string_key, not_well_formed, not_well_formed_at, Result, ok, err, ◌>>=◌, Error,
  cannot_encode,
}
use micawber.Core.FrontMatter.{json}
use micawber.Core.Value.{Value, Fields, lookup}
use micawber.Go.Loop.{loop}
use micawber.Go.Number.{ℤ}
use micawber.Go.Text.{cut}
use micawber.Markdown.Codec.{normalize_lf}
use micawber.Markdown.Codec.Keys.{ordered_keys, mem}
use micawber.Markdown.Lines.{line_at_offset}
use micawber.Markdown.Scan.{invalid_block}
use micawber.Prelude.{
  ◌+◌, length, inr, ◌||◌, is_nil, inl, some, codes, [], ◌==◌, none, Option, ◌⊎◌, ◌++◌,
  if◌then◌else◌, Bool, List, ℕ, Bytes, ◌∷◌,
}

-- A token of the decoder, and its error: a SyntaxError with its offset, or another.
pub data Token : Type 0 where
  open_brace : Token
  string_token : Bytes → Token
  other_token : Token

pub data Failure : Type 0 where
  syntax : ℤ → Failure
  other_failure : Failure

pub data Read (A : Type 0) : Type 0 where
  read : A → Read A
  failed : Failure → Read A

-- json.Decoder with UseNumber, on the text that is still to come, and json.Encoder with
-- SetEscapeHTML(false) and SetIndent(indent, indent), less its line feed.
pub record Library (State : Type 0) : Type 0 where
  pub start : Bytes → State
  pub token : State → Read (Token × State)
  pub more : State → Bool
  pub decode : State → Read (Value × State)
  pub decode_fields : State → Read Fields
  pub marshal : Value → Bytes → Option Bytes

-- jsonInvalid.
unfoldable pub json_invalid : Bytes → Failure → Error
unfolding line_at_offset
json_invalid raw (syntax offset) =
    invalid_block json (not_well_formed_at (line_at_offset raw offset))
json_invalid raw other_failure = invalid_block json not_well_formed

abbrev is_space_or_tab : ℕ → Bool
is_space_or_tab c = c == b' ' || c == 0x09

unfoldable pub leading_blanks : Bytes → Bytes
leading_blanks [] = []
leading_blanks (c ∷ s) = let rest = leading_blanks s in if is_space_or_tab c then c ∷ rest else []

-- jsonIndent.
unfoldable pub json_indent : Bytes → Bytes
unfolding normalize_lf cut leading_blanks
json_indent prev = elim (cut b'\n' (normalize_lf prev)) [
  | none ↦ codes "  "
  | some (first, after) ↦
      let width = leading_blanks after in if is_nil width then codes "  " else width
]

module _ {State : Type 0} (lib : Library State) where
  -- jsonMarshal, with the error that jsonEncode makes of its own.
  marshalled : Value → Bytes → Result Bytes
  marshalled v indent = elim (lib.marshal v indent) [
    | none ↦ err (invalid_block json cannot_encode)
    | some out ↦ ok out
  ]

  -- A missing key gives nil, which is null.
  value_of : Fields → Bytes → Value
  unfolding lookup
  value_of fields key = elim (lookup key fields) [ none ↦ Value.null | some v ↦ v ]

  -- The lines of the loop of jsonEncode.
  unfoldable pub json_lines : Fields → Bytes → List Bytes → Result Bytes
  unfolding marshalled value_of
  json_lines fields indent [] = ok []
  json_lines fields indent (key ∷ order) = do
    name ← marshalled (Value.text key) indent
    value ← marshalled (value_of fields key) indent
    rest ← json_lines fields indent order
    ok (
        indent
        ++ (name
            ++ (codes ": "
                ++ (value ++ ((if is_nil order then [] else codes ",") ++ (b'\n' ∷ rest))))))

  -- jsonEncode.
  unfoldable pub json_encode : Fields → List Bytes → Bytes → Result Bytes
  unfolding json_lines
  json_encode fields order indent = do
    body ← json_lines fields indent order
    ok (b'{' ∷ b'\n' ∷ (body ++ (b'}' ∷ [])))

  -- What one turn of jsonTopLevelKeys does with a value behind its key.
  keep_key :
      Bytes → List Bytes → Bytes → Read (Value × State) → Result (List Bytes) ⊎ (State × List Bytes)
  unfolding json_invalid
  keep_key raw keys key (failed e) = inl (err (json_invalid raw e))
  keep_key raw keys key (read (v, later)) =
      inr (later, if mem key keys then keys else keys ++ (key ∷ []))

  take_key : Bytes → List Bytes → Read (Token × State) → Result (List Bytes) ⊎ (State × List Bytes)
  unfolding json_invalid keep_key
  take_key raw keys (failed e) = inl (err (json_invalid raw e))
  take_key raw keys (read (string_token key, later)) = keep_key raw keys key (lib.decode later)
  take_key raw keys (read (open_brace, later)) = inl (err (invalid_block json not_string_key))
  take_key raw keys (read (other_token, later)) = inl (err (invalid_block json not_string_key))

  -- One turn of the loop, on the decoder and the keys so far.
  unfoldable pub key_turn : Bytes → State × List Bytes → Result (List Bytes) ⊎ (State × List Bytes)
  unfolding take_key
  key_turn raw (state, keys) =
      if lib.more state then take_key raw keys (lib.token state) else inl (ok keys)

  opened_keys : Bytes → Read (Token × State) → Option (Result (List Bytes))
  unfolding loop key_turn json_invalid
  opened_keys raw (failed e) = some (err (json_invalid raw e))
  opened_keys raw (read (open_brace, state)) = loop (key_turn raw) (length raw + 1) (state, [])
  opened_keys raw (read (string_token s, state)) = some (err (invalid_block json not_object))
  opened_keys raw (read (other_token, state)) = some (err (invalid_block json not_object))

  -- jsonTopLevelKeys, in at most one turn more than the block has bytes.
  unfoldable pub json_top_level_keys : Bytes → Option (Result (List Bytes))
  unfolding opened_keys
  json_top_level_keys raw = opened_keys raw (lib.token (lib.start raw))

  -- jsonCodec.decode; the nil map and the empty one are not told apart.
  unfoldable pub decode : Bytes → Result Fields
  unfolding json_invalid
  decode raw = elim (lib.decode_fields (lib.start raw)) [
    | failed e ↦ err (json_invalid raw e)
    | read fields ↦ ok fields
  ]

  -- jsonCodec.encode.
  unfoldable pub encode : Fields → Bytes → Option (Result Bytes)
  unfolding json_top_level_keys json_encode ordered_keys json_indent
  encode fields prev = elim (if is_nil prev then some (ok []) else json_top_level_keys prev) [
    | none ↦ none
    | some authored ↦
        some (authored >>= λ keys. json_encode fields (ordered_keys fields keys) (json_indent prev))
  ]
