-- ===== src/Markdown/Json/Keys.antt =====
-- markdown/json.go: the loop of jsonTopLevelKeys.
use micawber.Prelude.{
  subst, refl, ◌∙◌, sym, ap, [], false, true, arith, ◌<◌, inr, some, length, ◌∷◌, inl, ◌≡◌, ◌⊎◌,
  Bool-cases, ◌≤◌, ◌+◌, ℕ, Bytes, List, ◌++◌, if-elim, if◌then◌else◌,
}
use micawber.Core.Errors.{Result, ok, err, is, invalid_value}
use micawber.Core.Value.{Value}
use micawber.Go.Loop.{loop_returns}
use micawber.Go.Sort.Laws.{count-append}
use micawber.Go.Sort.{count}
use micawber.Go.Text.{equal_iff, equal}
use micawber.Markdown.Codec.Keys.{mem}
use micawber.Markdown.Codec.Keys.Once.{mem-count}
use micawber.Markdown.Json.{
  Library, Token, Read, read, failed, Failure, json_invalid, keep_key, take_key, key_turn,
  opened_keys, json_top_level_keys, open_brace, string_token, other_token, syntax, other_failure,
}
use micawber.Markdown.Toml.Returns.{AreDifferent}

-- What is used of the decoder: a token takes up at least one byte of what is left of the text, and
-- a value gives none back.
pub record ReadsOn {State : Type 0} (lib : Library State) (left : State → ℕ) : Type 0 where
  pub started : (raw : Bytes) → left (lib.start raw) ≤ length raw
  pub token_read :
      (s : State) (t : Token) (later : State) → lib.token s ≡ read (t, later) → left later < left s
  pub value_read :
      (s : State) (v : Value) (later : State) → lib.decode s ≡ read (v, later) → left later ≤ left s

-- What a call owes: no key twice, or an error that matches ErrInvalid.
abbrev pub AreKeys : Result (List Bytes) → Type 0
AreKeys (ok keys) = AreDifferent keys
AreKeys (err e) = is e invalid_value ≡ true

pub json_invalid-is : (raw : Bytes) (e : Failure) → is (json_invalid raw e) invalid_value ≡ true
unfolding json_invalid is
json_invalid-is raw (syntax offset) = refl
json_invalid-is raw other_failure = refl

appended-AreDifferent :
    (key : Bytes) (keys : List Bytes)
    → AreDifferent keys
    → AreDifferent (if mem key keys then keys else keys ++ (key ∷ []))
unfolding count
appended-AreDifferent key keys h k = elim (Bool-cases (mem key keys)) [
  | inl met ↦ rw met (h k)
  | inr fresh ↦
      rw (fresh, count-append k keys (key ∷ []))
        (elim (Bool-cases (equal key k)) [
          | inl same ↦
              let absent : mem k keys ≡ false =
                ap (λ z. mem z keys) (sym ((equal_iff key k).0 same)) ∙ fresh in
              ground (arith, h k, absent, mem-count k keys, same)
          | inr other ↦ ground (arith, h k, other)
        ])
]

module _ {State : Type 0} (lib : Library State) (left : State → ℕ) (laws : ReadsOn lib left) where
  -- What a turn at a decoder with `n` bytes left and `keys` so far owes.
  abbrev Advances : ℕ → List Bytes → Result (List Bytes) ⊎ (State × List Bytes) → Type 0
  Advances n keys (inl out) = AreDifferent keys → AreKeys out
  Advances n keys (inr (later, more)) = (left later < n) × (AreDifferent keys → AreDifferent more)

  keep_key-Advances :
      (raw : Bytes) (keys : List Bytes) (key : Bytes) (n : ℕ) (s : State) (r : Read (Value × State))
      → left s < n
      → lib.decode s ≡ r
      → Advances n keys (keep_key lib raw keys key r)
  unfolding keep_key
  keep_key-Advances raw keys key n s (failed e) h eq = λ d. json_invalid-is raw e
  keep_key-Advances raw keys key n s (read (v, later)) h eq =
      (omega (arith, h, laws.value_read s v later eq), appended-AreDifferent key keys)

  take_key-Advances :
      (raw : Bytes) (keys : List Bytes) (s : State) (r : Read (Token × State))
      → lib.token s ≡ r
      → Advances (left s) keys (take_key lib raw keys r)
  unfolding take_key is
  take_key-Advances raw keys s (failed e) eq = λ d. json_invalid-is raw e
  take_key-Advances raw keys s (read (string_token key, later)) eq =
      keep_key-Advances raw keys key (left s) later (lib.decode later)
        (laws.token_read s (string_token key) later eq) refl
  take_key-Advances raw keys s (read (open_brace, later)) eq = λ d. refl
  take_key-Advances raw keys s (read (other_token, later)) eq = λ d. refl

  turn :
      (raw : Bytes) (s : State) (keys : List Bytes)
      → Advances (left s) keys (key_turn lib raw (s, keys))
  unfolding key_turn
  turn raw s keys =
      if-elim (Advances (left s) keys) (lib.more s)
        (take_key-Advances raw keys s (lib.token s) refl) (λ d. d)

  opened_keys-returns :
      (raw : Bytes) (s : State) (r : Read (Token × State))
      → left s ≤ length raw
      → lib.token s ≡ r
      → (out : Result (List Bytes)) × (opened_keys lib raw r ≡ some out) × AreKeys out
  unfolding opened_keys is count
  opened_keys-returns raw s (failed e) h eq =
      (err (json_invalid raw e), refl, json_invalid-is raw e)
  opened_keys-returns raw s (read (open_brace, later)) h eq =
      loop_returns (key_turn lib raw) (λ st. left st.0) (λ st. AreDifferent st.1) AreKeys
        (λ st next e. (subst (Advances (left st.0) st.1) e (turn raw st.0 st.1)).0)
        (λ st next d e. (subst (Advances (left st.0) st.1) e (turn raw st.0 st.1)).1 d)
        (λ st out d e. subst (Advances (left st.0) st.1) e (turn raw st.0 st.1) d) (length raw + 1)
        (later, []) (omega (arith, h, laws.token_read s open_brace later eq)) (λ k. none_met k)
    where
      none_met : (k : Bytes) → count k [] ≤ 1
      none_met k = omega arith
  opened_keys-returns raw s (read (string_token k, later)) h eq = (_, refl, refl)
  opened_keys-returns raw s (read (other_token, later)) h eq = (_, refl, refl)

  -- jsonTopLevelKeys returns on every block, well-formed JSON or not, in at most one turn more than
  -- the block has bytes, when the decoder reads on. It names no key twice, or fails with an error
  -- that matches ErrInvalid.
  pub json_top_level_keys-returns :
      (raw : Bytes)
      → (out : Result (List Bytes)) × (json_top_level_keys lib raw ≡ some out) × AreKeys out
  unfolding json_top_level_keys
  json_top_level_keys-returns raw =
      opened_keys-returns raw (lib.start raw) (lib.token (lib.start raw)) (laws.started raw) refl
