-- ===== src/Markdown/Toml/Returns.antt =====
-- markdown/toml.go: the loop of tomlTopLevelKeys.
use micawber.Go.Text.{equal_iff, equal}
use micawber.Go.Sort.Laws.{count-append}
use micawber.Prelude.{
  subst, refl, none, ◌∙◌, sym, ap, ◌==◌, ◌||◌, [], false, if-elim, arith, ◌<◌, suc, inr, some,
  length, ◌∷◌, inl, ◌≡◌, Option, ◌⊎◌, Bool-cases, ◌≤◌, ℕ, Bytes, List,
}
use micawber.Go.Loop.{loop_returns}
use micawber.Markdown.Toml.{is_blank}
use micawber.Markdown.Toml.Keys.{
  KeyScan, record_key, line_step, keys_step_at, keys_step, top_level_keys, dotted_key, header_name,
}
use micawber.Markdown.Toml.Bounds.{skip_line-le, header_name-le, dotted_key-lt, skip_value-le}
use micawber.Markdown.Codec.{normalize_lf}
use micawber.Markdown.Codec.Keys.{mem}
use micawber.Markdown.Codec.Keys.Once.{mem-count}
use micawber.Go.Sort.{count}

-- No key twice.
abbrev pub AreDifferent : List Bytes → Type 0
AreDifferent ks = (k : Bytes) → count k ks ≤ 1

record_key-AreDifferent :
    (name : Bytes) (order : List Bytes) → AreDifferent order → AreDifferent (record_key name order)
unfolding record_key count
record_key-AreDifferent name order h k = elim (Bool-cases (mem name order)) [
  | inl met ↦ rw (met, record_key) (h k)
  | inr fresh ↦
      rw (fresh, record_key, count-append k order (name ∷ []))
        (elim (Bool-cases (equal name k)) [
          | inl same ↦
              let absent : mem k order ≡ false =
                ap (λ z. mem z order) (sym ((equal_iff name k).0 same)) ∙ fresh in
              ground (arith, h k, absent, mem-count k order, same)
          | inr other ↦ ground (arith, h k, other)
        ])
]

-- What a turn that goes on with `later` owes.
abbrev Advances : KeyScan → ℕ → List Bytes ⊎ KeyScan → Type 0
Advances st n (inl order) = AreDifferent st.order → AreDifferent order
Advances st n (inr later) =
    (length later.rest < n) × (AreDifferent st.order → AreDifferent later.order)

line_step-Advances :
    (st : KeyScan) (c : ℕ) (s : Bytes) (line : Option (Bytes × Bytes))
    → st.rest ≡ c ∷ s
    → dotted_key (c ∷ s) ≡ line
    → Advances st (suc (length s)) (line_step st line)
unfolding line_step
line_step-Advances st c s none e h = (rw e (omega (arith, skip_line-le c s)), λ d. d)
line_step-Advances st c s (some (name, value)) e h =
    let (rest, skipped, within) = skip_value-le value in
    let behind = dotted_key-lt (c ∷ s) name value h in
    rw (skipped, Advances, line_step)
      (
        omega (arith, within, behind),
        λ d. if-elim AreDifferent st.in_table d (record_key-AreDifferent name st.order d),
      )

keys_step_at-Advances :
    (st : KeyScan) (s : Bytes) → st.rest ≡ s → Advances st (length s) (keys_step_at st s)
unfolding keys_step_at
keys_step_at-Advances st [] e = λ d. d
keys_step_at-Advances st (c ∷ s) e =
    let Goes = Advances st (suc (length s)) in
    if-elim Goes (is_blank c || c == b'\r' || c == b'\n') (omega arith, λ d. d)
      (if-elim Goes (c == b'#') (omega (arith, skip_line-le c s), λ d. d)
        (if-elim Goes (c == b'[')
          (omega (arith, header_name-le s), record_key-AreDifferent (header_name s).0 st.order)
          (line_step-Advances st c s (dotted_key (c ∷ s)) e refl)))

turn : (st : KeyScan) → Advances st (length st.rest) (keys_step st)
unfolding keys_step
turn st = keys_step_at-Advances st st.rest refl

-- tomlTopLevelKeys returns on every input, well-formed TOML or not: a turn of its loop for each
-- byte and one more suffice. No key stands in the result twice.
pub top_level_keys-returns :
    (raw : Bytes) → (order : List Bytes) × (top_level_keys raw ≡ some order) × AreDifferent order
unfolding top_level_keys count
top_level_keys-returns raw =
    let b = normalize_lf raw in
    loop_returns keys_step (λ st. length st.rest) (λ st. AreDifferent st.order) AreDifferent
      (λ st later e. (subst (Advances st (length st.rest)) e (turn st)).0)
      (λ st later d e. (subst (Advances st (length st.rest)) e (turn st)).1 d)
      (λ st order d e. subst (Advances st (length st.rest)) e (turn st) d) (suc (length b))
      (record { in_table = false; order = []; rest = b }) (omega arith) (λ k. none_met k)
  where
    none_met : (k : Bytes) → count k [] ≤ 1
    none_met k = omega arith
