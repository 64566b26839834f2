-- ===== src/Markdown/Codec/Keys/Tables.antt =====
-- markdown/toml.go: scalars and tables in tomlKeyOrder.
use micawber.Go.Sort.Laws.{count-append}
use micawber.Prelude.{
  ◌∙◌, inr, [], arith, ◌++◌, inl, if◌then◌else◌, ◌+◌, Bool-cases, true, ◌≡◌, false, All, ◌∷◌, Bytes,
  Bool, List,
}
use micawber.Markdown.Codec.Keys.{is_toml_table, of_kind, ordered_keys, toml_key_order}
use micawber.Markdown.Codec.Keys.Once.{count-ordered_keys}
use micawber.Core.Value.{Fields, has_key, IsGoMap}
use micawber.Go.Sort.{count}

-- Behind a table there are only tables.
abbrev pub ScalarsFirst : Fields → List Bytes → Type 0
ScalarsFirst fs [] = Unit
ScalarsFirst fs (k ∷ ks) =
    (is_toml_table fs k ≡ true → All (λ j. is_toml_table fs j ≡ true) ks) × ScalarsFirst fs ks

All-of_kind :
    (fs : Fields) (t : Bool) (ks : List Bytes) → All (λ k. is_toml_table fs k ≡ t) (of_kind fs t ks)
unfolding of_kind
All-of_kind fs t [] = tt
All-of_kind fs true (k ∷ ks) = elim (Bool-cases (is_toml_table fs k)) [
  | inl table ↦ rw (table, of_kind) (table, All-of_kind fs true ks)
  | inr scalar ↦ rw (scalar, of_kind) (All-of_kind fs true ks)
]
All-of_kind fs false (k ∷ ks) = elim (Bool-cases (is_toml_table fs k)) [
  | inl table ↦ rw (table, of_kind) (All-of_kind fs false ks)
  | inr scalar ↦ rw (scalar, of_kind) (scalar, All-of_kind fs false ks)
]

ScalarsFirst-tables :
    (fs : Fields) (ts : List Bytes) → All (λ k. is_toml_table fs k ≡ true) ts → ScalarsFirst fs ts
ScalarsFirst-tables fs [] h = tt
ScalarsFirst-tables fs (t ∷ ts) h = (λ _. h.1, ScalarsFirst-tables fs ts h.1)

ScalarsFirst-append :
    (fs : Fields) (ss ts : List Bytes)
    → All (λ k. is_toml_table fs k ≡ false) ss
    → All (λ k. is_toml_table fs k ≡ true) ts
    → ScalarsFirst fs (ss ++ ts)
ScalarsFirst-append fs [] ts h l = ScalarsFirst-tables fs ts l
ScalarsFirst-append fs (s ∷ ss) ts h l = (λ e. cc (h.0, e), ScalarsFirst-append fs ss ts h.1 l)

count-of_kind :
    (fs : Fields) (k : Bytes) (ks : List Bytes)
    → count k (of_kind fs false ks) + count k (of_kind fs true ks) ≡ count k ks
unfolding of_kind count
count-of_kind fs k [] = omega arith
count-of_kind fs k (j ∷ js) = ground (arith, count-of_kind fs k js)

-- Of a map with different keys, whatever the authored keys: tomlKeyOrder returns each key of
-- the map once and no other, and behind a key whose value is a table there are only such keys.
pub toml_key_order-ScalarsFirst :
    (fs : Fields) (authored : List Bytes)
    → IsGoMap fs
    → ScalarsFirst fs (toml_key_order fs authored)
      × ((k : Bytes) → count k (toml_key_order fs authored) ≡ (if has_key k fs then 1 else 0))
unfolding toml_key_order
toml_key_order-ScalarsFirst fs authored h =
    let order = ordered_keys fs authored in
    (
      ScalarsFirst-append fs (of_kind fs false order) (of_kind fs true order)
          (All-of_kind fs false order) (All-of_kind fs true order),
      λ k.
          count-append k (of_kind fs false order) (of_kind fs true order)
          ∙ count-of_kind fs k order
          ∙ count-ordered_keys k fs authored h,
    )
