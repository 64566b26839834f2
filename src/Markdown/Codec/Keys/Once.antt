-- ===== src/Markdown/Codec/Keys/Once.antt =====
-- markdown/codec.go: how often orderedKeys returns a key.
use micawber.Go.Text.{equal_iff, equal}
use micawber.Go.Sort.Laws.{count-sort, count-append}
use micawber.Prelude.{
  sym, false, ◌+◌, inr, ap, ◌∙◌, inl, Bool-cases, [], arith, ◌∷◌, not, refl, ltb, ◌&&◌,
  if◌then◌else◌, ◌≡◌, List, ℕ, Bytes, Bool,
}
use micawber.Markdown.Codec.Keys.{mem, surviving, unseen, ordered_keys}
use micawber.Core.Value.{Fields, keys, has_key, IsGoMap}
use micawber.Go.Sort.{sort, count}

-- 1 for true.
abbrev pub one_if : Bool → ℕ
one_if b = if b then 1 else 0

pub count-surviving :
    (k : Bytes) (fs : Fields) (seen authored : List Bytes)
    → count k (surviving fs seen authored)
      ≡ one_if (has_key k fs && (not (mem k seen) && mem k authored))
unfolding surviving count
count-surviving k fs seen [] = ground arith
count-surviving k fs seen (j ∷ js) =
    let emitted = count-surviving k fs (j ∷ seen) js in
    let skipped = count-surviving k fs seen js in
    elim (Bool-cases (equal j k)) [
      | inl same ↦
          let e : j ≡ k = (equal_iff j k).0 same in
          let in_map : has_key j fs ≡ has_key k fs = ap (λ z. has_key z fs) e in
          let was_seen : mem j seen ≡ mem k seen = ap (λ z. mem z seen) e in
          ground (arith, emitted, skipped, in_map, was_seen, same)
      | inr other ↦ ground (arith, emitted, skipped, other)
    ]

pub mem-count : (k : Bytes) (xs : List Bytes) → mem k xs ≡ ltb 0 (count k xs)
unfolding count
mem-count k [] = refl
mem-count k (x ∷ xs) = ground (arith, mem-count k xs)

pub count-unseen :
    (k : Bytes) (seen xs : List Bytes)
    → count k (unseen seen xs) ≡ (if mem k seen then 0 else count k xs)
unfolding unseen count
count-unseen k seen [] = ground arith
count-unseen k seen (x ∷ xs) = elim (Bool-cases (equal x k)) [
  | inl same ↦
      let was_seen : mem x seen ≡ mem k seen = ap (λ z. mem z seen) ((equal_iff x k).0 same) in
      ground (arith, count-unseen k seen xs, was_seen, same)
  | inr other ↦ ground (arith, count-unseen k seen xs, other)
]

count-keys : (k : Bytes) (fs : Fields) → IsGoMap fs → count k (keys fs) ≡ one_if (has_key k fs)
unfolding count
count-keys k Fields.end h = refl
count-keys k (Fields.field j v fs) h = elim (Bool-cases (equal j k)) [
  | inl same ↦
      let once : has_key k fs ≡ false =
        ap (λ z. has_key z fs) (sym ((equal_iff j k).0 same)) ∙ h.0 in
      ground (arith, count-keys k fs h.2, once, same)
  | inr other ↦ ground (arith, count-keys k fs h.2, other)
]

-- Of a map with different keys, whatever the authored keys: orderedKeys returns each key of the
-- map once, and no other.
pub count-ordered_keys :
    (k : Bytes) (fs : Fields) (authored : List Bytes)
    → IsGoMap fs
    → count k (ordered_keys fs authored) ≡ (if has_key k fs then 1 else 0)
unfolding ordered_keys
count-ordered_keys k fs authored h =
    let kept = surviving fs [] authored in
    let c = count-surviving k fs [] authored in
    let m = mem-count k kept in
    let u = count-unseen k kept (keys fs) in
    count-append k kept (sort (unseen kept (keys fs)))
    ∙ ap (λ n. count k kept + n) (count-sort k (unseen kept (keys fs)))
    ∙ ground (arith, c, m, u, count-keys k fs h)
