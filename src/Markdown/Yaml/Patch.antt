-- ===== src/Markdown/Yaml/Patch.antt =====
-- markdown/yaml.go: the entries of a patched block.
use micawber.Core.Errors.{◌>>=◌, Result, ok, err, >>=-eq-ok}
use micawber.Core.Value.{Value, Fields, lookup, has_key, IsGoMap}
use micawber.Go.Sort.Laws.{count-append}
use micawber.Go.Sort.{count}
use micawber.Go.Text.{equal}
use micawber.Markdown.Codec.Keys.{mem, surviving, unseen, ordered_keys}
use micawber.Markdown.Codec.Keys.Once.{mem-count, count-surviving, count-unseen, count-ordered_keys}
use micawber.Markdown.Yaml.{
  Library, edited_entry, edited_value, patch_authored, patch_added, yaml_patch, yaml_value,
  field_value, yaml_mapping, authored_content,
}
use micawber.Prelude.{
  refl, ap, ◌∙◌, ◌≡◌, subst, none, some, [], ◌∷◌, ◌++◌, ◌||◌, arith, inl, inr, true, false,
  if◌then◌else◌, Option, Bool, List, Bytes, Bool-cases,
}

lookup-has_key :
    (k : Bytes) (fs : Fields) → has_key k fs ≡ (elim (lookup k fs) [ none ↦ false | some v ↦ true ])
unfolding lookup
lookup-has_key k Fields.end = refl
lookup-has_key k (Fields.field j v fs) = elim (Bool-cases (equal j k)) [
  | inl same ↦ rw (same, lookup) refl
  | inr other ↦ rw (other, lookup) (lookup-has_key k fs)
]

module _ {Node : Type 0} (lib : Library Node) where
  -- The names of the keys in a mapping node's content.
  abbrev content_names : List Node → List Bytes
  content_names (key ∷ value ∷ nodes) = lib.value key ∷ content_names nodes
  content_names _ = []

  abbrev pub names : List (Node × Node) → List Bytes
  names [] = []
  names (entry ∷ entries) = lib.value entry.0 ∷ names entries

  names-append : (xs ys : List (Node × Node)) → names (xs ++ ys) ≡ names xs ++ names ys
  names-append [] ys = refl
  names-append (x ∷ xs) ys = ap (λ z. lib.value x.0 ∷ z) (names-append xs ys)

  -- What the first loop returns of the content, from the keys kept before.
  abbrev Survives :
      Fields → List Bytes → List Bytes → Result (List (Node × Node) × List Bytes) → Type 0
  Survives fs kept authored (err e) = Unit
  Survives fs kept authored (ok (entries, later)) =
      (names entries ≡ surviving fs kept authored)
      × ((k : Bytes) → mem k later ≡ (mem k kept || mem k (names entries)))

  edited_entry-Survives :
      (fs : Fields) (kept authored : List Bytes) (key value : Node) (found : Option Value)
      (met : Bool)
      → lookup (lib.value key) fs ≡ found
      → mem (lib.value key) kept ≡ met
      → (skipped later : Result (List (Node × Node) × List Bytes))
      → Survives fs kept authored skipped
      → Survives fs (lib.value key ∷ kept) authored later
      → Survives fs kept
          (lib.value key ∷ authored)
          (edited_entry lib key value found met skipped later)
  unfolding edited_entry surviving
  edited_entry-Survives fs kept authored key value none met e m (err r) later s l = tt
  edited_entry-Survives fs kept authored key value none met e m (ok skipped) later s l =
      let absent = lookup-has_key (lib.value key) fs in (s.0 ∙ rw (absent, e) refl, s.1)
  edited_entry-Survives fs kept authored key value (some v) true e m (err r) later s l = tt
  edited_entry-Survives fs kept authored key value (some v) true e m (ok skipped) later s l =
      let there = lookup-has_key (lib.value key) fs in (s.0 ∙ rw (there, e, m) refl, s.1)
  edited_entry-Survives fs kept authored key value (some v) false e m skipped later s l =
      go (edited_value lib value v) later l
    where
      go :
          (edited : Result Node) (later : Result (List (Node × Node) × List Bytes))
          → Survives fs (lib.value key ∷ kept) authored later
          → Survives fs kept
              (lib.value key ∷ authored)
              (edited >>= λ node. (later >>= λ patched. ok ((key, node) ∷ patched.0, patched.1)))
      go (err r) later l = tt
      go (ok node) (err r) l = tt
      go (ok node) (ok patched) l =
          let there = lookup-has_key (lib.value key) fs in
          (ap (λ z. lib.value key ∷ z) l.0 ∙ rw (there, e, m) refl, λ k. l.1 k ∙ ground arith)

  patch_authored-Survives :
      (fs : Fields) (kept : List Bytes) (nodes : List Node)
      → Survives fs kept (content_names nodes) (patch_authored lib fs kept nodes)
  unfolding patch_authored surviving
  patch_authored-Survives fs kept [] = (refl, λ k. ground arith)
  patch_authored-Survives fs kept (key ∷ []) = (refl, λ k. ground arith)
  patch_authored-Survives fs kept (key ∷ value ∷ nodes) =
      edited_entry-Survives fs kept (content_names nodes) key value (lookup (lib.value key) fs)
        (mem (lib.value key) kept) refl refl (patch_authored lib fs kept nodes)
        (patch_authored lib fs (lib.value key ∷ kept) nodes) (patch_authored-Survives fs kept nodes)
        (patch_authored-Survives fs (lib.value key ∷ kept) nodes)

  abbrev AreNames : List Bytes → Result (List (Node × Node)) → Type 0
  AreNames target (err e) = Unit
  AreNames target (ok entries) = names entries ≡ target

  patch_added-AreNames :
      (fs : Fields) (kept order : List Bytes)
      → ((k : Bytes) → lib.value (lib.scalar k) ≡ k)
      → AreNames (unseen kept order) (patch_added lib fs kept order)
  unfolding patch_added unseen
  patch_added-AreNames fs kept [] named = refl
  patch_added-AreNames fs kept (k ∷ order) named = elim (Bool-cases (mem k kept)) [
    | inl met ↦ rw (met, patch_added, unseen) (patch_added-AreNames fs kept order named)
    | inr fresh ↦
        rw (fresh, patch_added, unseen)
          (go (yaml_value lib (field_value lib fs k)) (patch_added lib fs kept order)
            (patch_added-AreNames fs kept order named))
  ]
    where
      go :
          (value : Result Node) (rest : Result (List (Node × Node)))
          → AreNames (unseen kept order) rest
          → AreNames
              (k ∷ unseen kept order)
              (value >>= λ v. (rest >>= λ entries. ok ((lib.scalar k, v) ∷ entries)))
      go (err e) rest h = tt
      go (ok v) (err e) h = tt
      go (ok v) (ok entries) h =
          ap (λ z. lib.value (lib.scalar k) ∷ z) h ∙ ap (λ z. z ∷ unseen kept order) (named k)

  count-patched :
      (fs : Fields) (authored later : List Bytes) (entries added : List (Node × Node)) (k : Bytes)
      → IsGoMap fs
      → Survives fs [] authored (ok (entries, later))
      → names added ≡ unseen later (ordered_keys fs [])
      → count k (names (entries ++ added)) ≡ (if has_key k fs then 1 else 0)
  count-patched fs authored later entries added k go_map (first, kept) second =
      let once = count-ordered_keys k fs [] go_map in
      let left = count-unseen k later (ordered_keys fs []) in
      let survivors = count-surviving k fs [] authored in
      let met = mem-count k (names entries) in
      ap (count k) (names-append entries added)
      ∙ count-append k (names entries) (names added)
      ∙ ground (arith, once, left, survivors, met, kept k, ap (count k) first, ap (count k) second)

  -- The keys of a patched block, each once.
  pub count-yaml_patch :
      (prev : Bytes) (fs : Fields) {entries : List (Node × Node)}
      → IsGoMap fs
      → ((k : Bytes) → lib.value (lib.scalar k) ≡ k)
      → yaml_patch lib prev fs ≡ ok entries
      → (k : Bytes) → count k (names entries) ≡ (if has_key k fs then 1 else 0)
  unfolding yaml_patch
  count-yaml_patch prev fs {entries = entries} go_map named h k =
      let (authored, _, h1) = >>=-eq-ok (yaml_mapping lib prev) _ h in
      let nodes = authored_content lib authored in
      let (patched, e1, h2) = >>=-eq-ok (patch_authored lib fs [] nodes) _ h1 in
      let (added, e2, h3) = >>=-eq-ok (patch_added lib fs patched.1 (ordered_keys fs [])) _ h2 in
      let entries_eq : patched.0 ++ added ≡ entries = cc h3 in
      subst (λ z. count k (names z) ≡ (if has_key k fs then 1 else 0)) entries_eq
        (count-patched fs (content_names nodes) patched.1 patched.0 added k go_map
          (subst (Survives fs [] (content_names nodes)) e1 (patch_authored-Survives fs [] nodes))
          (subst (AreNames (unseen patched.1 (ordered_keys fs []))) e2
            (patch_added-AreNames fs patched.1 (ordered_keys fs []) named)))
