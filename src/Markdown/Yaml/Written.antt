-- ===== src/Markdown/Yaml/Written.antt =====
-- markdown/yaml.go: the value nodes of a patched block.
use micawber.Core.Errors.{not_string_keys, ◌>>=◌, Result, ok, err, >>=-eq-ok}
use micawber.Core.Value.{Value, Fields, lookup, has_key, IsGoMap, values_equal}
use micawber.Go.Sort.{count}
use micawber.Markdown.Codec.Keys.{mem, ordered_keys}
use micawber.Markdown.Yaml.{
  yaml_invalid, Library, edited_entry, edited_value, patch_authored, patch_added, yaml_patch,
  yaml_value, field_value, yaml_mapping, authored_content, cannot_be_encoded,
}
use micawber.Markdown.Yaml.Patch.{names, count-yaml_patch}
use micawber.Prelude.{
  refl, sym, ◌≡◌, none, some, [], ◌∷◌, ◌++◌, inl, inr, true, false, ◌⊎◌, subst, All, All-append,
  if◌then◌else◌, Option, Bool, List, Bytes, Bool-cases, if-elim,
}

module _ {Node : Type 0} (lib : Library Node) where
  -- A node that decodes to a value equal to `v`.
  abbrev pub Keeps : Value → Node → Type 0
  Keeps v node =
      (authored : Value) × (lib.decode node ≡ inr authored) × (values_equal authored v ≡ true)

  -- A node that the library makes of `v`, as it is or with the comments of another.
  abbrev pub IsEncoding : Value → Node → Type 0
  IsEncoding v node =
      (fresh : Node) × (lib.encode_value v ≡ some fresh)
      × ((node ≡ fresh) ⊎ ((old : Node) × (node ≡ lib.with_comments fresh old)))

  -- An entry that stands for the value of its key.
  abbrev pub IsWritten : Fields → Node × Node → Type 0
  IsWritten fs (key, node) =
      let v = field_value lib fs (lib.value key) in Keeps v node ⊎ IsEncoding v node

  -- A property of a value, if there is one.
  abbrev Returns : {A : Type 0} → (A → Type 0) → Result A → Type 0
  Returns P (err e) = Unit
  Returns P (ok a) = P a

  yaml_value-IsEncoding : (v : Value) → Returns (IsEncoding v) (yaml_value lib v)
  unfolding yaml_value cannot_be_encoded
  yaml_value-IsEncoding v = go (lib.encode_value v) refl
    where
      go :
          (r : Option Node)
          → lib.encode_value v ≡ r
          → Returns (IsEncoding v) (cannot_be_encoded lib r)
      go none e = tt
      go (some node) e = (node, e, inl refl)

  -- The outcome for an authored node: kept, or a fresh one with its comments.
  edited_value-IsWritten :
      (value : Node) (v : Value)
      → Returns (λ node. Keeps v node ⊎ IsEncoding v node) (edited_value lib value v)
  unfolding edited_value yaml_value cannot_be_encoded
  edited_value-IsWritten value v = go (lib.decode value) refl
    where
      encoded :
          (r : Option Node)
          → lib.encode_value v ≡ r
          → Returns
              (λ node. Keeps v node ⊎ IsEncoding v node)
              (cannot_be_encoded lib r >>= λ fresh. ok (lib.with_comments fresh value))
      encoded none e = tt
      encoded (some fresh) e = inr (fresh, e, inr (value, refl))

      go :
          (r : Bytes ⊎ Value)
          → lib.decode value ≡ r
          → Returns
              (λ node. Keeps v node ⊎ IsEncoding v node)
              (elim r [
                | inl message ↦ err (yaml_invalid message not_string_keys)
                | inr authored ↦
                    if values_equal authored v
                    then ok value
                    else (yaml_value lib v >>= λ fresh. ok (lib.with_comments fresh value))
              ])
      go (inl message) e = tt
      go (inr authored) e = elim (Bool-cases (values_equal authored v)) [
        | inl same ↦ rw same (inl (authored, e, same))
        | inr other ↦ rw other (encoded (lib.encode_value v) refl)
      ]

  AllWritten : Fields → Result (List (Node × Node) × List Bytes) → Type 0
  AllWritten fs r = Returns (λ patched. All (IsWritten fs) patched.0) r

  edited_entry-AllWritten :
      (fs : Fields) (key value : Node) (found : Option Value) (met : Bool)
      → lookup (lib.value key) fs ≡ found
      → (skipped later : Result (List (Node × Node) × List Bytes)) → AllWritten fs skipped
      → AllWritten fs later
      → AllWritten fs (edited_entry lib key value found met skipped later)
  unfolding edited_entry AllWritten field_value
  edited_entry-AllWritten fs key value none met e skipped later s l = s
  edited_entry-AllWritten fs key value (some v) true e skipped later s l = s
  edited_entry-AllWritten fs key value (some v) false e skipped later s l =
      go (edited_value lib value v) later (edited_value-IsWritten value v) l
    where
      go :
          (edited : Result Node) (later : Result (List (Node × Node) × List Bytes))
          → Returns (λ node. Keeps v node ⊎ IsEncoding v node) edited
          → AllWritten fs later
          → AllWritten fs
              (edited >>= λ node. (later >>= λ patched. ok ((key, node) ∷ patched.0, patched.1)))
      go (err r) later w l = tt
      go (ok node) (err r) w l = tt
      go (ok node) (ok patched) w l = (rw (e, field_value) w, l)

  patch_authored-AllWritten :
      (fs : Fields) (kept : List Bytes) (nodes : List Node)
      → AllWritten fs (patch_authored lib fs kept nodes)
  unfolding patch_authored AllWritten
  patch_authored-AllWritten fs kept [] = tt
  patch_authored-AllWritten fs kept (key ∷ []) = tt
  patch_authored-AllWritten fs kept (key ∷ value ∷ nodes) =
      edited_entry-AllWritten fs key value (lookup (lib.value key) fs) (mem (lib.value key) kept)
        refl (patch_authored lib fs kept nodes) (patch_authored lib fs (lib.value key ∷ kept) nodes)
        (patch_authored-AllWritten fs kept nodes)
        (patch_authored-AllWritten fs (lib.value key ∷ kept) nodes)

  patch_added-IsWritten :
      (fs : Fields) (kept order : List Bytes)
      → ((k : Bytes) → lib.value (lib.scalar k) ≡ k)
      → Returns (All (IsWritten fs)) (patch_added lib fs kept order)
  unfolding patch_added
  patch_added-IsWritten fs kept [] named = tt
  patch_added-IsWritten fs kept (k ∷ order) named =
      if-elim (Returns (All (IsWritten fs))) (mem k kept)
        (patch_added-IsWritten fs kept order named)
        (go (yaml_value lib (field_value lib fs k)) (patch_added lib fs kept order)
          (yaml_value-IsEncoding (field_value lib fs k))
          (patch_added-IsWritten fs kept order named))
    where
      go :
          (value : Result Node) (rest : Result (List (Node × Node)))
          → Returns (IsEncoding (field_value lib fs k)) value
          → Returns (All (IsWritten fs)) rest
          → Returns
              (All (IsWritten fs))
              (value >>= λ v. (rest >>= λ entries. ok ((lib.scalar k, v) ∷ entries)))
      go (err e) rest w h = tt
      go (ok v) (err e) w h = tt
      go (ok v) (ok entries) w h =
          (inr (subst (λ n. IsEncoding (field_value lib fs n) v) (sym (named k)) w), h)

  -- What yamlPatch promises of a map: each of its keys once and no other, and for every entry the
  -- value of its key.
  abbrev pub IsPatch : Fields → List (Node × Node) → Type 0
  IsPatch fs entries =
      ((k : Bytes) → count k (names lib entries) ≡ (if has_key k fs then 1 else 0))
      × All (IsWritten fs) entries

  -- Of a map with different keys, when a scalar node has its text for its value, whatever the
  -- authored block: the entries that yamlPatch returns have each key of the map once and no other.
  -- The value node of each is one that decodes to a value equal to the field's, or one that the
  -- library made of the field's value, as it is or with the comments of another node.
  pub yaml_patch-IsPatch :
      (prev : Bytes) (fs : Fields) {entries : List (Node × Node)}
      → IsGoMap fs
      → ((k : Bytes) → lib.value (lib.scalar k) ≡ k)
      → yaml_patch lib prev fs ≡ ok entries
      → IsPatch fs entries
  unfolding yaml_patch AllWritten
  yaml_patch-IsPatch prev fs {entries = entries} go_map named h =
      let (authored, _, h1) = >>=-eq-ok (yaml_mapping lib prev) _ h in
      let nodes = authored_content lib authored in
      let (patched, e1, h2) = >>=-eq-ok (patch_authored lib fs [] nodes) _ h1 in
      let order = ordered_keys fs [] in
      let (added, e2, h3) = >>=-eq-ok (patch_added lib fs patched.1 order) _ h2 in
      let entries_eq : patched.0 ++ added ≡ entries = cc h3 in
      (
        count-yaml_patch lib prev fs go_map named h,
        subst (All (IsWritten fs)) entries_eq (
            (All-append (IsWritten fs) patched.0 added).1 (
              subst (AllWritten fs) e1 (patch_authored-AllWritten fs [] nodes),
              subst (Returns (All (IsWritten fs))) e2
                  (patch_added-IsWritten fs patched.1 order named),
            )),
      )
