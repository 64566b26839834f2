-- ===== src/Markdown/Yaml/Fails.antt =====
-- markdown/yaml.go: what the YAML codec owes as a codec.
use micawber.Core.Errors.{
  Reason, Result, ok, err, is, >>=-eq-ok, FailsWith, FailsWith-bind, invalid_value, not_string_keys,
  ◌>>=◌, not_well_formed,
}
use micawber.Core.Value.{Value, Fields, IsGoMap, is_end, lookup, values_equal}
use micawber.Go.Text.{equal}
use micawber.Markdown.Codec.{OnlyInvalid, Codec, IsCodec, normalize_lf}
use micawber.Markdown.Codec.Keys.{mem, ordered_keys}
use micawber.Markdown.Lines.{error_line}
use micawber.Markdown.Yaml.{
  top_of, Library, NodeKind, no_node, document, mapping, other_node, yaml_invalid,
  cannot_be_encoded, top_mapping, document_mapping, mapping_of, yaml_mapping, yaml_value,
  edited_value, edited_entry, patch_authored, field_value, patch_added, yaml_patch, entry_nodes,
  fields_of, decode, encode, authored_content, yaml_indent,
}
use micawber.Prelude.{
  if◌then◌else◌, none, some, inl, inr, [], ◌∷◌, ◌≡◌, ◌⊎◌, true, false, refl, if-elim, is_nil, codes,
  Bool, Option, Option-cases, List, Bytes, subst, sym, ap, ◌∙◌,
}

yaml_invalid-is :
    (message : Bytes) (reason : Reason) → is (yaml_invalid message reason) invalid_value ≡ true
unfolding yaml_invalid is
yaml_invalid-is message reason = elim (Option-cases (error_line message)) [
  | inl unknown ↦ rw (unknown, yaml_invalid) refl
  | inr (line, known) ↦ rw (known, yaml_invalid) refl
]

-- What is used of the YAML library: it decodes a mapping to a Go map, and an empty text to a node
-- without a kind.
pub record IsYaml {Node : Type 0} (lib : Library Node) : Type 0 where
  pub decodes_map : (node : Node) (fs : Fields) → lib.decode_fields node ≡ inr fs → IsGoMap fs
  pub nothing : (node : Node) → lib.unmarshal [] ≡ inr node → lib.kind node ≡ no_node

module _ {Node : Type 0} (lib : Library Node) where
  abbrev Fails : {A : Type 0} → Result A → Type 0
  Fails = FailsWith invalid_value

  cannot_be_encoded-Fails : {A : Type 0} (a : Option A) → Fails (cannot_be_encoded lib a)
  unfolding cannot_be_encoded is
  cannot_be_encoded-Fails none = refl
  cannot_be_encoded-Fails (some a) = tt

  top_of-Fails : (k : NodeKind) (null : Bool) (node : Node) → Fails (top_of lib k null node)
  unfolding top_of is
  top_of-Fails no_node null node = tt
  top_of-Fails mapping null node = if-elim Fails null tt tt
  top_of-Fails document null node = if-elim Fails null tt refl
  top_of-Fails other_node null node = if-elim Fails null tt refl

  document_mapping-Fails : (nodes : List Node) → Fails (document_mapping lib nodes)
  unfolding document_mapping top_mapping
  document_mapping-Fails [] = tt
  document_mapping-Fails (node ∷ nodes) = top_of-Fails (lib.kind node) _ node

  mapping_of-Fails : (k : NodeKind) (node : Node) → Fails (mapping_of lib k node)
  unfolding mapping_of top_mapping
  mapping_of-Fails document node = document_mapping-Fails (lib.content node)
  mapping_of-Fails no_node node = top_of-Fails (lib.kind node) _ node
  mapping_of-Fails mapping node = top_of-Fails (lib.kind node) _ node
  mapping_of-Fails other_node node = top_of-Fails (lib.kind node) _ node

  yaml_mapping-Fails : (raw : Bytes) → Fails (yaml_mapping lib raw)
  unfolding yaml_mapping
  yaml_mapping-Fails raw = go (lib.unmarshal (normalize_lf raw))
    where
      go :
          (u : Bytes ⊎ Node)
          → Fails (elim u [
            | inl message ↦ err (yaml_invalid message not_well_formed)
            | inr node ↦ mapping_of lib (lib.kind node) node
          ])
      go (inl message) = yaml_invalid-is message not_well_formed
      go (inr node) = mapping_of-Fails (lib.kind node) node

  yaml_value-Fails : (v : Value) → Fails (yaml_value lib v)
  unfolding yaml_value
  yaml_value-Fails v = cannot_be_encoded-Fails (lib.encode_value v)

  edited_value-Fails : (value : Node) (edited : Value) → Fails (edited_value lib value edited)
  unfolding edited_value
  edited_value-Fails value edited = go (lib.decode value)
    where
      go :
          (d : Bytes ⊎ Value)
          → Fails (elim d [
            | inl message ↦ err (yaml_invalid message not_string_keys)
            | inr authored ↦
                if values_equal authored edited
                then ok value
                else (yaml_value lib edited >>= λ replacement.
                    ok (lib.with_comments replacement value))
          ])
      go (inl message) = yaml_invalid-is message not_string_keys
      go (inr authored) = if-elim Fails (values_equal authored edited) tt (
          FailsWith-bind invalid_value (yaml_value lib edited) _ (yaml_value-Fails edited)
            (λ _. tt))

  edited_entry-Fails :
      (key value : Node) (found : Option Value) (met : Bool)
      (skipped later : Result (List (Node × Node) × List Bytes))
      → Fails skipped
      → Fails later
      → Fails (edited_entry lib key value found met skipped later)
  unfolding edited_entry
  edited_entry-Fails key value none met skipped later s l = s
  edited_entry-Fails key value (some edited) true skipped later s l = s
  edited_entry-Fails key value (some edited) false skipped later s l =
      FailsWith-bind invalid_value (edited_value lib value edited) _
        (edited_value-Fails value edited) (λ node. FailsWith-bind invalid_value later _ l (λ _. tt))

  patch_authored-Fails :
      (fs : Fields) (kept : List Bytes) (nodes : List Node)
      → Fails (patch_authored lib fs kept nodes)
  unfolding patch_authored
  patch_authored-Fails fs kept [] = tt
  patch_authored-Fails fs kept (key ∷ []) = tt
  patch_authored-Fails fs kept (key ∷ value ∷ nodes) =
      edited_entry-Fails key value (lookup (lib.value key) fs) (mem (lib.value key) kept)
        (patch_authored lib fs kept nodes) (patch_authored lib fs (lib.value key ∷ kept) nodes)
        (patch_authored-Fails fs kept nodes) (patch_authored-Fails fs (lib.value key ∷ kept) nodes)

  patch_added-Fails :
      (fs : Fields) (kept order : List Bytes) → Fails (patch_added lib fs kept order)
  unfolding patch_added
  patch_added-Fails fs kept [] = tt
  patch_added-Fails fs kept (key ∷ order) =
      if-elim Fails (mem key kept) (patch_added-Fails fs kept order) (
        FailsWith-bind invalid_value (yaml_value lib (field_value lib fs key)) _
          (yaml_value-Fails (field_value lib fs key))
          (λ value.
            FailsWith-bind invalid_value (patch_added lib fs kept order) _
              (patch_added-Fails fs kept order) (λ _. tt)))

  yaml_patch-Fails : (prev : Bytes) (fs : Fields) → Fails (yaml_patch lib prev fs)
  unfolding yaml_patch
  yaml_patch-Fails prev fs =
      FailsWith-bind invalid_value (yaml_mapping lib prev) _ (yaml_mapping-Fails prev) (λ authored.
        let nodes = authored_content lib authored in
        FailsWith-bind invalid_value (patch_authored lib fs [] nodes) _
          (patch_authored-Fails fs [] nodes)
          (λ patched.
            FailsWith-bind invalid_value (patch_added lib fs patched.1 (ordered_keys fs [])) _
              (patch_added-Fails fs patched.1 (ordered_keys fs [])) (λ _. tt)))

  fields_of-Fails : (node : Option Node) → Fails (fields_of lib node)
  unfolding fields_of
  fields_of-Fails none = tt
  fields_of-Fails (some node) = go (lib.decode_fields node)
    where
      go :
          (d : Bytes ⊎ Fields)
          → Fails (elim d [
            | inl message ↦ err (yaml_invalid message not_string_keys)
            | inr fields ↦ ok fields
          ])
      go (inl message) = yaml_invalid-is message not_string_keys
      go (inr fields) = tt

  fields_of-IsGoMap :
      IsYaml lib → (node : Option Node) (fs : Fields) → fields_of lib node ≡ ok fs → IsGoMap fs
  unfolding fields_of
  fields_of-IsGoMap laws none fs h = let e : Fields.end ≡ fs = cc h in subst IsGoMap e tt
  fields_of-IsGoMap laws (some node) fs h = go (lib.decode_fields node) refl h
    where
      go :
          (d : Bytes ⊎ Fields)
          → lib.decode_fields node ≡ d
          → (elim d as (λ _. Result Fields) [
            | inl message ↦ err (yaml_invalid message not_string_keys)
            | inr fields ↦ ok fields
          ])
            ≡ ok fs
          → IsGoMap fs
      go (inl message) e h = cc h
      go (inr fields) e h =
          let same : fields ≡ fs = cc h in subst IsGoMap same (laws.decodes_map node fields e)

  -- An empty block has no mapping.
  yaml_mapping-nothing : IsYaml lib → (r : Option Node) → yaml_mapping lib [] ≡ ok r → r ≡ none
  unfolding yaml_mapping mapping_of top_mapping top_of normalize_lf
  yaml_mapping-nothing laws r h = go (lib.unmarshal []) refl h
    where
      go :
          (u : Bytes ⊎ Node)
          → lib.unmarshal [] ≡ u
          → (elim u as (λ _. Result (Option Node)) [
            | inl message ↦ err (yaml_invalid message not_well_formed)
            | inr node ↦ mapping_of lib (lib.kind node) node
          ])
            ≡ ok r
          → r ≡ none
      go (inl message) e h = cc h
      go (inr node) e h =
          let bare = laws.nothing node e in
          let empty : mapping_of lib (lib.kind node) node ≡ ok none =
            ap (λ k. mapping_of lib k node) bare
            ∙ ap (λ k. top_of lib k (equal (lib.tag node) (codes "!!null")) node) bare in
          cc (sym empty ∙ h)

  abbrev pub yaml_codec : Codec
  yaml_codec = record { decode = decode lib; encode = encode lib }

  pub yaml_codec-OnlyInvalid : OnlyInvalid yaml_codec
  unfolding decode encode
  yaml_codec-OnlyInvalid = record {
    decoding = λ raw.
        FailsWith-bind invalid_value (yaml_mapping lib raw) _ (yaml_mapping-Fails raw)
          fields_of-Fails;
    encoding = λ fs prev. if-elim Fails (is_nil prev) (cannot_be_encoded-Fails (lib.marshal fs)) (
        FailsWith-bind invalid_value (yaml_patch lib prev fs) _ (yaml_patch-Fails prev fs)
          (λ patched.
            cannot_be_encoded-Fails (lib.emit (entry_nodes lib patched) (yaml_indent prev))));
  }

  pub yaml_codec-IsCodec : IsYaml lib → IsCodec yaml_codec
  unfolding decode encode fields_of
  yaml_codec-IsCodec laws = record {
    decodes_map = λ raw fs h.
        let (node, found, made) = >>=-eq-ok (yaml_mapping lib raw) (fields_of lib) h in
        fields_of-IsGoMap laws node fs made;
    decodes_nothing = λ fs h.
        let (node, found, made) = >>=-eq-ok (yaml_mapping lib []) (fields_of lib) h in
        ends fs (rw (yaml_mapping-nothing laws node found) at made);
    decode_fails = yaml_codec-OnlyInvalid.decoding;
    encode_fails = yaml_codec-OnlyInvalid.encoding;
  }
    where
      ends : (fs : Fields) → fields_of lib none ≡ ok fs → is_end fs ≡ true
      ends fs h = let e : Fields.end ≡ fs = cc h in subst (λ z. is_end z ≡ true) e refl
