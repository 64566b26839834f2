-- ===== src/Markdown/Yaml.antt =====
-- markdown/yaml.go: the YAML codec over the nodes of a YAML library.
pub mod Patch
pub mod Written
pub mod Fails
use micawber.Core.Errors.{
  Result, ok, err, ◌>>=◌, Error, Reason, cannot_encode, not_mapping, not_string_keys,
  not_well_formed, at_block_line,
}
use micawber.Core.FrontMatter.{yaml}
use micawber.Core.Value.{Value, Fields, lookup, values_equal}
use micawber.Go.Lines.{lines}
use micawber.Go.Text.{equal}
use micawber.Markdown.Codec.{normalize_lf}
use micawber.Markdown.Codec.Keys.{ordered_keys, mem}
use micawber.Markdown.Lines.{error_line}
use micawber.Markdown.Scan.{invalid_block}
use micawber.Prelude.{
  ◌+◌, inr, inl, some, none, codes, [], ◌∷◌, ◌==◌, ◌⊎◌, ◌++◌, Option, Bool, List, ℕ, Bytes, false,
  if◌then◌else◌, is_nil, not, ◌&&◌, ltb, length, take, drop, suc, zero,
}

-- What the code tells apart of a node's kind: 0, a document, a mapping.
pub data NodeKind : Type 0 where
  no_node document mapping other_node : NodeKind

-- yaml/v3: a failure is its message. `unmarshal` gives the document, `decode` and `decode_fields`
-- are Node.Decode, `encode_value` is Node.Encode; `scalar` is the !!str node of a key, and
-- `with_comments` puts the three comments of its second node on its first. `emit` is an encoder's
-- Encode of a mapping node with that content, and its Close.
pub record Library (Node : Type 0) : Type 0 where
  pub unmarshal : Bytes → Bytes ⊎ Node
  pub kind : Node → NodeKind
  pub tag : Node → Bytes
  pub value : Node → Bytes
  pub content : Node → List Node
  pub decode : Node → Bytes ⊎ Value
  pub decode_fields : Node → Bytes ⊎ Fields
  pub encode_value : Value → Option Node
  pub scalar : Bytes → Node
  pub with_comments : Node → Node → Node
  pub marshal : Fields → Option Bytes
  pub emit : List Node → ℕ → Option Bytes

-- yamlInvalid.
unfoldable pub yaml_invalid : Bytes → Reason → Error
unfolding error_line
yaml_invalid message reason = elim (error_line message) [
  | none ↦ invalid_block yaml reason
  | some line ↦ invalid_block yaml (at_block_line reason line)
]

-- How many spaces a line begins with, and what follows them.
unfoldable pub leading_spaces : Bytes → ℕ × Bytes
leading_spaces [] = (0, [])
leading_spaces (c ∷ s) =
    let (spaces, rest) = leading_spaces s in if c == b' ' then (suc spaces, rest) else (0, c ∷ s)

-- The indentation that a line shows.
abbrev shown_indent : ℕ × Bytes → Option ℕ
shown_indent (suc spaces, c ∷ s) = if c == b'#' then none else some (suc spaces)
shown_indent _ = none

unfoldable pub indent_of : List Bytes → ℕ
unfolding leading_spaces
indent_of [] = 2
indent_of (l ∷ ls) =
    let rest = indent_of ls in
    elim (shown_indent (leading_spaces l)) [ none ↦ rest | some spaces ↦ spaces ]

-- yamlIndent.
unfoldable pub yaml_indent : Bytes → ℕ
unfolding indent_of lines normalize_lf
yaml_indent prev = indent_of (lines (normalize_lf prev))

module _ {Node : Type 0} (lib : Library Node) where
  cannot_be_encoded : {A : Type 0} → Option A → Result A
  cannot_be_encoded none = err (invalid_block yaml cannot_encode)
  cannot_be_encoded (some a) = ok a

  -- The switch of yamlMapping, on a node's kind and whether its tag is !!null.
  top_of : NodeKind → Bool → Node → Result (Option Node)
  top_of no_node null node = ok none
  top_of mapping null node = if null then ok none else ok (some node)
  top_of document null node = if null then ok none else err (invalid_block yaml not_mapping)
  top_of other_node null node = if null then ok none else err (invalid_block yaml not_mapping)

  top_mapping : Node → Result (Option Node)
  unfolding top_of equal
  top_mapping node = top_of (lib.kind node) (equal (lib.tag node) (codes "!!null")) node

  document_mapping : List Node → Result (Option Node)
  unfolding top_mapping
  document_mapping [] = ok none
  document_mapping (node ∷ nodes) = top_mapping node

  -- The content of a document, or the node itself.
  mapping_of : NodeKind → Node → Result (Option Node)
  unfolding top_mapping document_mapping
  mapping_of document node = document_mapping (lib.content node)
  mapping_of _ node = top_mapping node

  -- yamlMapping; `none` is the nil node.
  unfoldable pub yaml_mapping : Bytes → Result (Option Node)
  unfolding mapping_of yaml_invalid normalize_lf
  yaml_mapping raw = elim (lib.unmarshal (normalize_lf raw)) [
    | inl message ↦ err (yaml_invalid message not_well_formed)
    | inr node ↦ mapping_of (lib.kind node) node
  ]

  -- yamlValue.
  unfoldable pub yaml_value : Value → Result Node
  unfolding cannot_be_encoded
  yaml_value v = cannot_be_encoded (lib.encode_value v)

  -- The value node of an authored key: its own one where the edit left the value as it was.
  unfoldable pub edited_value : Node → Value → Result Node
  unfolding yaml_invalid yaml_value values_equal
  edited_value value edited = elim (lib.decode value) [
    | inl message ↦ err (yaml_invalid message not_string_keys)
    | inr authored ↦
        if values_equal authored edited
        then ok value
        else (yaml_value edited >>= λ replacement. ok (lib.with_comments replacement value))
  ]

  edited_entry :
      Node
      → Node
      → Option Value
      → Bool
      → Result (List (Node × Node) × List Bytes)
      → Result (List (Node × Node) × List Bytes)
      → Result (List (Node × Node) × List Bytes)
  unfolding edited_value
  edited_entry key value (some edited) false skipped later = do
    node ← edited_value value edited
    patched ← later
    ok ((key, node) ∷ patched.0, patched.1)
  edited_entry key value _ _ skipped later = skipped

  -- The first loop of yamlPatch: the entries of the patched node, and the keys that are kept.
  unfoldable pub patch_authored :
      Fields → List Bytes → List Node → Result (List (Node × Node) × List Bytes)
  unfolding edited_entry lookup
  patch_authored fields kept (key ∷ value ∷ nodes) =
      let name = lib.value key in
      let skipped = patch_authored fields kept nodes in
      let later = patch_authored fields (name ∷ kept) nodes in
      edited_entry key value (lookup name fields) (mem name kept) skipped later
  patch_authored fields kept _ = ok ([], kept)

  -- A missing key gives nil, which is null.
  unfoldable pub field_value : Fields → Bytes → Value
  unfolding lookup
  field_value fields key = elim (lookup key fields) [ none ↦ Value.null | some v ↦ v ]

  -- The second loop, over the keys in order.
  unfoldable pub patch_added : Fields → List Bytes → List Bytes → Result (List (Node × Node))
  unfolding field_value yaml_value
  patch_added fields kept [] = ok []
  patch_added fields kept (key ∷ order) =
      let rest = patch_added fields kept order in
      if mem key kept
      then rest
      else (yaml_value (field_value fields key) >>= λ value.
          (rest >>= λ entries. ok ((lib.scalar key, value) ∷ entries)))

  authored_content : Option Node → List Node
  authored_content none = []
  authored_content (some node) = lib.content node

  -- yamlPatch: the entries of the patched mapping.
  unfoldable pub yaml_patch : Bytes → Fields → Result (List (Node × Node))
  unfolding yaml_mapping authored_content patch_authored patch_added ordered_keys
  yaml_patch prev fields = do
    authored ← yaml_mapping prev
    patched ← patch_authored fields [] (authored_content authored)
    added ← patch_added fields patched.1 (ordered_keys fields [])
    ok (patched.0 ++ added)

  abbrev entry_nodes : List (Node × Node) → List Node
  entry_nodes [] = []
  entry_nodes (entry ∷ entries) = entry.0 ∷ entry.1 ∷ entry_nodes entries

  fields_of : Option Node → Result Fields
  unfolding yaml_invalid
  fields_of none = ok Fields.end
  fields_of (some node) = elim (lib.decode_fields node) [
    | inl message ↦ err (yaml_invalid message not_string_keys)
    | inr fields ↦ ok fields
  ]

  -- yamlCodec.decode; the nil map and the empty one are not told apart.
  unfoldable pub decode : Bytes → Result Fields
  unfolding yaml_mapping fields_of
  decode raw = yaml_mapping raw >>= fields_of

  -- yamlCodec.encode.
  unfoldable pub encode : Fields → Bytes → Result Bytes
  unfolding yaml_patch yaml_indent cannot_be_encoded
  encode fields prev =
      if is_nil prev
      then cannot_be_encoded (lib.marshal fields)
      else (yaml_patch prev fields >>= λ patched.
          cannot_be_encoded (lib.emit (entry_nodes patched) (yaml_indent prev)))
