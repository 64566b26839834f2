-- ===== src/Tests/Yaml.antt =====
-- markdown/yaml.go at concrete blocks, over nodes of lines with one-byte keys and values.
use micawber.Core.Errors.{ok}
use micawber.Core.Value.{Value, Fields, IsGoMap}
use micawber.Markdown.Yaml.{
  Library, NodeKind, yaml_patch, yaml_indent, no_node, document, mapping, other_node,
}
use micawber.Markdown.Yaml.Written.{IsPatch, yaml_patch-IsPatch}
use micawber.Prelude.{refl, [], ◌∷◌, ◌≡◌, codes, some, none, inr, Option, Bytes, List}

-- A scalar has its text and its comment.
pub data BlockNode : Type 0 where
  blank_node : BlockNode
  document_node mapping_node : Bytes → BlockNode
  scalar_node : Bytes → Bytes → BlockNode

abbrev block_kind : BlockNode → NodeKind
block_kind blank_node = no_node
block_kind (document_node s) = document
block_kind (mapping_node s) = mapping
block_kind (scalar_node s comment) = other_node

abbrev block_text : BlockNode → Bytes
block_text blank_node = []
block_text (document_node s) = s
block_text (mapping_node s) = s
block_text (scalar_node s comment) = s

abbrev block_entries : Bytes → List BlockNode
block_entries (key ∷ colon ∷ space ∷ v ∷ newline ∷ s) =
    scalar_node (key ∷ []) [] ∷ scalar_node (v ∷ []) (codes "# kept") ∷ block_entries s
block_entries _ = []

abbrev block_content : BlockNode → List BlockNode
block_content blank_node = []
block_content (document_node s) = mapping_node s ∷ []
block_content (mapping_node s) = block_entries s
block_content (scalar_node s comment) = []

abbrev block_encoding : Value → Option BlockNode
block_encoding (Value.text s) = some (scalar_node s [])
block_encoding _ = none

abbrev commented : BlockNode → BlockNode → BlockNode
commented (scalar_node s old) (scalar_node t comment) = scalar_node s comment
commented fresh old = fresh

abbrev block_document : Bytes → BlockNode
block_document [] = blank_node
block_document (c ∷ s) = document_node (c ∷ s)

abbrev pub block_library : Library BlockNode
block_library = record {
  unmarshal = λ s. inr (block_document s);
  kind = block_kind;
  tag = λ node. codes "!!str";
  value = block_text;
  content = block_content;
  decode = λ node. inr (Value.text (block_text node));
  decode_fields = λ node. inr Fields.end;
  encode_value = block_encoding;
  scalar = λ s. scalar_node s [];
  with_comments = commented;
  marshal = λ fields. none;
  emit = λ nodes indent. none;
}

abbrev three_fields : Fields
three_fields = Fields.field (codes "c") (Value.text (codes "3")) (
    Fields.field (codes "b") (Value.text (codes "9"))
      (Fields.field (codes "a") (Value.text (codes "1")) Fields.end))

three_fields-IsGoMap : IsGoMap three_fields
unfolding micawber.Go.Text.equal
three_fields-IsGoMap = (refl, tt, (refl, tt, (refl, tt, tt)))

-- The value of a is as it was and that of b is new; x and the second a are dropped, c is added.
abbrev patched_entries : List (BlockNode × BlockNode)
patched_entries =
    (scalar_node (codes "a") [], scalar_node (codes "1") (codes "# kept"))
    ∷ (scalar_node (codes "b") [], scalar_node (codes "9") (codes "# kept"))
    ∷ (scalar_node (codes "c") [], scalar_node (codes "3") [])
    ∷ []

abbrev authored_block : Bytes
authored_block = codes "a: 1\nx: 0\nb: 2\na: 7\n"

patched_block : yaml_patch block_library authored_block three_fields ≡ ok patched_entries
unfolding yaml_patch
patched_block = refl

yaml_patch-IsPatch_example : IsPatch block_library three_fields patched_entries
yaml_patch-IsPatch_example =
    yaml_patch-IsPatch block_library authored_block three_fields three_fields-IsGoMap (λ k. refl)
      patched_block

nested_indent : yaml_indent (codes "a:\n # no\n    b: 1\n") ≡ 4
unfolding yaml_indent
nested_indent = refl

flat_indent : yaml_indent (codes "a: 1\n") ≡ 2
unfolding yaml_indent
flat_indent = refl
