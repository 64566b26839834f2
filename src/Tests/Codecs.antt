-- ===== src/Tests/Codecs.antt =====
-- markdown/codec.go: the three codecs on small libraries.
use micawber.Core.Value.{Fields, IsGoMap, is_end}
use micawber.Markdown.Yaml.{no_node}
use micawber.Markdown.Codec.{AreCodecs}
use micawber.Core.FrontMatter.{toml}
use micawber.Markdown.Codec.{codec_for, OnlyInvalid}
use micawber.Markdown.Codecs.{
  codecs_fail_invalid, Libraries, AreLibraries, codecs, codecs-AreCodecs,
}
use micawber.Prelude.{
  codes, inl, inr, none, some, [], ◌∷◌, true, subst, refl, length, Option, ℕ, Bytes, ◌≡◌, ◌<◌,
  arith,
}
use micawber.Tests.Json.{digits_library, digits_library-ReadsOn}
use micawber.Tests.Toml.{write_text}
use micawber.Tests.Yaml.{BlockNode, blank_node, block_library}

-- An object ends behind its first byte.
abbrev first_byte : Bytes → Option ℕ
first_byte [] = none
first_byte (c ∷ s) = some 1

abbrev small_libraries : Libraries
small_libraries = record {
  Node = BlockNode;
  yaml_library = block_library;
  toml_unmarshal = λ b. inr Fields.end;
  toml_encoder = write_text;
  State = Bytes;
  json_library = digits_library;
  json_left = λ s. length s;
  json_reads_on = digits_library-ReadsOn;
  json_object_end = first_byte;
}

ends : (fs : Fields) → Fields.end ≡ fs → IsGoMap fs
ends fs e = subst IsGoMap e tt

blank : (node : BlockNode) → blank_node ≡ node → block_library.kind node ≡ no_node
blank node e = subst (λ z. block_library.kind z ≡ no_node) e refl

one_byte : (w : Bytes) (n : ℕ) → first_byte w ≡ some n → 0 < n
one_byte [] n e = cc e
one_byte (c ∷ w) n e = let one : 1 ≡ n = cc e in omega (arith, one)

small_libraries-AreLibraries : AreLibraries small_libraries
small_libraries-AreLibraries = record {
  is_yaml = record {
    decodes_map = λ node fs e. ends fs (cc e);
    nothing = λ node e. blank node (cc e);
  };
  is_toml = record {
    decodes_map = λ b fs e. ends fs (cc e);
    nothing = λ fs e. let same : Fields.end ≡ fs = cc e in subst (λ z. is_end z ≡ true) same refl;
  };
  is_json = record {
    decodes_map = λ s fs e. ends fs (cc e);
    nothing = λ fs e. let same : Fields.end ≡ fs = cc e in subst (λ z. is_end z ≡ true) same refl;
  };
  consumes = one_byte;
}

small_libraries-AreCodecs : AreCodecs (codecs small_libraries)
small_libraries-AreCodecs = codecs-AreCodecs small_libraries small_libraries-AreLibraries

-- The TOML decoder of a text that is not one.
abbrev failing_libraries : Libraries
failing_libraries = record small_libraries {
  toml_unmarshal = λ b. inl (record { row = none; message = codes "bad" });
}

found : codec_for (codecs failing_libraries) toml ≡ some (codecs failing_libraries).toml_codec
unfolding codec_for
found = refl

codecs_fail_invalid_example : OnlyInvalid (codecs failing_libraries).toml_codec
codecs_fail_invalid_example = codecs_fail_invalid failing_libraries toml found
