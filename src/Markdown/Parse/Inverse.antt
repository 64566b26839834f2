-- ===== src/Markdown/Parse/Inverse.antt =====
-- What a document that Parse returns was made of.
use micawber.Go.Text.{count_byte}
use micawber.Prelude.{
  Option-cases, ltb-false, inr, ltb, false, ◌≤◌, inl, ◌⊎◌, Bool-cases, true, some, Bytes, ◌≡◌,
}
use micawber.Core.FrontMatter as FrontMatter
use micawber.Core.FrontMatter.{
  FrontMatter, Format, no_format, is_none, no_front_matter, format_string,
}
use micawber.Core.Value.{Fields}
use micawber.Core.Errors.{refuse, ok, >>=-eq-ok, >>-ok_iff, refuse-ok_iff}
use micawber.Markdown.Document.{Document}
use micawber.Markdown.Scan.{Parts, scan}
use micawber.Markdown.Codec.{Codec, Codecs, codec_for}
use micawber.Markdown.Parse.{
  parse, parse_parts, decode_parts, document, block_of, max_front_matter_lines,
}

-- The parts that a block was decoded from, and the codec's word on it.
pub record IsDecoded (cs : Codecs) (p : Parts) (d : Document) : Type 0 where
  pub codec : Codec
  pub found : codec_for cs p.format ≡ some codec
  pub fields : Fields
  pub decoded : codec.decode p.raw ≡ ok fields
  pub valid : FrontMatter.validate (block_of p fields) ≡ ok tt
  pub few_lines : count_byte b'\n' p.raw ≤ max_front_matter_lines
  pub result : d ≡ document p.layout (block_of p fields) p.body

-- A parsed document: scanned parts without front matter, or with a block that decodes.
abbrev pub IsParsedFrom : Codecs → Parts → Document → Type 0
IsParsedFrom cs p d =
    ((is_none p.format ≡ true) × (d ≡ document p.layout no_front_matter p.body))
    ⊎ ((is_none p.format ≡ false) × IsDecoded cs p d)

decode_parts-IsDecoded :
    (cs : Codecs) (c : Codec) (p : Parts) {d : Document}
    → codec_for cs p.format ≡ some c
    → decode_parts c p ≡ ok d
    → IsDecoded cs p d
unfolding decode_parts
decode_parts-IsDecoded cs c p found h =
    let (few, h₁) =
      (>>-ok_iff (refuse (ltb max_front_matter_lines (count_byte b'\n' p.raw)) _) _).0 h in
    let (fields, decoded, h₂) = >>=-eq-ok (c.decode p.raw) _ h₁ in
    let (valid, h₃) = (>>-ok_iff (FrontMatter.validate (block_of p fields)) _).0 h₂ in
    record {
      codec = c;
      found = found;
      fields = fields;
      decoded = decoded;
      valid = valid;
      few_lines = ltb-false _ _ ((refuse-ok_iff _ _).0 few);
      result = cc h₃;
    }

parse_parts-IsParsedFrom :
    (cs : Codecs) (p : Parts) {d : Document} → parse_parts cs p ≡ ok d → IsParsedFrom cs p d
unfolding parse_parts
parse_parts-IsParsedFrom cs p h = elim (Bool-cases (is_none p.format)) [
  | inl bare ↦ inl (bare, cc (rw (bare, parse_parts) at h))
  | inr fenced ↦ elim (Option-cases (codec_for cs p.format)) [
    | inl missing ↦ cc (rw (fenced, missing, parse_parts) at h)
    | inr (c, found) ↦
        inr (fenced, decode_parts-IsDecoded cs c p found (rw (fenced, found, parse_parts) at h))
  ]
]

pub record IsParsed (cs : Codecs) (s : Bytes) (d : Document) : Type 0 where
  pub parts : Parts
  pub scanned : scan cs.json_object_end s ≡ ok parts
  pub parsed : IsParsedFrom cs parts d

pub parse-IsParsed : (cs : Codecs) (s : Bytes) {d : Document} → parse cs s ≡ ok d → IsParsed cs s d
unfolding parse
parse-IsParsed cs s h =
    let (p, scanned, rest) = >>=-eq-ok (scan cs.json_object_end s) (parse_parts cs) h in
    record { parts = p; scanned = scanned; parsed = parse_parts-IsParsedFrom cs p rest }
