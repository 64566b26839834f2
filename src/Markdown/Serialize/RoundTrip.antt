-- ===== src/Markdown/Serialize/RoundTrip.antt =====
-- markdown/serialize.go: Bytes of a document that markdown/parse.go returned.
use micawber.Prelude.{
  ◌++◌, codes, refl, subst, if◌then◌else◌, not, ◌&&◌, is_nil-true, [], false, is_nil, Bytes,
  Bool-cases, is_nil-false, sym, inr, ◌∙◌, arith, inl, ap, true, ◌≡◌,
}
use micawber.Core.FrontMatter as FrontMatter
use micawber.Core.FrontMatter.{
  FrontMatter, Format, no_format, yaml, toml, json, other_format, is_none, no_front_matter,
  format_string,
}
use micawber.Core.Value.{Fields}
use micawber.Core.Value.{HasNoNan}
use micawber.Core.Value.Laws.{fields_equal_refl}
use micawber.Core.Errors.{ok}
use micawber.Markdown.Document.{
  Document, Layout, zero_layout, layout_is_zero, line_ending, default_layout,
}
use micawber.Markdown.Scan.{Parts, scan}
use micawber.Markdown.Scan.Shape.{IsScan, HasShape, IsTerminated, slots, mark}
use micawber.Markdown.Scan.Laws.{scan-IsScan}
use micawber.Markdown.Codec.{Codec, Codecs, IsCodec, AreCodecs, codec_for-IsCodec}
use micawber.Markdown.Parse.{parse, document, block_of}
use micawber.Markdown.Parse.Inverse.{IsDecoded, parse-IsParsed}
use micawber.Markdown.Serialize.{
  bytes, codec_block, authored_block, is_json, body_opens_front_matter, front_matter_block,
  terminate_block, effective_layout,
}

layout_is_zero-eq : (l : Layout) → layout_is_zero l ≡ true → l ≡ zero_layout
layout_is_zero-eq l h = ground arith

-- The layout that was scanned is the one that is written.
effective_layout-scanned :
    (f : Format) (p : Parts) → HasShape f p → effective_layout p.layout f ≡ p.layout
unfolding default_layout
effective_layout-scanned no_format p h = ap (λ l. effective_layout l no_format) h.0 ∙ sym h.0
effective_layout-scanned yaml p h = ground (arith, is_nil-false p.layout.opening h.0)
effective_layout-scanned toml p h = ground (arith, is_nil-false p.layout.opening h.0)
effective_layout-scanned json p h = elim (Bool-cases (layout_is_zero p.layout)) [
  | inl zero ↦ rw zero (sym (layout_is_zero-eq p.layout zero))
  | inr some_bytes ↦ rw some_bytes
]
effective_layout-scanned (other_format s) p h = absurd h

terminate_block-terminated :
    (raw : Bytes) (l : Layout) (body : Bytes) → IsTerminated raw → terminate_block raw l body ≡ raw
unfolding terminate_block
terminate_block-terminated raw l body (inl e) = rw e
terminate_block-terminated raw l body (inr e) = ground arith

terminate_block-unfenced :
    (raw : Bytes) (l : Layout) (body : Bytes)
    → l.opening ≡ []
    → (is_nil l.closing && not (is_nil body)) ≡ false
    → terminate_block raw l body ≡ raw
unfolding terminate_block
terminate_block-unfenced raw l body o c = ground arith

-- The scanned block needs no terminator of its own.
terminate_block-scanned :
    (f : Format) (p : Parts) → HasShape f p → terminate_block p.raw p.layout p.body ≡ p.raw
terminate_block-scanned no_format p h = terminate_block-terminated p.raw p.layout p.body (inl h.1)
terminate_block-scanned yaml p h = terminate_block-terminated p.raw p.layout p.body h.1
terminate_block-scanned toml p h = terminate_block-terminated p.raw p.layout p.body h.1
terminate_block-scanned json p (o, ne, ends) =
    terminate_block-unfenced p.raw p.layout p.body o (elim (Bool-cases (is_nil p.layout.closing)) [
      | inl empty ↦ rw (empty, ends (is_nil-true p.layout.closing empty))
      | inr full ↦ rw full
    ])
terminate_block-scanned (other_format s) p h = absurd h

codec_block-decoded :
    (c : Codec) (p : Parts) (fields : Fields) (ending : Bytes)
    → IsCodec c
    → HasShape p.format p
    → HasNoNan fields
    → c.decode p.raw ≡ ok fields
    → codec_block c (block_of p fields) ending ≡ ok p.raw
unfolding codec_block authored_block
codec_block-decoded c p fields ending laws shape no_nan decoded = elim (Bool-cases (is_nil p.raw)) [
  | inl empty ↦
      let none_left =
        laws.decodes_nothing fields (ap c.decode (sym (is_nil-true p.raw empty)) ∙ decoded) in
      rw (empty, none_left) (json_raw p.format p shape empty)
  | inr full ↦
      rw (full, decoded, fields_equal_refl fields (laws.decodes_map p.raw fields decoded) no_nan)
]
  where
    json_raw :
        (f : Format) (q : Parts)
        → HasShape f q
        → is_nil q.raw ≡ true
        → (if is_json f then ok (codes "{}") else ok q.raw) ≡ ok q.raw
    json_raw json q h e = absurd (h.1 (is_nil-true q.raw e))
    json_raw no_format q h e = refl
    json_raw yaml q h e = refl
    json_raw toml q h e = refl
    json_raw (other_format s) q h e = refl

front_matter_block-decoded :
    (cs : Codecs) (p : Parts) {d : Document} (ending : Bytes) (h : IsDecoded cs p d)
    → AreCodecs cs
    → is_none p.format ≡ false
    → HasShape p.format p
    → HasNoNan h.fields
    → front_matter_block cs (block_of p h.fields) ending ≡ ok p.raw
unfolding front_matter_block
front_matter_block-decoded cs p ending h laws fenced shape no_nan =
    rw (fenced, h.found)
      (codec_block-decoded h.codec p h.fields ending (codec_for-IsCodec cs p.format laws h.found)
        shape no_nan h.decoded)

-- What Bytes writes for a document over scanned parts, once its block is the scanned one.
bytes-written :
    (cs : Codecs) (p : Parts) (fm : FrontMatter)
    → FrontMatter.validate fm ≡ ok tt
    → (is_none fm.format && body_opens_front_matter cs p.body) ≡ false
    → effective_layout p.layout fm.format ≡ p.layout
    → front_matter_block cs fm (line_ending p.layout) ≡ ok p.raw
    → terminate_block p.raw p.layout p.body ≡ p.raw
    → bytes cs (document p.layout fm p.body) ≡ ok (slots p)
unfolding bytes
bytes-written cs p fm valid closed layout block last =
    let block' = ap (λ l. front_matter_block cs fm (line_ending l)) layout ∙ block in
    rw (valid, closed, block', layout, last)

bytes-decoded :
    (cs : Codecs) (p : Parts) {d : Document}
    → AreCodecs cs
    → HasShape p.format p
    → is_none p.format ≡ false
    → HasNoNan d.content.front_matter.fields
    → IsDecoded cs p d
    → bytes cs d ≡ ok (slots p)
bytes-decoded cs p laws shape fenced no_nan h =
    ap (bytes cs) h.result
    ∙ bytes-written cs p (block_of p h.fields) h.valid (rw fenced)
        (effective_layout-scanned p.format p shape)
        (front_matter_block-decoded cs p (line_ending p.layout) h laws fenced shape
          (subst (λ e. HasNoNan e.content.front_matter.fields) h.result no_nan))
        (terminate_block-scanned p.format p shape)

is_none-eq : (f : Format) → is_none f ≡ true → f ≡ no_format
is_none-eq no_format h = refl
is_none-eq yaml h = cc
is_none-eq toml h = cc
is_none-eq json h = cc
is_none-eq (other_format s) h = cc

-- A body that was scanned as having no front matter opens none.
body_opens-none :
    (cs : Codecs) (s : Bytes) {p : Parts}
    → scan cs.json_object_end s ≡ ok p
    → is_none p.format ≡ true
    → body_opens_front_matter cs s ≡ false
unfolding body_opens_front_matter
body_opens-none cs s scanned bare = rw (scanned, bare, body_opens_front_matter)

bytes-bare :
    (cs : Codecs) (s : Bytes) (p : Parts) {d : Document}
    → scan cs.json_object_end s ≡ ok p
    → IsScan s p
    → is_none p.format ≡ true
    → d ≡ document p.layout no_front_matter p.body
    → bytes cs d ≡ ok s
unfolding front_matter_block FrontMatter.validate FrontMatter.is_known
bytes-bare cs s p scanned h bare e =
    let shape : HasShape no_format p =
      subst (λ f. HasShape f p) (is_none-eq p.format bare) h.shape in
    let whole : p.body ≡ s =
      sym (ap (λ z. z ++ p.body) shape.1)
      ∙ sym (
          ap (λ (l : Layout). mark l.has_bom ++ (l.opening ++ (p.raw ++ (l.closing ++ p.body))))
            shape.0)
      ∙ h.whole in
    ap (bytes cs) e
    ∙ bytes-written cs p no_front_matter refl
        (body_opens-none cs p.body (ap (scan cs.json_object_end) whole ∙ scanned) bare)
        (effective_layout-scanned no_format p shape) (ap ok (sym shape.1))
        (terminate_block-scanned no_format p shape)
    ∙ ap ok h.whole

-- Of codecs that keep what AreCodecs states: when Parse returns a document for the bytes s, and no
-- field holds a NaN inside a value that is neither a float64 nor a container of the decoders, such
-- as a map[any]any, then Bytes of that document returns s, byte for byte.
pub parse-bytes :
    (cs : Codecs) (s : Bytes) {d : Document}
    → AreCodecs cs
    → parse cs s ≡ ok d
    → HasNoNan d.content.front_matter.fields
    → bytes cs d ≡ ok s
parse-bytes cs s laws h no_nan =
    let r = parse-IsParsed cs s h in
    let q = scan-IsScan cs.json_object_end laws.consumes s r.scanned in
    elim r.parsed [
      | inl (bare, e) ↦ bytes-bare cs s r.parts r.scanned q bare e
      | inr (fenced, decoded) ↦
          bytes-decoded cs r.parts laws q.shape fenced no_nan decoded ∙ ap ok q.whole
    ]
