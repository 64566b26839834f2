-- ===== src/Markdown/Toml/Encode/Complete.antt =====
-- markdown/toml.go: the fields of a block that encode returns.
use micawber.Core.FrontMatter.{toml}
use micawber.Go.Text.{equal_iff, equal}
use micawber.Markdown.Scan.{invalid_block}
use micawber.Prelude.{
  ◌++◌, All-map_lem, append-nil, append_assoc, refl, sym, ◌==◌, is_nil, if◌then◌else◌, ◌∙◌, ap,
  Option-cases, subst, inr, [], inl, arith, none, ◌∷◌, ◌<◌, true, Bool-cases, ◌≢◌, All, some,
  Option, List, ◌≡◌, Bytes,
}
use micawber.Core.Errors.{cannot_encode, Result, ok, err, >>=-eq-ok}
use micawber.Core.Value.{Value, Fields, lookup, has_key, IsGoMap}
use micawber.Go.Sort.{count}
use micawber.Markdown.Codec.Keys.{toml_key_order}
use micawber.Markdown.Codec.Keys.Tables.{toml_key_order-ScalarsFirst}
use micawber.Markdown.Toml.Keys.{top_level_keys}
use micawber.Markdown.Toml.Encode.{
  trim_newlines, is_null, encode_entry, encode_key, toml_encode, encode,
}

lookup-has_key : (k : Bytes) (fs : Fields) {v : Value} → lookup k fs ≡ some v → has_key k fs ≡ true
unfolding lookup
lookup-has_key k Fields.end h = cc
lookup-has_key k (Fields.field j w fs) h = elim (Bool-cases (equal j k)) [
  | inl same ↦ ground (arith, same)
  | inr other ↦ let later = lookup-has_key k fs (rw (other, lookup) at h) in ground (arith, later)
]

-- What holds of all elements holds of one that is there.
All-count : (P : Bytes → Type 0) (k : Bytes) (ks : List Bytes) → All P ks → 0 < count k ks → P k
unfolding count
All-count P k [] a h = absurd (omega arith)
All-count P k (j ∷ js) a h = elim (Bool-cases (equal j k)) [
  | inl same ↦ subst P ((equal_iff j k).0 same) a.0
  | inr other ↦ All-count P k js a.1 (ground (arith, h, other))
]

module _ (encoder : Bytes → Value → Option Bytes) where
  -- A field that has been written: it is not nil, the encoder has a text for it, and that text, less
  -- the line feeds that it begins with, stands in the block.
  pub record IsWrittenIn (out k : Bytes) (v : Value) : Type 0 where
    pub held : v ≢ Value.null
    pub newlines : Bytes
    pub kept : Bytes
    pub blank : All (λ c. c ≡ b'\n') newlines
    pub encoded : encoder k v ≡ some (newlines ++ kept)
    pub before : Bytes
    pub after : Bytes
    pub stands : out ≡ before ++ (kept ++ after)

  abbrev WritesAll : Fields → Bytes → Bytes → Type 0
  WritesAll fs out k = (v : Value) → lookup k fs ≡ some v → IsWrittenIn out k v

  -- What stands in a block stands in the block with more around it.
  widen :
      (pre out post k : Bytes) (v : Value)
      → IsWrittenIn out k v
      → IsWrittenIn (pre ++ (out ++ post)) k v
  widen pre out post k v w = record {
    held = w.held;
    newlines = w.newlines;
    kept = w.kept;
    blank = w.blank;
    encoded = w.encoded;
    before = pre ++ w.before;
    after = w.after ++ post;
    stands =
        ap (λ o. pre ++ (o ++ post)) w.stands
        ∙ ap (λ o. pre ++ o)
            (append_assoc w.before (w.kept ++ w.after) post
              ∙ ap (λ o. w.before ++ o) (append_assoc w.kept w.after post))
        ∙ sym (append_assoc pre w.before (w.kept ++ (w.after ++ post)));
  }

  trim_newlines-split :
      (s : Bytes)
      → (newlines : Bytes) × All (λ c. c ≡ b'\n') newlines × (s ≡ newlines ++ trim_newlines s)
  unfolding trim_newlines
  trim_newlines-split [] = ([], tt, refl)
  trim_newlines-split (c ∷ s) = elim (Bool-cases (c == b'\n')) [
    | inl feed ↦
        let (newlines, blank, split) = trim_newlines-split s in
        (
          c ∷ newlines,
          (ground (arith, feed), blank),
          rw (feed, trim_newlines) (ap (λ r. c ∷ r) split),
        )
    | inr other ↦ ([], tt, rw (other, trim_newlines) refl)
  ]

  encode_entry-IsWrittenIn :
      (k : Bytes) (v : Value) {out : Bytes}
      → encode_entry encoder k v ≡ ok out
      → IsWrittenIn out k v
  unfolding encode_entry
  encode_entry-IsWrittenIn k v {out} h = elim (Bool-cases (is_null v)) [
    | inl nil ↦ cc (rw (nil, encode_entry) at h)
    | inr held ↦ elim (Option-cases (encoder k v)) [
      | inl refused ↦ cc (rw (held, refused, encode_entry) at h)
      | inr (text, written) ↦
          let trimmed : trim_newlines text ≡ out = cc (rw (held, written, encode_entry) at h) in
          let (newlines, blank, split) = trim_newlines-split text in
          record {
            held = λ e. cc (ap is_null e, held);
            newlines = newlines;
            kept = trim_newlines text;
            blank = blank;
            encoded = written ∙ ap some split;
            before = [];
            after = [];
            stands = sym trimmed ∙ sym (append-nil (trim_newlines text));
          }
    ]
  ]

  encode_key-WritesAll :
      (fs : Fields) (k : Bytes) {out : Bytes}
      → encode_key encoder fs k ≡ ok out
      → WritesAll fs out k
  unfolding encode_key
  encode_key-WritesAll fs k h v found = encode_entry-IsWrittenIn k v (rw (found, encode_key) at h)

  toml_encode-WritesAll :
      (fs : Fields) (order : List Bytes) {out : Bytes}
      → toml_encode encoder fs order ≡ ok out
      → All (WritesAll fs out) order
  unfolding toml_encode
  toml_encode-WritesAll fs [] h = tt
  toml_encode-WritesAll fs (k ∷ order) {out} h =
      let (one, here, rest) = >>=-eq-ok (encode_key encoder fs k) _ h in
      let (others, later, joined) = >>=-eq-ok (toml_encode encoder fs order) _ rest in
      let whole : one ++ others ≡ out = cc joined in
      (
        λ v found.
            subst (λ o. IsWrittenIn o k v) whole
              (widen [] one others k v (encode_key-WritesAll fs k here v found)),
        All-map_lem {P = WritesAll fs others} {Q = WritesAll fs out}
            (λ j w v found.
              subst (λ o. IsWrittenIn o j v) (ap (λ o. one ++ o) (append-nil others) ∙ whole)
                (widen one others [] j v (w v found)))
            order (toml_encode-WritesAll fs order later),
      )

  -- Of a map with different keys, whatever the authored block: when the TOML codec's encode
  -- returns a block, no field of the map is nil, the encoder has a text for each, and that text,
  -- less the line feeds that it begins with, stands in the block.
  pub encode_complete :
      (fs : Fields) (prev : Bytes) {out : Bytes}
      → IsGoMap fs
      → encode encoder fs prev ≡ ok out
      → (k : Bytes) (v : Value) → lookup k fs ≡ some v
      → IsWrittenIn out k v
  unfolding encode
  encode_complete fs prev {out} distinct h k v found =
      go (if is_nil prev then some [] else top_level_keys prev) h
    where
      go :
          (authored : Option (List Bytes))
          → (elim authored as (λ _. Result Bytes) [
            | none ↦ err (invalid_block toml cannot_encode)
            | some keys ↦ toml_encode encoder fs (toml_key_order fs keys)
          ])
            ≡ ok out
          → IsWrittenIn out k v
      go none e = cc
      go (some keys) e =
          let order = toml_key_order fs keys in
          let once = (toml_key_order-ScalarsFirst fs keys distinct).1 k in
          let there = lookup-has_key k fs found in
          let listed : 0 < count k order =
            omega (arith, once ∙ ap (λ b. if b then 1 else 0) there) in
          All-count (WritesAll fs out) k order (toml_encode-WritesAll fs order e) listed v found
