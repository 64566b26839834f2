-- ===== src/Git/Object/Framing.antt =====
-- git/object.go: what parseBatch makes of responses in the framing of cat-file --batch.
use micawber.Go.Text.Prefix.{has_suffix-append}
use mathlib.Core.Bool.{true≢false}
use micawber.Core.Errors.{ok}
use micawber.Go.Utf8.{all-runes, runes}
use micawber.Git.Object.{
  parse_header, parse_batch, parse_entry, take_object, missing_entry, valid, BatchEntry, ObjectId,
}
use micawber.Prelude.{
  suc, take-append_length, le→ltb, ltb, length-append, ◌+◌, map, drop, All, some, ==_iff,
  append_assoc, ◌==◌, ap, &&_iff, ◌∙◌, sym, inr, refl, inl, any-append, ◌<◌, [], arith, Bool-cases,
  all, length, true, is_nil-false, Bool, any, is_nil, codes, false, ◌∷◌, ◌++◌, ℕ, ◌≡◌, List, Bytes,
}
use micawber.Core.Digest.{is_lower_hex}
use micawber.Go.Number.{itoa, max_int}
use micawber.Go.Number.Laws.{is_digit, itoa-digits, atoi-itoa}
use micawber.Go.Space.{fields}
use micawber.Go.Space.Laws.{IsWord, is_word_byte, fields-word, fields-word_space}
use micawber.Go.Text.{has_suffix, equal, equal_iff, contains_byte}
use micawber.Go.Text.Cut.{cut-append}

-- What git answers a request: its text again when there is no such object, or the object.
pub data Reply : Type 0 where
  absent : Bytes → Reply
  found : ObjectId → Bytes → Bytes → Reply

abbrev pub header_of : ObjectId → Bytes → Bytes → Bytes
header_of oid typ contents = oid ++ (0x20 ∷ (typ ++ (0x20 ∷ itoa (length contents))))

-- The framing, before what follows.
abbrev pub print_reply : Reply → Bytes → Bytes
print_reply (absent request) more = (request ++ codes " missing") ++ (0x0A ∷ more)
print_reply (found oid typ contents) more =
    header_of oid typ contents ++ (0x0A ∷ (contents ++ (0x0A ∷ more)))

abbrev pub print_replies : List Reply → Bytes → Bytes
print_replies [] more = more
print_replies (r ∷ rs) more = print_reply r (print_replies rs more)

abbrev pub entry_of : Reply → BatchEntry
entry_of (absent request) = missing_entry
entry_of (found oid typ contents) = record {
  missing = false;
  typ = typ;
  oid = oid;
  contents = contents;
}

-- A request has no line feed, an id is one that git prints, a type is a word, and a size is below
-- the largest int.
abbrev pub IsReply : Reply → Type 0
IsReply (absent request) = contains_byte 0x0A request ≡ false
IsReply (found oid typ contents) = (valid oid ≡ true) × IsWord typ × (length contents < max_int)

missing_text : Bytes
missing_text = codes " missing"

digit_behind :
    (s ds : Bytes) → is_nil ds ≡ false → all is_digit ds ≡ true → any is_digit (s ++ ds) ≡ true
digit_behind s [] h k = cc
digit_behind s (d ∷ ds) h k = ground (arith, any-append is_digit s (d ∷ ds))

equal-missing : (s : Bytes) → any is_digit s ≡ true → equal s (codes " missing") ≡ false
equal-missing s h = elim (Bool-cases (equal s (codes " missing"))) [
  | inl same ↦ cc (rw ((equal_iff s (codes " missing")).0 same) at h)
  | inr other ↦ other
]

-- A text that ends in digits does not end in "missing".
has_suffix-digits :
    (s ds : Bytes)
    → is_nil ds ≡ false
    → all is_digit ds ≡ true
    → has_suffix (s ++ ds) (codes " missing") ≡ false
unfolding has_suffix
has_suffix-digits [] [] h k = cc
has_suffix-digits [] (d ∷ []) h k =
    let here = equal-missing (d ∷ []) (digit_behind [] (d ∷ []) refl k) in ground (arith, here)
has_suffix-digits [] (d ∷ e ∷ ds) h k =
    let here = equal-missing (d ∷ e ∷ ds) (digit_behind [] (d ∷ e ∷ ds) refl k) in
    let later = has_suffix-digits [] (e ∷ ds) refl (ground arith) in ground (arith, here, later)
has_suffix-digits (c ∷ s) ds h k =
    let here = equal-missing (c ∷ (s ++ ds)) (digit_behind (c ∷ s) ds h k) in
    let later = has_suffix-digits s ds h k in ground (arith, here, later)

word_of_bytes :
    (p : ℕ → Bool)
    → ((b : ℕ) → p b ≡ true → is_word_byte b ≡ true)
    → (w : Bytes) → all p w ≡ true
    → all is_word_byte w ≡ true
word_of_bytes p f [] h = refl
word_of_bytes p f (b ∷ w) h =
    let rest = word_of_bytes p f w in let first = f b in ground (arith, rest, first)

pub itoa-IsWord : (n : ℕ) → IsWord (itoa n)
itoa-IsWord n =
    let (nonempty, digits) = itoa-digits n in
    (is_nil-false (itoa n) nonempty, word_of_bytes is_digit (λ b h. ground arith) (itoa n) digits)

pub valid-IsWord : (id : ObjectId) → valid id ≡ true → IsWord id
unfolding valid
valid-IsWord [] h = ground arith
valid-IsWord (b ∷ s) h =
    let hex : all is_lower_hex (runes (b ∷ s)) ≡ true = ground arith in
    let bytes : all is_lower_hex (b ∷ s) ≡ true =
      sym (all-runes is_lower_hex (λ r high. ground arith) (b ∷ s)) ∙ hex in
    (refl, word_of_bytes is_lower_hex (λ c h. ground arith) (b ∷ s) bytes)

-- A word holds no line feed, no tab and no NUL byte.
pub contains_byte-IsWord :
    (c : ℕ) (w : Bytes)
    → is_word_byte c ≡ false
    → all is_word_byte w ≡ true
    → contains_byte c w ≡ false
contains_byte-IsWord c [] h k = refl
contains_byte-IsWord c (b ∷ w) h k =
    let (first, rest) = (&&_iff (is_word_byte b) (all is_word_byte w)).0 k in
    elim (Bool-cases (b == c)) [
      | inl same ↦
          let seen : is_word_byte c ≡ true = rw ((==_iff b c).0 same) at first in
          absurd (true≢false (sym seen ∙ h))
      | inr other ↦ rw other (contains_byte-IsWord c w h rest)
    ]

-- The header line that git prints for an object.
module _ (oid typ contents : Bytes) (is_reply : IsReply (found oid typ contents)) where
  fields-header : fields (header_of oid typ contents) ≡ oid ∷ typ ∷ itoa (length contents) ∷ []
  fields-header =
      fields-word_space oid (typ ++ (0x20 ∷ itoa (length contents))) (valid-IsWord oid is_reply.0)
      ∙ ap (λ l. oid ∷ l)
          (fields-word_space typ (itoa (length contents)) is_reply.1
            ∙ ap (λ l. typ ∷ l)
                (fields-word (itoa (length contents)) (itoa-IsWord (length contents))))

  header-one_line : contains_byte 0x0A (header_of oid typ contents) ≡ false
  header-one_line =
      let size = itoa (length contents) in
      let a = contains_byte-IsWord 0x0A oid refl (valid-IsWord oid is_reply.0).1 in
      let b = contains_byte-IsWord 0x0A typ refl is_reply.1.1 in
      let c = contains_byte-IsWord 0x0A size refl (itoa-IsWord (length contents)).1 in
      rw
        (
          any-append (λ x. x == 0x0A) oid (0x20 ∷ (typ ++ (0x20 ∷ size))),
          any-append (λ x. x == 0x0A) typ (0x20 ∷ size),
          a,
          b,
          c,
        )
        refl

  header-present : has_suffix (header_of oid typ contents) (codes " missing") ≡ false
  header-present =
      let size = itoa (length contents) in
      let (nonempty, digits) = itoa-digits (length contents) in
      let split : header_of oid typ contents ≡ (oid ++ (0x20 ∷ (typ ++ (0x20 ∷ [])))) ++ size =
        sym (
          append_assoc oid (0x20 ∷ (typ ++ (0x20 ∷ []))) size
          ∙ ap (λ l. oid ++ (0x20 ∷ l)) (append_assoc typ (0x20 ∷ []) size)) in
      rw split (
        has_suffix-digits (oid ++ (0x20 ∷ (typ ++ (0x20 ∷ [])))) size (is_nil-false size nonempty)
          digits)

-- What the object's framing leaves is what stands behind it.
take_object-framed :
    (oid typ contents more : Bytes)
    → IsReply (found oid typ contents)
    → take_object oid typ (contents ++ (0x0A ∷ more)) (some (length contents))
      ≡ ok (entry_of (found oid typ contents), more)
unfolding take_object
take_object-framed oid typ contents more h =
    let size = length-append contents (0x0A ∷ more) in
    let bounded : (length contents == max_int) ≡ false = ground (arith, h.2) in
    let enough : ltb (length (contents ++ (0x0A ∷ more))) (length contents + 1) ≡ false =
      le→ltb _ _ (omega (arith, size)) in
    rw (bounded, enough, h.0, take-append_length contents (0x0A ∷ more), drop_line contents more)
      refl
  where
    drop_line : (s more : Bytes) → drop (suc (length s)) (s ++ (0x0A ∷ more)) ≡ more
    drop_line [] more = refl
    drop_line (c ∷ s) more = drop_line s more

parse_entry-print :
    (r : Reply) (more : Bytes)
    → IsReply r
    → parse_entry (print_reply r more) ≡ ok (entry_of r, more)
unfolding parse_entry
parse_entry-print (absent request) more h =
    let header = request ++ codes " missing" in
    let one_line : contains_byte 0x0A header ≡ false =
      rw (any-append (λ x. x == 0x0A) request (codes " missing"), h) refl in
    rw
      (
        cut-append 0x0A header more one_line,
        has_suffix-append request b' ' (codes "missing"),
        parse_entry,
      )
      refl
parse_entry-print (found oid typ contents) more h =
    let header = header_of oid typ contents in
    rw
      (
        cut-append 0x0A header (contents ++ (0x0A ∷ more)) (header-one_line oid typ contents h),
        header-present oid typ contents h,
        fields-header oid typ contents h,
        atoi-itoa (length contents) (omega (arith, h.2)),
        parse_entry,
        parse_header,
      )
      (take_object-framed oid typ contents more h)

-- Of requests without a line feed, object ids that git prints, types of visible characters and
-- objects smaller than the largest int: parseBatch of the responses to them, in the framing of
-- cat-file --batch and with anything behind it, returns one entry for each, in order, with the
-- object's bytes. The objects may hold any bytes.
pub parse_batch-print :
    (rs : List Reply) (more : Bytes)
    → All IsReply rs
    → parse_batch (print_replies rs more) (length rs) ≡ ok (map entry_of rs)
unfolding parse_batch
parse_batch-print [] more h = refl
parse_batch-print (r ∷ rs) more h =
    rw (parse_entry-print r (print_replies rs more) h.0, parse_batch-print rs more h.1, parse_batch)
      refl
