-- ===== src/Git/Object/Tree.antt =====
-- git/object.go: what parseLsTree makes of a listing of ls-tree -z.
use micawber.Core.Errors.{ok}
use micawber.Prelude.{
  ap, refl, ◌∙◌, any-append, ◌==◌, [], All, false, true, ◌∷◌, ◌++◌, is_nil, ℕ, ◌≡◌, Bytes, List,
}
use micawber.Git.Object.{tree_record, parse_records, parse_record, valid, parse_ls_tree, TreeRecord}
use micawber.Go.Space.{fields}
use micawber.Go.Space.Laws.{is_word_byte, IsWord, fields-word, fields-word_space}
use micawber.Go.Text.{contains_byte, split}
use micawber.Go.Text.Cut.{cut-append}
use micawber.Go.Text.Split.{split-append, split_single}
use micawber.Git.Object.Framing.{valid-IsWord, contains_byte-IsWord}

abbrev pub head_of : TreeRecord → Bytes
head_of rec = rec.mode ++ (0x20 ∷ (rec.typ ++ (0x20 ∷ rec.oid)))

abbrev pub print_record : TreeRecord → Bytes
print_record rec = head_of rec ++ (0x09 ∷ rec.path)

-- The listing: each record ends in a NUL byte.
abbrev pub print_records : List TreeRecord → Bytes
print_records [] = []
print_records (rec ∷ recs) = print_record rec ++ (0 ∷ print_records recs)

-- The mode and the type are words, the id is one that git prints, and the path has no NUL byte.
abbrev pub IsListed : TreeRecord → Type 0
IsListed rec =
    IsWord rec.mode × IsWord rec.typ × (valid rec.oid ≡ true) × (contains_byte 0 rec.path ≡ false)

module _ (rec : TreeRecord) (listed : IsListed rec) where
  fields-head : fields (head_of rec) ≡ rec.mode ∷ rec.typ ∷ rec.oid ∷ []
  fields-head =
      fields-word_space rec.mode (rec.typ ++ (0x20 ∷ rec.oid)) listed.0
      ∙ ap (λ l. rec.mode ∷ l)
          (fields-word_space rec.typ rec.oid listed.1
            ∙ ap (λ l. rec.typ ∷ l) (fields-word rec.oid (valid-IsWord rec.oid listed.2)))

  head-without :
      (c : ℕ) → is_word_byte c ≡ false → (0x20 == c) ≡ false → contains_byte c (head_of rec) ≡ false
  head-without c blank other =
      let a = contains_byte-IsWord c rec.mode blank listed.0.1 in
      let b = contains_byte-IsWord c rec.typ blank listed.1.1 in
      let d = contains_byte-IsWord c rec.oid blank (valid-IsWord rec.oid listed.2).1 in
      rw
        (
          any-append (λ x. x == c) rec.mode (0x20 ∷ (rec.typ ++ (0x20 ∷ rec.oid))),
          any-append (λ x. x == c) rec.typ (0x20 ∷ rec.oid),
          a,
          b,
          d,
          other,
        )
        refl

  one_record : contains_byte 0 (print_record rec) ≡ false
  one_record =
      rw
        (
          any-append (λ x. x == 0) (head_of rec) (0x09 ∷ rec.path),
          head-without 0 refl refl,
          listed.3,
        )
        refl

  parse_record-print : parse_record (print_record rec) ≡ ok rec
  unfolding parse_record tree_record
  parse_record-print =
      rw
        (
          cut-append 0x09 (head_of rec) rec.path (head-without 0x09 refl refl),
          fields-head,
          listed.2,
          parse_record,
        )
        refl

is_nil-between : (m : Bytes) (c : ℕ) (s t : Bytes) → is_nil ((m ++ (c ∷ s)) ++ t) ≡ false
is_nil-between [] c s t = refl
is_nil-between (b ∷ m) c s t = refl

-- Of records whose mode and type are visible characters, whose id is one that git prints and
-- whose path has no NUL byte: parseLsTree of the listing, in which a NUL byte ends each record,
-- returns the records, in order.
pub parse_ls_tree-print :
    (recs : List TreeRecord) → All IsListed recs → parse_ls_tree (print_records recs) ≡ ok recs
unfolding parse_ls_tree parse_records
parse_ls_tree-print [] h = unfold split in refl
parse_ls_tree-print (rec ∷ recs) h =
    let raw = print_record rec in
    let pieces : split 0 (raw ++ (0 ∷ print_records recs)) ≡ raw ∷ split 0 (print_records recs) =
      split-append 0 raw (print_records recs)
      ∙ ap (λ l. l ++ split 0 (print_records recs)) (split_single 0 raw (one_record rec h.0)) in
    let rest = parse_ls_tree-print recs h.1 in
    rw
      (
        pieces,
        is_nil-between rec.mode 0x20 (rec.typ ++ (0x20 ∷ rec.oid)) (0x09 ∷ rec.path),
        parse_record-print rec h.0,
        parse_ls_tree,
        rest,
      )
      refl
