-- ===== src/Git/Read/Listing.antt =====
-- git/repository.go: what List lists.
use micawber.Prelude.{
  ◌⊎◌, ◌↔◌, ap, sym, ◌∙◌, arith, codes, Option-cases, inr, inl, refl, [], All-map_lem, if-elim,
  Bool-cases, false, subst, some, All, ◌∷◌, true, Bytes, List, ◌≡◌,
}
use micawber.Go.Text.{equal, equal_iff}
use micawber.Go.Sort.{less}
use micawber.Go.Sort.Laws.{less-asymm}
use mathlib.Core.List.{Permᴰ, Memᴰ}
use mathlib.Core.List.Permᴰ
use micawber.Core.Collection.{Collection}
use micawber.Core.Content.{ContentEntry}
use micawber.Core.ContentPath.{is_markdown}
use micawber.Core.Errors.{Result, ok, err, wrapped}
use micawber.Git.Object.{TreeRecord, parse_ls_tree, is_document}
use micawber.Git.Plan.{content_path_of}
use micawber.Git.Read.{entry_of, entries_of, insert_entry, sort_entries, listing}

-- An entry of a record: a document that core can name and the root contains, a Markdown file.
pub record IsEntryOf (root : Collection) (entry : ContentEntry) (rec : TreeRecord) : Type 0 where
  pub typ : rec.typ ≡ codes "blob"
  pub mode : (rec.mode ≡ codes "100644") ⊎ (rec.mode ≡ codes "100755")
  pub named : content_path_of root rec.path ≡ some entry.path
  pub markdown : is_markdown entry.path ≡ true
  pub blob : entry.revision ≡ rec.oid

-- The paths do not descend.
abbrev pub Ordered : List ContentEntry → Type 0
Ordered [] = Unit
Ordered (e ∷ []) = Unit
Ordered (e ∷ d ∷ ds) = (less d.path.p e.path.p ≡ false) × Ordered (d ∷ ds)

abbrev pub ComesFrom : Collection → List TreeRecord → ContentEntry → Type 0
ComesFrom root recs entry = (rec : TreeRecord) × Memᴰ rec recs × IsEntryOf root entry rec

pub record IsListing (root : Collection) (recs : List TreeRecord) (entries : List ContentEntry)
    : Type 0 where
  pub ordered : Ordered entries
  pub sound : All (ComesFrom root recs) entries
  pub complete :
      (rec : TreeRecord) (entry : ContentEntry)
      → Memᴰ rec recs
      → IsEntryOf root entry rec
      → Memᴰ entry entries
  pub once : Permᴰ entries (entries_of root recs)

between :
    (d e c : ContentEntry) (ds : List ContentEntry)
    → less e.path.p d.path.p ≡ false
    → less c.path.p d.path.p ≡ false
    → Ordered (insert_entry e (c ∷ ds))
    → Ordered (d ∷ insert_entry e (c ∷ ds))
unfolding insert_entry
between d e c ds h k ordered = elim (Bool-cases (less c.path.p e.path.p)) [
  | inl below ↦ rw (below, insert_entry) (k, rw (below, insert_entry) at ordered)
  | inr above ↦ rw (above, insert_entry) (h, rw (above, insert_entry) at ordered)
]

insert_entry-Ordered :
    (e : ContentEntry) (ds : List ContentEntry) → Ordered ds → Ordered (insert_entry e ds)
unfolding insert_entry
insert_entry-Ordered e [] h = tt
insert_entry-Ordered e (d ∷ []) h = elim (Bool-cases (less d.path.p e.path.p)) [
  | inl below ↦ rw (below, insert_entry) (less-asymm d.path.p e.path.p below, tt)
  | inr above ↦ rw (above, insert_entry) (above, tt)
]
insert_entry-Ordered e (d ∷ c ∷ ds) h = elim (Bool-cases (less d.path.p e.path.p)) [
  | inl below ↦
      rw (below, insert_entry)
        (between d e c ds (less-asymm d.path.p e.path.p below) h.0
          (insert_entry-Ordered e (c ∷ ds) h.1))
  | inr above ↦ rw (above, insert_entry) (above, h)
]

insert_entry-Permᴰ :
    (e : ContentEntry) (ds : List ContentEntry) → Permᴰ (insert_entry e ds) (e ∷ ds)
unfolding insert_entry
insert_entry-Permᴰ e [] = Permᴰ.refl (e ∷ [])
insert_entry-Permᴰ e (d ∷ ds) = elim (Bool-cases (less d.path.p e.path.p)) [
  | inl below ↦
      rw (below, insert_entry)
        (Permᴰ.trans (Permᴰ.cons refl (insert_entry-Permᴰ e ds)) (Permᴰ.swap refl refl))
  | inr above ↦ rw (above, insert_entry) (Permᴰ.refl (e ∷ d ∷ ds))
]

sort_entries-Permᴰ : (es : List ContentEntry) → Permᴰ (sort_entries es) es
unfolding sort_entries
sort_entries-Permᴰ [] = Permᴰ.refl []
sort_entries-Permᴰ (e ∷ es) =
    Permᴰ.trans (insert_entry-Permᴰ e (sort_entries es)) (Permᴰ.cons refl (sort_entries-Permᴰ es))

sort_entries-Ordered : (es : List ContentEntry) → Ordered (sort_entries es)
unfolding sort_entries
sort_entries-Ordered [] = tt
sort_entries-Ordered (e ∷ es) = insert_entry-Ordered e (sort_entries es) (sort_entries-Ordered es)

All-insert_entry :
    (P : ContentEntry → Type 0) (e : ContentEntry) (ds : List ContentEntry)
    → P e
    → All P ds
    → All P (insert_entry e ds)
unfolding insert_entry
All-insert_entry P e [] p h = (p, tt)
All-insert_entry P e (d ∷ ds) p h =
    if-elim (All P) (less d.path.p e.path.p) (h.0, All-insert_entry P e ds p h.1) (p, h)

All-sort_entries :
    (P : ContentEntry → Type 0) (es : List ContentEntry) → All P es → All P (sort_entries es)
unfolding sort_entries
All-sort_entries P [] h = tt
All-sort_entries P (e ∷ es) h =
    All-insert_entry P e (sort_entries es) h.0 (All-sort_entries P es h.1)

is_document_iff :
    (rec : TreeRecord)
    → (is_document rec ≡ true)
      ↔ ((rec.typ ≡ codes "blob") × ((rec.mode ≡ codes "100644") ⊎ (rec.mode ≡ codes "100755")))
unfolding is_document
is_document_iff rec =
    let typ = equal_iff rec.typ (codes "blob") in
    let plain = equal_iff rec.mode (codes "100644") in
    let program = equal_iff rec.mode (codes "100755") in
    (
      λ h.
          let blob : equal rec.typ (codes "blob") ≡ true = ground (arith, h) in
          (
            typ.0 blob,
            elim (Bool-cases (equal rec.mode (codes "100644"))) [
              | inl is_plain ↦ inl (plain.0 is_plain)
              | inr other ↦
                  let runs : equal rec.mode (codes "100755") ≡ true = ground (arith, h, other) in
                  inr (program.0 runs)
            ],
          ),
      λ (blob, mode).
          let of_type : equal rec.typ (codes "blob") ≡ true = typ.1 blob in
          elim mode [
            | inl is_plain ↦
                let m : equal rec.mode (codes "100644") ≡ true = plain.1 is_plain in
                ground (arith, of_type, m)
            | inr runs ↦
                let m : equal rec.mode (codes "100755") ≡ true = program.1 runs in
                ground (arith, of_type, m)
          ],
    )

entry_of-found :
    (root : Collection) (rec : TreeRecord) (entry : ContentEntry)
    → IsEntryOf root entry rec
    → entry_of root rec ≡ some entry
unfolding entry_of
entry_of-found root rec entry h =
    rw ((is_document_iff rec).1 (h.typ, h.mode), h.named, h.markdown, entry_of)
      (ap (λ oid. some (record { path = entry.path; revision = oid })) (sym h.blob))

entries_of-complete :
    (root : Collection) (recs : List TreeRecord) (rec : TreeRecord) (entry : ContentEntry)
    → Memᴰ rec recs
    → IsEntryOf root entry rec
    → Memᴰ entry (entries_of root recs)
unfolding entries_of
entries_of-complete root [] rec entry m h = elim m [ ]
entries_of-complete root (r ∷ recs) rec entry (Memᴰ.head e) h =
    let found : entry_of root r ≡ some entry =
      ap (entry_of root) (sym e) ∙ entry_of-found root rec entry h in
    rw (found, entries_of) (Memᴰ.head refl)
entries_of-complete root (r ∷ recs) rec entry (Memᴰ.tail m) h =
    let later = entries_of-complete root recs rec entry m h in
    elim (Option-cases (entry_of root r)) [
      | inl none_here ↦ rw (none_here, entries_of) later
      | inr (other, here) ↦ rw (here, entries_of) (Memᴰ.tail later)
    ]

Mem-past :
    (x e d : ContentEntry) (ds : List ContentEntry)
    → (Memᴰ x (e ∷ ds) → Memᴰ x (insert_entry e ds))
    → Memᴰ x (e ∷ d ∷ ds)
    → Memᴰ x (d ∷ insert_entry e ds)
Mem-past x e d ds later (Memᴰ.head s) = Memᴰ.tail (later (Memᴰ.head s))
Mem-past x e d ds later (Memᴰ.tail (Memᴰ.head s)) = Memᴰ.head s
Mem-past x e d ds later (Memᴰ.tail (Memᴰ.tail n)) = Memᴰ.tail (later (Memᴰ.tail n))

Mem-insert_entry :
    (x e : ContentEntry) (ds : List ContentEntry) → Memᴰ x (e ∷ ds) → Memᴰ x (insert_entry e ds)
unfolding insert_entry
Mem-insert_entry x e [] m = m
Mem-insert_entry x e (d ∷ ds) m =
    if-elim (Memᴰ x) (less d.path.p e.path.p) (Mem-past x e d ds (Mem-insert_entry x e ds) m) m

Mem-sort_entries :
    (x : ContentEntry) (es : List ContentEntry) → Memᴰ x es → Memᴰ x (sort_entries es)
unfolding sort_entries
Mem-sort_entries x [] m = m
Mem-sort_entries x (e ∷ es) (Memᴰ.head s) = Mem-insert_entry x e (sort_entries es) (Memᴰ.head s)
Mem-sort_entries x (e ∷ es) (Memᴰ.tail m) =
    Mem-insert_entry x e (sort_entries es) (Memᴰ.tail (Mem-sort_entries x es m))

entry_of-IsEntryOf :
    (root : Collection) (rec : TreeRecord) {entry : ContentEntry}
    → entry_of root rec ≡ some entry
    → IsEntryOf root entry rec
unfolding entry_of
entry_of-IsEntryOf root rec {entry} h = elim (Bool-cases (is_document rec)) [
  | inr other ↦ cc (rw (other, entry_of) at h)
  | inl document ↦ elim (Option-cases (content_path_of root rec.path)) [
    | inl outside ↦ cc (rw (document, outside, entry_of) at h)
    | inr (p, named) ↦ elim (Bool-cases (is_markdown p)) [
      | inr other ↦ cc (rw (document, named, other, entry_of) at h)
      | inl markdown ↦
          let made : ContentEntry = record { path = p; revision = rec.oid } in
          let same : made ≡ entry = cc (rw (document, named, markdown, entry_of) at h) in
          subst (λ e. IsEntryOf root e rec) same
            (record {
              typ = ((is_document_iff rec).0 document).0;
              mode = ((is_document_iff rec).0 document).1;
              named = named;
              markdown = markdown;
              blob = refl;
            })
    ]
  ]
]

entries_of-ComesFrom :
    (root : Collection) (recs : List TreeRecord) → All (ComesFrom root recs) (entries_of root recs)
unfolding entries_of
entries_of-ComesFrom root [] = tt
entries_of-ComesFrom root (rec ∷ recs) =
    let later =
      All-map_lem {P = ComesFrom root recs} {Q = ComesFrom root (rec ∷ recs)}
        (λ e (r, m, i). (r, Memᴰ.tail m, i)) (entries_of root recs)
        (entries_of-ComesFrom root recs) in
    elim (Option-cases (entry_of root rec)) [
      | inl none_here ↦ rw (none_here, entries_of) later
      | inr (entry, here) ↦
          rw (here, entries_of) ((rec, Memᴰ.head refl, entry_of-IsEntryOf root rec here), later)
    ]

-- When List returns entries from what ls-tree printed, the output parsed to records; the
-- entries stand in the order of their paths; each comes from a record that is a regular file
-- with a blob, whose path within the content root is the entry's, a Markdown file, and whose id
-- is its revision; every entry that a record gives in this sense is among them; and they are a
-- permutation of what entries_of makes of the records.
pub listing-IsListing :
    (root c : Collection) (out : Bytes) {entries : List ContentEntry}
    → listing root c out ≡ ok entries
    → (recs : List TreeRecord) × (parse_ls_tree out ≡ ok recs) × IsListing root recs entries
unfolding listing
listing-IsListing root c out {entries} h = go (parse_ls_tree out) refl h
  where
    go :
        (r : Result (List TreeRecord))
        → parse_ls_tree out ≡ r
        → (elim r as (λ _. Result (List ContentEntry)) [
          | err e ↦ err (wrapped "git: list %q: %w" c.p e)
          | ok records ↦ ok (sort_entries (entries_of root records))
        ])
          ≡ ok entries
        → (recs : List TreeRecord) × (parse_ls_tree out ≡ ok recs) × IsListing root recs entries
    go (err e) parsed h = cc
    go (ok recs) parsed h =
        let es = entries_of root recs in
        let same : sort_entries es ≡ entries = cc h in
        (
          recs,
          parsed,
          subst (IsListing root recs) same (record {
            ordered = sort_entries-Ordered es;
            sound = All-sort_entries (ComesFrom root recs) es (entries_of-ComesFrom root recs);
            complete = λ rec entry there h.
                Mem-sort_entries entry es (entries_of-complete root recs rec entry there h);
            once = sort_entries-Permᴰ es;
          }),
        )
