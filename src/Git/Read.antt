-- ===== src/Git/Read.antt =====
-- git/repository.go: List and Get.
pub mod Keeps
pub mod Listing
use micawber.Prelude.{
  Bool, some, none, is_nil, ◌&&◌, true, [], ◌∷◌, if◌then◌else◌, codes, false, ◌++◌, String, List,
  Option, Bytes,
}
use micawber.Go.Sort.{less}
use micawber.Go.Text.{equal}
use micawber.Core.Collection.{Collection, is_root, to_string, join}
use micawber.Core.Content.{Content, ContentEntry, Revision}
use micawber.Core.ContentPath.{ContentPath, is_markdown}
use micawber.Core.Errors.{Result, ok, err, Error, wrapped, wrapped_both, sentinel, invalid_value}
use micawber.Git.Exec.{Process, run, safe_arg, operand_separator}
use micawber.Git.Object.{ObjectId, TreeRecord, parse_ls_tree, is_document}
use micawber.Git.Plan.{repo_path, content_path_of}
use micawber.Core.Program.{Program, lift, on_result, ◌>>=◌, or_fail, next_step}
use micawber.Git.Repository.{Repository, head, read_blob, plain}
use micawber.Markdown.Codec.{Codecs}
use micawber.Markdown.Parse.{parse}

-- pathspec.
unfoldable pub pathspec : Bytes → Result Bytes
unfolding safe_arg
pathspec path = elim (safe_arg path) [ err e ↦ err e | ok _ ↦ ok (codes ":(top,literal)" ++ path) ]

-- listPrefix; the first collection is the content root.
unfoldable pub list_prefix : Collection → Collection → Result Bytes
unfolding to_string join
list_prefix root c =
    if is_root c && is_root root
    then ok []
    else if is_root c
    then ok (to_string root)
    else if is_root root
    then ok (to_string c)
    else elim (join root (to_string c)) [
      | ok joined ↦ ok joined.p
      | err e ↦ err (
          wrapped_both "git: collection %q is not within the content root %q: %w: %w" c.p
            (sentinel invalid_value) e)
    ]

-- What List's command is bounded to: nothing, or the pathspec of a directory.
unfoldable pub list_operands : Bytes → Result (List Bytes)
unfolding pathspec
list_operands prefix =
    if is_nil prefix
    then ok []
    else elim (pathspec prefix) [ err e ↦ err e | ok spec ↦ ok (operand_separator ∷ spec ∷ []) ]

-- The same of a collection below the content root.
unfoldable pub bounded_to : Collection → Collection → Result (List Bytes)
unfolding list_prefix list_operands
bounded_to root c = elim (list_prefix root c) [ err e ↦ err e | ok prefix ↦ list_operands prefix ]

abbrev pub list_args : Bytes → List Bytes → List Bytes
list_args ref bound = codes "ls-tree" ∷ codes "-r" ∷ codes "-z" ∷ codes "--full-tree" ∷ ref ∷ bound

-- The entry of a record, if it is a document that core can name.
unfoldable pub entry_of : Collection → TreeRecord → Option ContentEntry
unfolding is_document content_path_of is_markdown
entry_of root rec =
    if is_document rec
    then elim (content_path_of root rec.path) [
      | none ↦ none
      | some p ↦ if is_markdown p then some (record { path = p; revision = rec.oid }) else none
    ]
    else none

unfoldable pub entries_of : Collection → List TreeRecord → List ContentEntry
unfolding entry_of
entries_of root [] = []
entries_of root (rec ∷ recs) =
    let rest = entries_of root recs in
    elim (entry_of root rec) [ none ↦ rest | some entry ↦ entry ∷ rest ]

-- slices.SortFunc by path.
unfoldable pub insert_entry : ContentEntry → List ContentEntry → List ContentEntry
unfolding less
insert_entry e [] = e ∷ []
insert_entry e (d ∷ ds) =
    let rest = insert_entry e ds in if less d.path.p e.path.p then d ∷ rest else e ∷ d ∷ ds

unfoldable pub sort_entries : List ContentEntry → List ContentEntry
unfolding insert_entry
sort_entries [] = []
sort_entries (e ∷ es) = insert_entry e (sort_entries es)

-- The entries in what the command printed.
unfoldable pub listing : Collection → Collection → Bytes → Result (List ContentEntry)
unfolding parse_ls_tree entries_of sort_entries
listing root c out = elim (parse_ls_tree out) [
  | err e ↦ err (wrapped "git: list %q: %w" c.p e)
  | ok records ↦ ok (sort_entries (entries_of root records))
]

-- A stored document at its path.
unfoldable pub document_at :
    Codecs → String → Bytes → ContentPath → ObjectId × Bytes → Result Content
unfolding parse
document_at cs f v p (oid, stored) = elim (parse cs stored) [
  | err e ↦ err (wrapped f v e)
  | ok doc ↦ ok (record {
    path = p;
    front_matter = doc.content.front_matter;
    body = doc.content.body;
    revision = oid;
  })
]

module _ {World : Type 0} (os : Process World) (r : Repository) where
  -- What the unborn branch has, or the error.
  unborn_or {ℓ} : {A : Type ℓ} → Result A → Error → Result (ObjectId × Bool) → Result A
  unborn_or nothing e (ok (oid, false)) = nothing
  unborn_or nothing e (ok (oid, true)) = err e
  unborn_or nothing e (err reason) = err e

  unfoldable pub if_unborn {ℓ} : {A : Type ℓ} → Result A → Error → Program World A
  unfolding head unborn_or
  if_unborn nothing e = on_result (head os r) λ found. lift (unborn_or nothing e found)

  -- List behind its command.
  unfoldable pub listed : Collection → Result Bytes → Program World (List ContentEntry)
  unfolding if_unborn listing
  listed c (err e) = if_unborn (ok []) (wrapped "git: list %q: %w" c.p e)
  listed c (ok out) = lift (listing r.root c out)

  unfoldable pub list_with : Collection → List Bytes → Program World (List ContentEntry)
  unfolding run listed
  list_with c bound = on_result (run os r.exec (plain (list_args r.ref bound))) (listed c)

  -- List.
  unfoldable pub list_entries : Collection → Program World (List ContentEntry)
  unfolding bounded_to list_with
  list_entries c = or_fail (list_with c) (bounded_to r.root c)

  -- The document at a path of the repository.
  unfoldable pub get_at : Codecs → ContentPath → Bytes → Program World Content
  unfolding read_blob document_at
  get_at cs p path = do
    found ← read_blob os r (r.ref ++ (b':' ∷ path)) "git: no document at %q: %w" p.p
    lift (document_at cs "git: document %q: %w" p.p p found)

  -- Get.
  unfoldable pub get : Codecs → ContentPath → Program World Content
  unfolding repo_path get_at
  get cs p = or_fail (get_at cs p) (repo_path r.root p)
