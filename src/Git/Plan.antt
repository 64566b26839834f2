-- ===== src/Git/Plan.antt =====
-- git/repository.go: what one attempt of a write does against a parent commit, and the two
-- directions between content paths and paths of the repository.
pub mod Update
pub mod Guards
pub mod Create
pub mod Paths
pub mod Keeps
use micawber.Git.Object.{blob_type, BatchEntry, ObjectId}
use micawber.Go.Text.{equal}
use micawber.Prelude.{
  false, some, ◌&&◌, true, none, [], ◌||◌, not, ◌∷◌, Option, if◌then◌else◌, codes, String, List,
  Bool, Bytes,
}
use micawber.Core.Program.{Program, lift, ◌>>=◌, ◌>>◌}
use micawber.Core.Errors.{
  Result, ok, err, Error, Sentinel, sentinel, wrapped, wrapped_both, wrap, not_found, exists,
  conflict, invalid_value, refuse,
}
use micawber.Core.ContentPath.{ContentPath, new_content_path, is_zero}
use micawber.Core.Collection.{Collection, join, rel}
use micawber.Core.Content.{Content, Revision, revision_is_zero}
use micawber.Markdown.Document.{Document, Layout}
use micawber.Markdown.Codec.{Codecs}
use micawber.Markdown.Parse.{parse}
use micawber.Markdown.Serialize.{bytes, format}

-- The git commands that a plan runs: the object at a path of a commit, and a blob's id.
pub record Commands (World : Type 0) : Type 0 where
  pub cat_file : ObjectId → Bytes → Program World BatchEntry
  pub hash_object : Bytes → Program World ObjectId

-- An edit: a blob placed at a path, or the path's removal.
pub data Edit : Type 0 where
  place : Bytes → ObjectId → Edit
  remove : Bytes → Edit

-- What a writePlan returns.
pub record Planned : Type 0 where
  pub edits : List Edit
  pub revision : Revision
  pub wanted : Bool

-- sentinelf(sentinel, nil, format, path)
abbrev pub sentinelf : Sentinel → String → ContentPath → Error
sentinelf s f p = wrapped f p.p (sentinel s)

module _ (cs : Codecs) where
  -- serializeInto.
  unfoldable pub serialize_into : Bytes → Content → Result Bytes
  unfolding parse format bytes
  serialize_into stored c = elim (parse cs stored) [
    | err e ↦ wrap "git: serialize %q: %w" c.path.p (format cs c)
    | ok previous ↦
        wrap "git: serialize %q: %w" c.path.p
          (bytes cs (record { content = c; layout = previous.layout }))
  ]

module _ (cs : Codecs) {World : Type 0} (git : Commands World) where
  -- The document is written as a new blob.
  write_blob : Bytes → Bytes → Program World Planned
  write_blob path written = do
    blob ← git.hash_object written
    lift (ok (record { edits = place path blob ∷ []; revision = blob; wanted = true }))

  -- The path of a create must be free.
  path_is_free : Content → Bytes → ObjectId → Bool → Program World (Unit {0})
  path_is_free c path parent false = lift (ok tt)
  path_is_free c path parent true = do
    entry ← git.cat_file parent path
    lift (
        refuse (not entry.missing)
          (sentinelf exists "git: a document already exists at %q: %w" c.path))

  -- planCreate.
  unfoldable pub plan_create : Content → Bytes → ObjectId → Bool → Program World Planned
  unfolding path_is_free write_blob format
  plan_create c path parent born = do
    path_is_free c path parent born
    written ← lift (wrap "git: serialize %q: %w" c.path.p (format cs c))
    write_blob path written

  -- The stored document that an update or a removal is about.
  unfoldable pub stored_blob : ContentPath → Bytes → ObjectId → Bool → Program World BatchEntry
  unfolding equal
  stored_blob p path parent false = lift (err (sentinelf not_found "git: no document at %q: %w" p))
  stored_blob p path parent true = do
    stored ← git.cat_file parent path
    lift (
        refuse (stored.missing || not (equal stored.typ blob_type))
          (sentinelf not_found "git: no document at %q: %w" p))
    lift (ok stored)

  -- The document is written into its stored shape, unless that changes no byte.
  unfoldable pub rewrite : Content → Bytes → BatchEntry → Program World Planned
  unfolding serialize_into write_blob equal
  rewrite c path stored = do
    written ← lift (serialize_into cs stored.contents c)
    if equal written stored.contents
        then lift (ok (record { edits = []; revision = c.revision; wanted = false }))
        else write_blob path written

  -- planUpdate.
  unfoldable pub plan_update : Content → Bytes → ObjectId → Bool → Program World Planned
  unfolding stored_blob rewrite equal
  plan_update c path parent born = do
    stored ← stored_blob c.path path parent born
    lift (
        refuse (not (equal stored.oid c.revision))
          (sentinelf conflict "git: the document at %q has changed since it was read: %w" c.path))
    rewrite c path stored

  -- planDelete.
  unfoldable pub plan_delete :
      ContentPath → Revision → Bytes → ObjectId → Bool → Program World Planned
  unfolding stored_blob equal
  plan_delete p rev path parent born = do
    stored ← stored_blob p path parent born
    lift (
        refuse (not (revision_is_zero rev) && not (equal stored.oid rev))
          (sentinelf conflict "git: the document at %q has changed since it was read: %w" p))
    lift (ok (record { edits = remove path ∷ []; revision = []; wanted = true }))

-- repoPath.
unfoldable pub repo_path : Collection → ContentPath → Result Bytes
unfolding join
repo_path root p =
    if is_zero p
    then err (wrapped "git: the content path is empty: %w" [] (sentinel invalid_value))
    else elim (join root p.p) [
      | ok joined ↦ ok joined.p
      | err e ↦ err (
          wrapped_both "git: content path %q is not within the content root: %w: %w" p.p
            (sentinel invalid_value) e)
    ]

-- contentPath; `none` where the second result is false.
unfoldable pub content_path_of : Collection → Bytes → Option ContentPath
unfolding new_content_path rel
content_path_of root path = elim (new_content_path path) [
  | err e ↦ none
  | ok full ↦ elim (rel root full) [
    | none ↦ none
    | some relative ↦ elim (new_content_path relative) [ err e ↦ none | ok p ↦ some p ]
  ]
]
