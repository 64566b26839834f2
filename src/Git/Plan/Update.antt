-- ===== src/Git/Plan/Update.antt =====
-- git/repository.go: planUpdate on a document that was not edited.
use micawber.Core.Program.{>>=-eq, >>=-went}
use micawber.Git.Object.{blob_type, ObjectId, BatchEntry}
use micawber.Core.Value.{HasNoNan}
use micawber.Core.ContentPath.{ContentPath}
use micawber.Go.Text.{equal_iff, equal}
use micawber.Prelude.{arith, not, ◌||◌, [], refl, true, false, ◌∙◌, ap₂, Bytes, ◌≡◌}
use micawber.Core.Errors.{ok}
use micawber.Core.Content.{Content}
use micawber.Markdown.Document.{Document}
use micawber.Markdown.Codec.{Codecs, AreCodecs}
use micawber.Markdown.Parse.{parse}
use micawber.Markdown.Serialize.{bytes}
use micawber.Markdown.Serialize.RoundTrip.{parse-bytes}
use micawber.Git.Plan.{Commands, serialize_into, stored_blob, rewrite, plan_update}

-- Bytes reads the front matter, the body and the layout of a document, not its path or revision.
bytes-eq :
    (cs : Codecs) (c : Content) (d : Document)
    → c.front_matter ≡ d.content.front_matter
    → c.body ≡ d.content.body
    → bytes cs (record { content = c; layout = d.layout }) ≡ bytes cs d
unfolding bytes
bytes-eq cs c d fm body =
    ap₂
      (λ f b. bytes cs (record {
        content = record {
          path = d.content.path;
          front_matter = f;
          body = b;
          revision = d.content.revision;
        };
        layout = d.layout;
      }))
      fm body

serialize_into-unedited :
    (cs : Codecs) (stored : Bytes) (c : Content) {d : Document}
    → AreCodecs cs
    → parse cs stored ≡ ok d
    → HasNoNan d.content.front_matter.fields
    → c.front_matter ≡ d.content.front_matter
    → c.body ≡ d.content.body
    → serialize_into cs stored c ≡ ok stored
unfolding serialize_into
serialize_into-unedited cs stored c {d} laws parsed no_nan fm body =
    rw (parsed, bytes-eq cs c d fm body ∙ parse-bytes cs stored laws parsed no_nan, serialize_into)
      refl

module _ (cs : Codecs) {World : Type 0} (git : Commands World) where
  rewrite-unedited :
      (c : Content) (path : Bytes) (entry : BatchEntry) (w : World)
      → serialize_into cs entry.contents c ≡ ok entry.contents
      → rewrite cs git c path entry w
        ≡ (w, ok (record { edits = []; revision = c.revision; wanted = false }))
  unfolding rewrite
  rewrite-unedited c path entry w kept =
      let bytes_same : equal entry.contents entry.contents ≡ true =
        (equal_iff entry.contents entry.contents).1 refl in
      rw (kept, bytes_same, rewrite) refl

  stored_blob-ok :
      (p : ContentPath) (path : Bytes) (parent : ObjectId) (w : World) {entry : BatchEntry}
      → (git.cat_file parent path w).1 ≡ ok entry
      → entry.missing ≡ false
      → equal entry.typ blob_type ≡ true
      → stored_blob cs git p path parent true w ≡ ((git.cat_file parent path w).0, ok entry)
  unfolding stored_blob
  stored_blob-ok p path parent w {entry} read there blob =
      let present : (entry.missing || not (equal entry.typ blob_type)) ≡ false = ground arith in
      >>=-eq (git.cat_file parent path) _ w read ∙ rw present refl

  -- Of codecs that keep what AreCodecs states, on a born branch: when the blob stored at the path
  -- has the content's revision and parses to a document with the content's front matter and body,
  -- and no field holds a NaN inside a value that is neither a float64 nor a container of the
  -- decoders, planUpdate reads that blob and does no more. It makes no edit, wants no publication, and
  -- reports the revision that the caller holds.
  pub plan_update-unedited :
      (c : Content) (path : Bytes) (parent : ObjectId) (w : World) {entry : BatchEntry}
      {d : Document}
      → AreCodecs cs
      → (git.cat_file parent path w).1 ≡ ok entry
      → entry.missing ≡ false
      → entry.typ ≡ blob_type
      → entry.oid ≡ c.revision
      → parse cs entry.contents ≡ ok d
      → HasNoNan d.content.front_matter.fields
      → c.front_matter ≡ d.content.front_matter
      → c.body ≡ d.content.body
      → plan_update cs git c path parent true w ≡ (
        (git.cat_file parent path w).0,
        ok (record { edits = []; revision = c.revision; wanted = false }),
      )
  unfolding plan_update
  plan_update-unedited c path parent w {entry} laws read there typ oid parsed no_nan fm body =
      let blob : equal entry.typ blob_type ≡ true = (equal_iff entry.typ blob_type).1 typ in
      let found = stored_blob-ok c.path path parent w read there blob in
      let same : equal entry.oid c.revision ≡ true = (equal_iff entry.oid c.revision).1 oid in
      >>=-went (stored_blob cs git c.path path parent true) _ w found
      ∙ rw same (
          rewrite-unedited c path entry (git.cat_file parent path w).0
            (serialize_into-unedited cs entry.contents c laws parsed no_nan fm body))
