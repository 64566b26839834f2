-- ===== src/Git/Plan/Guards.antt =====
-- git/repository.go: what planUpdate and planDelete check before they plan a write.
use micawber.Git.Object.{blob_type, BatchEntry, ObjectId}
use micawber.Go.Text.{equal_iff, equal}
use micawber.Prelude.{
  inr, inl, Bool-cases, is_nil-false, refl, is_nil, ◌&&◌, subst, ◌⊎◌, ◌∷◌, arith, [], not, false,
  ◌≢◌, ◌||◌, true, ◌≡◌, Bool, Bytes,
}
use micawber.Core.Errors.{ok, refuse-ok_iff, refuse}
use micawber.Core.Program.{lift, >>=-ok}
use micawber.Core.ContentPath.{ContentPath}
use micawber.Core.Content.{Content, Revision, revision_is_zero}
use micawber.Markdown.Codec.{Codecs}
use micawber.Git.Plan.{
  serialize_into, write_blob, Commands, Planned, remove, place, stored_blob, rewrite, plan_update,
  plan_delete,
}

module _ {World : Type 0} (git : Commands World) where
  -- A document is stored at the path, in the commit of a branch that is born.
  pub record IsStored (parent : ObjectId) (path : Bytes) (born : Bool) (w : World)
      (entry : BatchEntry) : Type 0 where
    pub is_born : born ≡ true
    pub read : (git.cat_file parent path w).1 ≡ ok entry
    pub present : entry.missing ≡ false
    pub is_blob : entry.typ ≡ blob_type

-- What an update that goes ahead writes: nothing, or one blob at the path, whose id it reports.
abbrev pub IsUpdate : Bytes → Revision → Planned → Type 0
IsUpdate path rev r =
    ((r.wanted ≡ false) × (r.edits ≡ []) × (r.revision ≡ rev))
    ⊎ ((r.wanted ≡ true) × (r.edits ≡ place path r.revision ∷ []))

module _ (cs : Codecs) {World : Type 0} (git : Commands World) where
  stored_blob-IsStored :
      (p : ContentPath) (path : Bytes) (parent : ObjectId) (born : Bool) (w : World)
      {entry : BatchEntry}
      → (stored_blob cs git p path parent born w).1 ≡ ok entry
      → IsStored git parent path born w entry
  unfolding stored_blob
  stored_blob-IsStored p path parent false w h = cc
  stored_blob-IsStored p path parent true w {entry} h =
      let (found, read, rest) = >>=-ok (git.cat_file parent path) _ w h in
      let bad = found.missing || not (equal found.typ blob_type) in
      let (_, checked, returned) = >>=-ok (lift (refuse bad _)) _ _ rest in
      let passed : bad ≡ false = (refuse-ok_iff bad _).0 checked in
      let same : found ≡ entry = cc returned in
      let there : found.missing ≡ false = ground arith in
      let blob : equal found.typ blob_type ≡ true = ground arith in
      subst (IsStored git parent path true w) same (record {
        is_born = refl;
        read = read;
        present = there;
        is_blob = (equal_iff found.typ blob_type).0 blob;
      })

  -- When planDelete returns no error, the branch is born, the parent commit holds a blob at the
  -- path, and its id is the given revision unless that is empty. The plan is to remove that path
  -- and nothing else.
  pub plan_delete-guarded :
      (p : ContentPath) (rev : Revision) (path : Bytes) (parent : ObjectId) (born : Bool)
      (w : World) {r : Planned}
      → (plan_delete cs git p rev path parent born w).1 ≡ ok r
      → (entry : BatchEntry) × IsStored git parent path born w entry
        × ((rev ≢ []) → entry.oid ≡ rev)
        × (r ≡ record { edits = remove path ∷ []; revision = []; wanted = true })
  unfolding plan_delete
  plan_delete-guarded p rev path parent born w h =
      let (entry, found, rest) = >>=-ok (stored_blob cs git p path parent born) _ w h in
      let changed = not (revision_is_zero rev) && not (equal entry.oid rev) in
      let (_, checked, returned) = >>=-ok (lift (refuse changed _)) _ _ rest in
      let passed : changed ≡ false = (refuse-ok_iff changed _).0 checked in
      (
        entry,
        stored_blob-IsStored p path parent born w found,
        λ ne.
            let some_rev : is_nil rev ≡ false = is_nil-false rev ne in
            let same : equal entry.oid rev ≡ true = ground arith in
            (equal_iff entry.oid rev).0 same,
        cc returned,
      )

  rewrite-IsUpdate :
      (c : Content) (path : Bytes) (entry : BatchEntry) (w : World) {r : Planned}
      → (rewrite cs git c path entry w).1 ≡ ok r
      → IsUpdate path c.revision r
  unfolding rewrite write_blob
  rewrite-IsUpdate c path entry w {r} h =
      let (written, made, rest) = >>=-ok (lift (serialize_into cs entry.contents c)) _ w h in
      elim (Bool-cases (equal written entry.contents)) [
        | inl same ↦
            let nothing : Planned = record { edits = []; revision = c.revision; wanted = false } in
            let e : nothing ≡ r = cc (rw same at rest) in
            subst (IsUpdate path c.revision) e (inl (refl, refl, refl))
        | inr changed ↦
            let (blob, hashed, planned) =
              >>=-ok (git.hash_object written) _ w (rw changed at rest) in
            let one : Planned = record {
              edits = place path blob ∷ [];
              revision = blob;
              wanted = true;
            } in
            let e : one ≡ r = cc planned in subst (IsUpdate path c.revision) e (inr (refl, refl))
      ]

  -- When planUpdate returns no error, the branch is born, the parent commit holds a blob at the
  -- path, and the blob's id is the content's revision. The plan is either to write nothing and
  -- report that revision, or to place one blob at the path and report its id.
  pub plan_update-guarded :
      (c : Content) (path : Bytes) (parent : ObjectId) (born : Bool) (w : World) {r : Planned}
      → (plan_update cs git c path parent born w).1 ≡ ok r
      → (entry : BatchEntry) × IsStored git parent path born w entry
        × (entry.oid ≡ c.revision)
        × IsUpdate path c.revision r
  unfolding plan_update
  plan_update-guarded c path parent born w h =
      let (entry, found, rest) = >>=-ok (stored_blob cs git c.path path parent born) _ w h in
      let moved = not (equal entry.oid c.revision) in
      let (_, checked, written) = >>=-ok (lift (refuse moved _)) _ _ rest in
      let passed : moved ≡ false = (refuse-ok_iff moved _).0 checked in
      let same : equal entry.oid c.revision ≡ true = ground arith in
      (
        entry,
        stored_blob-IsStored c.path path parent born w found,
        (equal_iff entry.oid c.revision).0 same,
        rewrite-IsUpdate c path entry _ written,
      )
