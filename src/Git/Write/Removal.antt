-- ===== src/Git/Write/Removal.antt =====
-- git/repository.go: Delete as a compare-and-swap operation on the document.
use micawber.Prelude.{false, ◌⊎◌, inl, inr, [], ◌≡◌, ◌≢◌, some, ap, refl, Bool, ℕ, Bytes}
use micawber.Core.Change.{Change}
use micawber.Core.Collection.{Collection}
use micawber.Core.Content.{Revision}
use micawber.Core.ContentPath.{ContentPath}
use micawber.Core.Errors.{Result, ok, err, Error}
use micawber.Core.Program.{or_fail}
use micawber.Core.Program.Invariant.{Keeps}
use micawber.Git.Apply.{Backend, Meanwhile, apply, prepare}
use micawber.Git.Apply.Prepared.{prepare-IsPrepared}
use micawber.Git.Apply.Safety.{IsCut, IsWritten, IsOutcome, apply-IsOutcome}
use micawber.Git.Object.{ObjectId, BatchEntry}
use micawber.Git.Plan.{Commands, Planned, plan_delete}
use micawber.Git.Plan.Guards.{IsStored, plan_delete-guarded}
use micawber.Git.Write.{checked_delete, delete, forget_revision}
use micawber.Markdown.Codec.{Codecs}

module _ (cs : Codecs) {World : Type 0} (git : Commands World) (root : Collection)
    (backend : Change → Backend World) (meanwhile : Meanwhile World) (Kept : World → Type 0) where
  -- What a removal that succeeded did: checked, the document there where it was built, and published
  -- on the commit that it was built on, with a commit of its own.
  pub record IsRemoval (p : ContentPath) (rev : Revision) (ch : Change) (last : World)
      : Type 0 where
    pub path : Bytes
    pub checked : checked_delete root p ch ≡ ok path
    pub reported : Revision
    pub written :
        IsWritten (backend ch) (plan_delete cs git p rev path) meanwhile Kept last reported
    pub read : ((backend ch).head written.start).1 ≡ ok (written.a.parent, written.a.born)
    pub entry : BatchEntry
    pub stored :
        IsStored git written.a.parent path written.a.born ((backend ch).head written.start).0 entry
    pub as_read : rev ≢ [] → entry.oid ≡ rev
    pub commit : ObjectId
    pub committed : written.a.commit ≡ some commit

  abbrev pub IsDelete : ContentPath → Revision → Change → World × Result (Unit {0}) → Type 0
  IsDelete p rev ch (last, ok _) = IsRemoval p rev ch last
  IsDelete p rev ch (last, err e) =
      Kept last
      ⊎ ((path : Bytes) × (checked_delete root p ch ≡ ok path)
          × IsCut (backend ch) (plan_delete cs git p rev path) meanwhile Kept last e)

  module _ (reads : (k : ℕ) (w : World) → Kept w → Kept (meanwhile.before_read k w))
      (waits : (k : ℕ) (w : World) → Kept w → Kept (meanwhile.before_publish k w))
      (prepares : (p : ContentPath) (rev : Revision) (ch : Change) (path : Bytes)
        → Keeps Kept (prepare (backend ch) (plan_delete cs git p rev path)))
      (refused : (ch : Change) (k : ℕ) (w last : World) (old next : ObjectId) (born : Bool)
          (e : Error)
        → meanwhile.ended_in_publish k last ≡ false
        → Kept w
        → (backend ch).publish old next born w ≡ (last, err e)
        → Kept last) where
    written-IsDelete :
        (p : ContentPath) (rev : Revision) (ch : Change) (path : Bytes)
        (out : World × Result Revision)
        → checked_delete root p ch ≡ ok path
        → IsOutcome (backend ch) (plan_delete cs git p rev path) meanwhile Kept out
        → IsDelete p rev ch (forget_revision cs git root backend meanwhile out)
    written-IsDelete p rev ch path (last, err e) checked (inl kept) = inl kept
    written-IsDelete p rev ch path (last, err e) checked (inr cut) = inr (path, checked, cut)
    written-IsDelete p rev ch path (last, ok reported) checked written =
        let prepared =
          prepare-IsPrepared (backend ch) (plan_delete cs git p rev path) written.start
            (ap (λ out. out.1) written.prepared) in
        let (entry, stored, as_read, planned) =
          plan_delete-guarded cs git p rev path written.a.parent written.a.born _ prepared.made in
        let (commit, committed) = prepared.commits (ap (λ (q : Planned). q.wanted) planned) in
        record {
          path = path;
          checked = checked;
          reported = reported;
          written = written;
          read = prepared.read;
          entry = entry;
          stored = stored;
          as_read = as_read;
          commit = commit;
          committed = committed;
        }

    pub delete-IsDelete :
        (p : ContentPath) (rev : Revision) (ch : Change) (w : World)
        → Kept w
        → IsDelete p rev ch (delete cs git root backend meanwhile p rev ch w)
    unfolding delete
    delete-IsDelete p rev ch w kept = go (checked_delete root p ch) refl
      where
        go :
            (r : Result Bytes)
            → checked_delete root p ch ≡ r
            → IsDelete p rev ch (
                or_fail
                  (λ path w.
                    forget_revision cs git root backend meanwhile
                      (apply (backend ch) (plan_delete cs git p rev path) meanwhile w))
                  r
                  w)
        go (err e) checked = inl kept
        go (ok path) checked =
            written-IsDelete p rev ch path
              (apply (backend ch) (plan_delete cs git p rev path) meanwhile w) checked
              (apply-IsOutcome (backend ch) (plan_delete cs git p rev path) meanwhile Kept reads
                waits (prepares p rev ch path) (refused ch) w kept)
