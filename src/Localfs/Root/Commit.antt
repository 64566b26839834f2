-- ===== src/Localfs/Root/Commit.antt =====
-- localfs/root.go: the order of commit's steps, and what abort leaves.
use micawber.Localfs.Errors.{classify, is_cause}
use micawber.Prelude.{if-elim, zero, inr, suc, inl, refl, ℕ, Bool-cases, subst, ◌≡◌, Bytes}
use micawber.Core.Errors.{name_taken, Result, ok, err, Error}
use micawber.Core.Program.{Program, or_fail, next_step, ◌>>=◌}
use micawber.Localfs.Root.{
  classified, FileSystem, ObjectInfo, TempFile, Progress, temp_name, sync_dir, commit, abort,
  after_stat, after_sync, after_close, after_rename, create_temp, create_named, named_temp, or_next,
}

-- A temporary file has the name that createTemp makes of a directory and random bytes.
abbrev pub IsTempName : Bytes → Type 0
IsTempName name = (d : Bytes) × (raw : Bytes) × (name ≡ temp_name d raw)

module _ {World Handle : Type 0} (fs : FileSystem World Handle) (Kept : World → Type 0) where
  -- The property does not depend on directories, on random bytes and on temporary files, open or
  -- closed, and a rename that fails changes nothing that it depends on.
  pub record LeavesAlone : Type 0 where
    pub stats : (file : Handle) (w : World) → Kept w → Kept (fs.stat file w).0
    pub writes : (file : Handle) (b : Bytes) (w : World) → Kept w → Kept (fs.write file b w).0
    pub syncs : (file : Handle) (w : World) → Kept w → Kept (fs.sync file w).0
    pub closes : (file : Handle) (w : World) → Kept w → Kept (fs.close file w).0
    pub makes : (name : Bytes) (w : World) → Kept w → Kept (fs.mkdir_all name w).0
    pub draws : (w : World) → Kept w → Kept (fs.random w).0
    pub creates :
        (name : Bytes) (w : World) → IsTempName name → Kept w → Kept (fs.create_new name w).0
    pub removes : (name : Bytes) (w : World) → IsTempName name → Kept w → Kept (fs.remove name w).0
    pub refuses :
        (old name : Bytes) (w last : World) (e : Error)
        → fs.rename old name w ≡ (last, err e)
        → Kept w
        → Kept last

  -- The file was synced and closed, and then renamed in a world with the property; behind that
  -- only the directory was synced.
  pub record IsPublished (t : TempFile Handle) (name : Bytes) (info : ObjectInfo) (last : World)
      : Type 0 where
    pub start : World
    pub measured : World
    pub stated : fs.stat t.file start ≡ (measured, ok info)
    pub flushed : World
    pub synced : fs.sync t.file measured ≡ (flushed, ok tt)
    pub settled : World
    pub closed : fs.close t.file flushed ≡ (settled, ok tt)
    pub kept : Kept settled
    pub moved : World
    pub renamed : fs.rename t.name name settled ≡ (moved, ok tt)
    pub ends : last ≡ (sync_dir fs t.dir moved).0

  abbrev pub IsCommit :
      TempFile Handle → Bytes → World × Result (Progress × Result ObjectInfo) → Type 0
  IsCommit t name (last, err e) = Kept last
  IsCommit t name (last, ok (done, err e)) = Kept last
  IsCommit t name (last, ok (done, ok info)) = IsPublished t name info last

  module _ (alone : LeavesAlone) (t : TempFile Handle) (name : Bytes) where
    after_rename-IsCommit :
        (start w1 w2 w3 : World) (info : ObjectInfo)
        → fs.stat t.file start ≡ (w1, ok info)
        → fs.sync t.file w1 ≡ (w2, ok tt)
        → fs.close t.file w2 ≡ (w3, ok tt)
        → Kept w3
        → (r : World × Result (Unit {0})) → fs.rename t.name name w3 ≡ r
        → IsCommit t name (after_rename fs t info r.1 r.0)
    unfolding after_rename
    after_rename-IsCommit start w1 w2 w3 info stated synced closed kept (w4, err e) renamed =
        alone.refuses t.name name w3 w4 e renamed kept
    after_rename-IsCommit start w1 w2 w3 info stated synced closed kept (w4, ok done) renamed =
        record {
          start = start;
          measured = w1;
          stated = stated;
          flushed = w2;
          synced = synced;
          settled = w3;
          closed = closed;
          kept = kept;
          moved = w4;
          renamed = renamed;
          ends = refl;
        }

    after_close-IsCommit :
        (start w1 w2 : World) (info : ObjectInfo)
        → fs.stat t.file start ≡ (w1, ok info)
        → fs.sync t.file w1 ≡ (w2, ok tt)
        → Kept w2
        → (r : World × Result (Unit {0})) → fs.close t.file w2 ≡ r
        → IsCommit t name (after_close fs t name info r.1 r.0)
    unfolding after_close
    after_close-IsCommit start w1 w2 info stated synced kept (w3, err e) closed =
        subst (λ out. Kept out.0) closed (alone.closes t.file w2 kept)
    after_close-IsCommit start w1 w2 info stated synced kept (w3, ok done) closed =
        after_rename-IsCommit start w1 w2 w3 info stated synced closed
          (subst (λ out. Kept out.0) closed (alone.closes t.file w2 kept))
          (fs.rename t.name name w3) refl

    after_sync-IsCommit :
        (start w1 : World) (info : ObjectInfo)
        → fs.stat t.file start ≡ (w1, ok info)
        → Kept w1
        → (r : World × Result (Unit {0})) → fs.sync t.file w1 ≡ r
        → IsCommit t name (after_sync fs t name info r.1 r.0)
    unfolding after_sync
    after_sync-IsCommit start w1 info stated kept (w2, err e) synced =
        subst (λ out. Kept out.0) synced (alone.syncs t.file w1 kept)
    after_sync-IsCommit start w1 info stated kept (w2, ok done) synced =
        after_close-IsCommit start w1 w2 info stated synced
          (subst (λ out. Kept out.0) synced (alone.syncs t.file w1 kept)) (fs.close t.file w2) refl

    pub commit-IsCommit : (start : World) → Kept start → IsCommit t name (commit fs t name start)
    unfolding commit after_stat
    commit-IsCommit start kept = go (fs.stat t.file start) refl
      where
        go :
            (r : World × Result ObjectInfo)
            → fs.stat t.file start ≡ r
            → IsCommit t name (after_stat fs t name r.1 r.0)
        go (w1, err e) stated = subst (λ out. Kept out.0) stated (alone.stats t.file start kept)
        go (w1, ok info) stated =
            after_sync-IsCommit start w1 info stated
              (subst (λ out. Kept out.0) stated (alone.stats t.file start kept)) (fs.sync t.file w1)
              refl

  module _ (alone : LeavesAlone) where
    pub Kept-abort :
        (t : TempFile Handle) (done : Progress) (w : World)
        → IsTempName t.name
        → Kept w
        → Kept (abort fs t done w).0
    unfolding abort
    Kept-abort t done w named kept = elim (Bool-cases done.committed) [
      | inl committed ↦ rw (committed, abort) kept
      | inr unfinished ↦ elim (Bool-cases done.closed) [
        | inl closed ↦ rw (unfinished, closed, abort) (alone.removes t.name w named kept)
        | inr still_open ↦
            rw (unfinished, still_open, abort)
              (alone.removes t.name (fs.close t.file w).0 named (alone.closes t.file w kept))
      ]
    ]

    -- A temporary file, or an error; either way with the property.
    abbrev pub IsTemp : World × Result (TempFile Handle) → Type 0
    IsTemp (w, ok t) = IsTempName t.name × Kept w
    IsTemp (w, err e) = Kept w

    -- One attempt at a name, where the next ones give such a file or an error.
    create_named-IsTemp :
        (d raw : Bytes) (again : Error → Program World (TempFile Handle))
        → ((e : Error) (v : World) → Kept v → IsTemp (again e v))
        → (w : World) → Kept w
        → IsTemp ((create_named fs d (temp_name d raw) >>= or_next fs again) w)
    unfolding create_named named_temp
    create_named-IsTemp d raw again rest w kept =
        go (fs.create_new (temp_name d raw) w)
          (alone.creates (temp_name d raw) w (d, raw, refl) kept)
      where
        go :
            (r : World × Result Handle)
            → Kept r.0
            → IsTemp (
                or_fail (or_next fs again) (named_temp fs d (temp_name d raw) (classified r.1)) r.0)
        go (v, ok file) kept = ((d, raw, refl), kept)
        go (v, err e) kept =
            if-elim (λ x. IsTemp (or_fail (or_next fs again) x v))
              (is_cause (classify e) name_taken) (rest (classify e) v kept) kept

    pub create_temp-IsTemp :
        (n : ℕ) (d : Bytes) (last : Error) (w : World) → Kept w → IsTemp (create_temp fs n d last w)
    unfolding create_temp
    create_temp-IsTemp zero d last w kept = kept
    create_temp-IsTemp (suc n) d last w kept =
        go (λ e v k. create_temp-IsTemp n d e v k) (fs.random w) (alone.draws w kept)
      where
        go :
            ((e : Error) (v : World) → Kept v → IsTemp (create_temp fs n d e v))
            → (r : World × Result Bytes) → Kept r.0
            → IsTemp (
                next_step
                  (or_fail (λ raw.
                    create_named fs d (temp_name d raw) >>= or_next fs (create_temp fs n d)))
                  r)
        go rest (v, ok raw) kept = create_named-IsTemp d raw (create_temp fs n d) rest v kept
        go rest (v, err e) kept = kept
