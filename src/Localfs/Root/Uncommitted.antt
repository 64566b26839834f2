-- ===== src/Localfs/Root/Uncommitted.antt =====
-- localfs/root.go: a commit that fails leaves the temporary file uncommitted.
use micawber.Core.Errors.{ok, err, Result}
use micawber.Localfs.Root.{
  ObjectInfo, Progress, commit, after_stat, after_sync, after_close, after_rename, TempFile,
  FileSystem,
}
use micawber.Prelude.{false, refl, ◌≡◌, Bytes}

module _ {World Handle : Type 0} (fs : FileSystem World Handle) (t : TempFile Handle)
    (name : Bytes) where
  -- What is left to abort: a file that is not committed.
  abbrev pub IsUncommitted : Result (Progress × Result ObjectInfo) → Type 0
  IsUncommitted (err e) = Unit
  IsUncommitted (ok (done, err e)) = done.committed ≡ false
  IsUncommitted (ok (done, ok info)) = Unit

  after_rename-IsUncommitted :
      (info : ObjectInfo) (w : World) (r : Result (Unit {0}))
      → IsUncommitted (after_rename fs t info r w).1
  unfolding after_rename
  after_rename-IsUncommitted info w (err e) = refl
  after_rename-IsUncommitted info w (ok _) = tt

  after_close-IsUncommitted :
      (info : ObjectInfo) (w : World) (r : Result (Unit {0}))
      → IsUncommitted (after_close fs t name info r w).1
  unfolding after_close
  after_close-IsUncommitted info w (err e) = refl
  after_close-IsUncommitted info w (ok _) =
      after_rename-IsUncommitted info (fs.rename t.name name w).0 (fs.rename t.name name w).1

  after_sync-IsUncommitted :
      (info : ObjectInfo) (w : World) (r : Result (Unit {0}))
      → IsUncommitted (after_sync fs t name info r w).1
  unfolding after_sync
  after_sync-IsUncommitted info w (err e) = refl
  after_sync-IsUncommitted info w (ok _) =
      after_close-IsUncommitted info (fs.close t.file w).0 (fs.close t.file w).1

  after_stat-IsUncommitted :
      (w : World) (r : Result ObjectInfo) → IsUncommitted (after_stat fs t name r w).1
  unfolding after_stat
  after_stat-IsUncommitted w (err e) = refl
  after_stat-IsUncommitted w (ok info) =
      after_sync-IsUncommitted info (fs.sync t.file w).0 (fs.sync t.file w).1

  pub commit-IsUncommitted : (w : World) → IsUncommitted (commit fs t name w).1
  unfolding commit
  commit-IsUncommitted w = after_stat-IsUncommitted (fs.stat t.file w).0 (fs.stat t.file w).1
