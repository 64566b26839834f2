-- ===== src/Localfs/Root.antt =====
-- localfs/root.go: the root directory, and the temporary file that a write goes through.
pub mod Object
pub mod Commit
pub mod Uncommitted
pub mod Held
use micawber.Go.Text.{equal}
use micawber.Prelude.{
  Option, zero, ◌%◌, ◌-◌, false, ◌/◌, ◌+◌, [], true, is_nil, suc, ◌++◌, ◌∷◌, ltb, codes,
  if◌then◌else◌, Bool, ℕ, Bytes,
}
use micawber.Go.Path.{clean, dir}
use micawber.Core.AssetKey.{AssetKey}
use micawber.Core.Errors.{Result, ok, err, Error, cause, name_taken, not_regular, wrapped}
use micawber.Core.Program.{Program, lift, on_result, or_fail, next_step, ◌>>=◌, ◌>>◌}
use micawber.Localfs.Errors.{classify, is_cause}

-- tempPrefix, tempSuffix, tempAttempts.
abbrev pub temp_prefix : Bytes
temp_prefix = codes ".micawber-"

abbrev pub temp_suffix : Bytes
temp_suffix = codes ".tmp"

abbrev pub temp_attempts : ℕ
temp_attempts = 8

-- objectInfo; a time is the text that it is formatted to.
pub record ObjectInfo : Type 0 where
  pub size : ℕ
  pub mod_time : Bytes
  pub regular : Bool

-- A context, by ctx.Err() at the start of an operation and before each read.
pub record Context : Type 0 where
  pub at_start : Option Error
  pub at_read : ℕ → Option Error

-- How a read ended: without an error, with io.EOF, or with another one.
pub data Ending : Type 0 where
  goes_on : Ending
  at_eof : Ending
  breaks_off : Error → Ending

-- What is used of os.Root, of the files that it opens and of crypto/rand. The errors are those of
-- the os package, a write takes all of its bytes or fails,
-- and a read gives as many bytes as it is asked for at most.
pub record FileSystem (World Handle : Type 0) : Type 0 where
  pub lstat : Bytes → Program World ObjectInfo
  pub open_file : Bytes → Program World Handle
  pub create_new : Bytes → Program World Handle
  pub stat : Handle → Program World ObjectInfo
  pub read : Handle → ℕ → World → World × (Bytes × Ending)
  pub write : Handle → Bytes → Program World (Unit {0})
  pub sync : Handle → Program World (Unit {0})
  pub close : Handle → Program World (Unit {0})
  pub mkdir_all : Bytes → Program World (Unit {0})
  pub rename : Bytes → Bytes → Program World (Unit {0})
  pub remove : Bytes → Program World (Unit {0})
  pub close_root : Program World (Unit {0})
  pub random : Program World Bytes

-- relName, on a system whose separator is the slash.
abbrev pub rel_name : AssetKey → Bytes
rel_name key = key.k

-- relDir; the empty string for a key at the top.
unfoldable pub rel_dir : AssetKey → Bytes × Bool
unfolding dir equal
rel_dir key = let d = dir (rel_name key) in if equal d (codes ".") then ([], false) else (d, true)

hex_digit : ℕ → ℕ
hex_digit n = if ltb n 10 then b'0' + n else b'a' + (n - 10)

-- hex.EncodeToString.
unfoldable pub hex_encode : Bytes → Bytes
unfolding hex_digit
hex_encode [] = []
hex_encode (b ∷ s) = hex_digit (b / 16) ∷ hex_digit (b % 16) ∷ hex_encode s

-- The name of a temporary file, joined by filepath.Join.
unfoldable pub temp_name : Bytes → Bytes → Bytes
unfolding hex_encode clean
temp_name d raw =
    let name = temp_prefix ++ (hex_encode raw ++ temp_suffix) in
    if is_nil d then clean name else clean (d ++ (b'/' ∷ name))

-- tempFile, while it is open.
pub record TempFile (Handle : Type 0) : Type 0 where
  pub dir : Bytes
  pub name : Bytes
  pub file : Handle

-- How far a commit came: the fields closed and committed.
pub record Progress : Type 0 where
  pub closed : Bool
  pub committed : Bool

-- An operation with its error classified.
abbrev pub classified {ℓ} : {A : Type ℓ} → Result A → Result A
classified (ok a) = ok a
classified (err e) = err (classify e)

abbrev pub classifying {ℓ} : {World : Type 0} {A : Type ℓ} → Program World A → Program World A
classifying m = on_result m λ r. lift (classified r)

-- openRoot; the first argument is os.OpenRoot.
unfoldable pub open_root :
    {World Root : Type 0} → (Bytes → Program World Root) → Bytes → Program World Root
unfolding classify
open_root opens dir = classifying (opens dir)

module _ {World Handle : Type 0} (fs : FileSystem World Handle) where
  -- A file, or the error of a name that is taken.
  named_temp : Bytes → Bytes → Result Handle → Result (Result (TempFile Handle))
  unfolding is_cause
  named_temp d name (ok file) = ok (ok (record { dir = d; name = name; file = file }))
  named_temp d name (err e) = if is_cause e name_taken then ok (err e) else err e

  -- One turn of createTemp.
  create_named : Bytes → Bytes → Program World (Result (TempFile Handle))
  unfolding classify named_temp
  create_named d name = on_result (classifying (fs.create_new name)) λ r. lift (named_temp d name r)

  abbrev or_next :
      (Error → Program World (TempFile Handle))
      → Result (TempFile Handle)
      → Program World (TempFile Handle)
  or_next again (ok t) = lift (ok t)
  or_next again (err e) = again e

  -- createTemp, with this many attempts left and the error of the last one.
  unfoldable pub create_temp : ℕ → Bytes → Error → Program World (TempFile Handle)
  unfolding temp_name create_named
  create_temp zero d last = lift (err last)
  create_temp (suc n) d last = do
    raw ← fs.random
    made ← create_named d (temp_name d raw)
    or_next (create_temp n d) made

  -- lstat.
  unfoldable pub lstat : Bytes → Program World ObjectInfo
  unfolding classify
  lstat name = classifying (fs.lstat name)

  -- close.
  unfoldable pub close : Program World (Unit {0})
  unfolding classify
  close = classifying fs.close_root

  -- mkdirAll, remove.
  unfoldable pub mkdir_all : Bytes → Program World (Unit {0})
  unfolding classify
  mkdir_all name = classifying (fs.mkdir_all name)

  unfoldable pub remove : Bytes → Program World (Unit {0})
  unfolding classify
  remove name = classifying (fs.remove name)

  -- tempFile.Write.
  unfoldable pub write_temp : TempFile Handle → Bytes → Program World (Unit {0})
  unfolding classify
  write_temp t b = classifying (fs.write t.file b)

  flush_dir : Result Handle → Program World (Unit {0})
  flush_dir (err e) = lift (ok tt)
  flush_dir (ok file) = on_result (fs.sync file) λ _. on_result (fs.close file) λ _. lift (ok tt)

  -- syncDir, whose errors are dropped.
  unfoldable pub sync_dir : Bytes → Program World (Unit {0})
  unfolding flush_dir
  sync_dir d = on_result (fs.open_file (if is_nil d then codes "." else d)) flush_dir

  -- A commit that failed, by whether the file was closed.
  abbrev failed_commit : Bool → Error → Program World (Progress × Result ObjectInfo)
  failed_commit closed e =
      lift (ok (record { closed = closed; committed = false }, err (classify e)))

  -- The steps of commit, each with what the one before it returned.
  after_rename :
      TempFile Handle
      → ObjectInfo
      → Result (Unit {0})
      → Program World (Progress × Result ObjectInfo)
  unfolding sync_dir classify
  after_rename t info (err e) = failed_commit true e
  after_rename t info (ok _) =
      on_result (sync_dir t.dir)
        λ _. lift (ok (record { closed = true; committed = true }, ok info))

  after_close :
      TempFile Handle
      → Bytes
      → ObjectInfo
      → Result (Unit {0})
      → Program World (Progress × Result ObjectInfo)
  unfolding after_rename classify
  after_close t name info (err e) = failed_commit true e
  after_close t name info (ok _) = on_result (fs.rename t.name name) (after_rename t info)

  after_sync :
      TempFile Handle
      → Bytes
      → ObjectInfo
      → Result (Unit {0})
      → Program World (Progress × Result ObjectInfo)
  unfolding after_close classify
  after_sync t name info (err e) = failed_commit false e
  after_sync t name info (ok _) = on_result (fs.close t.file) (after_close t name info)

  after_stat :
      TempFile Handle → Bytes → Result ObjectInfo → Program World (Progress × Result ObjectInfo)
  unfolding after_sync classify
  after_stat t name (err e) = failed_commit false e
  after_stat t name (ok info) = on_result (fs.sync t.file) (after_sync t name info)

  -- commit, with the fields that it leaves. The error of the operation stands in the pair.
  unfoldable pub commit : TempFile Handle → Bytes → Program World (Progress × Result ObjectInfo)
  unfolding after_stat
  commit t name = on_result (fs.stat t.file) (after_stat t name)

  -- abort, by how far the commit came; its errors are dropped.
  unfoldable pub abort : TempFile Handle → Progress → Program World (Unit {0})
  abort t done =
      if done.committed
      then lift (ok tt)
      else on_result (if done.closed then lift (ok tt) else fs.close t.file)
          λ _. on_result (fs.remove t.name) λ _. lift (ok tt)
