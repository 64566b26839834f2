-- ===== src/Localfs/Disk.antt =====
-- localfs/root.go: what the store relies on of a file system on which reading does not fail.
use micawber.Core.Errors.{ok}
use micawber.Localfs.Root.{at_eof, ObjectInfo, goes_on, Ending, FileSystem}
use micawber.Prelude.{suc, ◌∷◌, ℕ, true, ◌++◌, length, [], ◌<◌, ◌≡◌, Bytes}

pub record View (World Handle : Type 0) : Type 1 where
  -- What was written so far through a handle that was opened under a name.
  pub Filling : World → Handle → Bytes → Bytes → Type 0
  -- The regular file of a name, its bytes and when it was modified.
  pub Named : World → Bytes → Bytes → Bytes → Type 0
  -- The bytes that a handle has still to read.
  pub Reading : World → Handle → Bytes → Type 0

-- What a read of a handle gives, that has some bytes left.
pub record IsPiece {World Handle : Type 0} (view : View World Handle) (f : Handle) (left : Bytes)
    (out : World × (Bytes × Ending)) : Type 0 where
  pub piece : Bytes
  pub rest : Bytes
  pub later : World
  pub gives : out ≡ (later, (piece, goes_on))
  pub some_bytes : 0 < length piece
  pub splits : left ≡ piece ++ rest
  pub remains : view.Reading later f rest

pub record IsDisk {World Handle : Type 0} (fs : FileSystem World Handle) (view : View World Handle)
    : Type 0 where
  -- Writing: a new file is empty, a write appends, and fstat tells the length.
  pub creates :
      (name : Bytes) (w v : World) (f : Handle)
      → fs.create_new name w ≡ (v, ok f)
      → view.Filling v f name []
  pub appends :
      (f : Handle) (name b c : Bytes) (w v : World)
      → view.Filling w f name b
      → fs.write f c w ≡ (v, ok tt)
      → view.Filling v f name (b ++ c)
  pub measures :
      (f : Handle) (name b : Bytes) (w v : World) (info : ObjectInfo)
      → view.Filling w f name b
      → fs.stat f w ≡ (v, ok info)
      → (info.size ≡ length b) × view.Named v name b info.mod_time
  -- Flushing and closing change no file, and opening one for reading neither; a rename moves one.
  pub syncs :
      (f : Handle) (name b m : Bytes) (w : World)
      → view.Named w name b m
      → view.Named (fs.sync f w).0 name b m
  pub closes :
      (f : Handle) (name b m : Bytes) (w : World)
      → view.Named w name b m
      → view.Named (fs.close f w).0 name b m
  pub opens_other :
      (other name b m : Bytes) (w : World)
      → view.Named w name b m
      → view.Named (fs.open_file other w).0 name b m
  pub renames :
      (old new b m : Bytes) (w v : World)
      → view.Named w old b m
      → fs.rename old new w ≡ (v, ok tt)
      → view.Named v new b m
  -- Reading a file that is there.
  pub looks :
      (name b m : Bytes) (w : World)
      → view.Named w name b m
      → (v : World) × (info : ObjectInfo) × (fs.lstat name w ≡ (v, ok info))
        × (info.regular ≡ true)
        × (info.size ≡ length b)
        × (info.mod_time ≡ m)
        × view.Named v name b m
  pub opens :
      (name b m : Bytes) (w : World)
      → view.Named w name b m
      → (v : World) × (f : Handle) × (fs.open_file name w ≡ (v, ok f)) × view.Reading v f b
  pub inspects :
      (f : Handle) (b : Bytes) (w : World)
      → view.Reading w f b
      → (v : World) × (info : ObjectInfo) × (fs.stat f w ≡ (v, ok info))
        × (info.regular ≡ true)
        × view.Reading v f b
  pub ends :
      (f : Handle) (n : ℕ) (w : World)
      → view.Reading w f []
      → (v : World) × (fs.read f n w ≡ (v, ([], at_eof)))
  pub reads :
      (f : Handle) (n c : ℕ) (b : Bytes) (w : World)
      → view.Reading w f (c ∷ b)
      → IsPiece view f (c ∷ b) (fs.read f (suc n) w)
