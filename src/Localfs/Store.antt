-- ===== src/Localfs/Store.antt =====
-- localfs/store.go: the asset store.
pub mod Copy
pub mod Publish
pub mod Cleared
pub mod Absent
pub mod Room
pub mod Whole
pub mod Held
pub mod Reads
pub mod RoundTrip
use micawber.Localfs.Root.Object.{Object}
use micawber.Prelude.{
  ◌∷◌, is_nil, List, codes, not, zero, ◌&&◌, true, ◌++◌, suc, none, length, ◌-◌, take, ◌+◌, some,
  ◌==◌, Bool, String, if◌then◌else◌, false, [], ℕ, Option, Bytes,
}
use micawber.Go.Number.{max_int}
use micawber.Go.Space.{trim_space}
use micawber.Core.Asset as Asset
use micawber.Core.Asset.{negsuc, pos, Asset, AssetRef, Size, size_unknown}
use micawber.Core.AssetKey.{AssetKey}
use micawber.Core.Digest.{Digest, new_digest}
use micawber.Core.Errors.{
  wrap, Result, ok, err, Error, sentinel, invalid_value, wrapped, wrapped_both, cause, not_regular,
}
use micawber.Core.Program.{Program, lift, on_result, or_fail, next_step, ◌>>=◌, ◌>>◌}
use micawber.Localfs.Errors.{classify, read_error, write_error}
use micawber.Localfs.Key.{check_key}
use micawber.Localfs.MediaType.{Table, media_type_for, check_media_types}
use micawber.Localfs.Root as Root
use micawber.Localfs.Root.Object.{Object, open_object}
use micawber.Localfs.Root.{
  Context, FileSystem, ObjectInfo, TempFile, Progress, rel_name, rel_dir, create_temp,
  temp_attempts, lstat, mkdir_all, remove, write_temp, commit, abort,
}

-- What a reader gives: its reads in order, up to the end or an error. A chunk is what one Read
-- returns, at least one byte, since io.Copy writes nothing for a Read of none; a read that returns
-- bytes and an error is two reads.
pub data Stream : Type 0 where
  eof : Stream
  breaks : Error → Stream
  chunk : Bytes → Stream → Stream

-- What a store takes from other code: the file system, the media types that a deployment adds,
-- the Unicode tables' maps to lower and upper case, mime.ParseMediaType, and sha256 in hex.
pub record Setup (World Handle : Type 0) : Type 0 where
  pub fs : FileSystem World Handle
  pub media : Table
  pub to_lower : Bytes → Bytes
  pub to_upper : Bytes → Bytes
  pub parses_media_type : Bytes → Bool
  pub sha256 : Bytes → Bytes

-- The bound of io.LimitReader(src, a.Size+1); the sum wraps around at the largest int64, and a
-- bound below zero reads nothing.
unfoldable pub limit_of : Size → Option ℕ
limit_of (pos n) = if n == max_int then some 0 else some (n + 1)
limit_of (negsuc zero) = none
limit_of (negsuc (suc n)) = some 0

abbrev is_at : Option ℕ → Bool
is_at none = false
is_at (some n) = n == 0

abbrev within : Option ℕ → Bytes → Bytes
within none b = b
within (some n) b = take n b

abbrev less_by : Option ℕ → ℕ → Option ℕ
less_by none m = none
less_by (some n) m = some (n - m)

-- `bounded && written != a.Size`.
unfoldable pub is_wrong_size : Size → ℕ → Bool
is_wrong_size (pos n) m = not (n == m)
is_wrong_size (negsuc zero) m = false
is_wrong_size (negsuc (suc n)) m = true

-- A temporary file that is open.
abbrev pub open_progress : Progress
open_progress = record { closed = false; committed = false }

module _ {World Handle : Type 0} (setup : Setup World Handle) where
  -- What one turn of io.Copy does before it reads: the end of the context, or of the bound.
  pub stopped : Context → Option ℕ → ℕ → Bytes → Option (Result Bytes)
  stopped ctx limit k copied = elim (ctx.at_read k) [
    | some e ↦ some (err e)
    | none ↦ if is_at limit then some (ok copied) else none
  ]

  abbrev unless {ℓ} : {A : Type ℓ} → Option (Result A) → Program World A → Program World A
  unless (some r) m = lift r
  unless none m = m

  -- io.Copy from the bounded reader under ctxReader: all the bytes copied. The fourth argument
  -- counts the reads, the fifth is what was copied before.
  unfoldable pub copy_from :
      Context → TempFile Handle → Option ℕ → ℕ → Bytes → Stream → Program World Bytes
  unfolding write_temp stopped
  copy_from ctx t limit k copied eof =
      lift (elim (stopped ctx limit k copied) [ some r ↦ r | none ↦ ok copied ])
  copy_from ctx t limit k copied (breaks e) =
      lift (elim (stopped ctx limit k copied) [ some r ↦ r | none ↦ err e ])
  copy_from ctx t limit k copied (chunk b rest) =
      let piece = within limit b in
      let later = copy_from ctx t (less_by limit (length piece)) (k + 1) (copied ++ piece) rest in
      unless (stopped ctx limit k copied) (write_temp setup.fs t piece >> later)

  -- What copyInto makes of the bytes copied.
  unfoldable pub digest_of : Asset → Bytes → Result Digest
  unfolding is_wrong_size new_digest
  digest_of a copied =
      if is_wrong_size a.size (length copied)
      then err (
          wrapped "localfs: put %q: the stream held %d bytes, and the caller declared %d: %w"
            a.key.k (sentinel invalid_value))
      else wrap "localfs: put %q: %w" a.key.k
          (new_digest setup.to_lower (codes "sha256") (setup.sha256 copied))

  -- copyInto.
  unfoldable pub copy_into : Context → TempFile Handle → Asset → Stream → Program World Digest
  unfolding copy_from digest_of limit_of
  copy_into ctx t a s = do
    copied ←
        on_result (copy_from ctx t (limit_of a.size) 0 [] s)
          λ r. lift (wrap "localfs: put %q: %w" a.key.k r)
    lift (digest_of a copied)

  -- An error behind which the temporary file is removed.
  unfoldable pub aborted {ℓ} : {A : Type ℓ} → TempFile Handle → Progress → Error → Program World A
  unfolding abort
  aborted t done e = on_result (abort setup.fs t done) λ _. lift (err e)

  unfoldable pub ref_of : Asset → Digest → ObjectInfo → AssetRef
  unfolding media_type_for
  ref_of a digest info = record {
    key = a.key;
    size = pos info.size;
    content_type = media_type_for setup.to_lower a.key setup.media;
    digest = digest;
    mod_time = info.mod_time;
  }

  -- What Put makes of a commit.
  committed :
      Asset
      → TempFile Handle
      → Digest
      → Result (Progress × Result ObjectInfo)
      → Program World AssetRef
  unfolding aborted write_error ref_of
  committed a t digest (err e) = aborted t open_progress e
  committed a t digest (ok (done, err e)) =
      aborted t done (write_error "localfs: put %q: %w" a.key e)
  committed a t digest (ok (done, ok info)) = lift (ok (ref_of a digest info))

  -- What Put makes of a copy.
  filled : Asset → TempFile Handle → Result Digest → Program World AssetRef
  unfolding commit committed aborted
  filled a t (err e) = aborted t open_progress e
  filled a t (ok digest) = on_result (commit setup.fs t (rel_name a.key)) (committed a t digest)

  fill_temp : Context → Asset → Stream → TempFile Handle → Program World AssetRef
  unfolding copy_into filled
  fill_temp ctx a s t = on_result (copy_into ctx t a s) (filled a t)

  -- An error of making the directory or the temporary file.
  write_failed {ℓ} : {A : Type ℓ} → AssetKey → Result A → Result A
  unfolding write_error
  write_failed key (ok a) = ok a
  write_failed key (err e) = err (write_error "localfs: put %q: %w" key e)

  abbrev writing {ℓ} : {A : Type ℓ} → AssetKey → Program World A → Program World A
  writing key m = on_result m λ r. lift (write_failed key r)

  -- What Put checks before it touches the file system; a nil reader is none.
  unfoldable pub checked_put : Context → Asset → Option Stream → Result Stream
  unfolding Asset.validate check_key
  checked_put ctx a r = elim ctx.at_start [
    | some e ↦ err (wrapped "localfs: put %q: the context is done: %w" a.key.k e)
    | none ↦ elim (Asset.validate setup.parses_media_type a) [
      | err e ↦ err e
      | ok _ ↦ elim (check_key setup.to_upper a.key) [
        | err e ↦ err e
        | ok _ ↦ elim r [
          | none ↦
              err
                (wrapped "localfs: put %q: the reader is nil: %w" a.key.k (sentinel invalid_value))
          | some s ↦ ok s
        ]
      ]
    ]
  ]

  -- The directory of a key below one, and the temporary file in it.
  make_dir : AssetKey → Bytes × Bool → Program World (Unit {0})
  unfolding mkdir_all write_failed
  make_dir key (d, nested) = if nested then writing key (mkdir_all setup.fs d) else lift (ok tt)

  temp_in : AssetKey → Bytes → Program World (TempFile Handle)
  unfolding create_temp write_failed
  temp_in key d = writing key (create_temp setup.fs temp_attempts d (Error.foreign []))

  pub make_temp : AssetKey → Program World (TempFile Handle)
  unfolding rel_dir make_dir temp_in
  make_temp key = let place = rel_dir key in make_dir key place >> temp_in key place.0

  -- Put.
  unfoldable pub put : Context → Asset → Option Stream → Program World AssetRef
  unfolding checked_put make_temp fill_temp
  put ctx a r = or_fail (λ s. make_temp a.key >>= fill_temp ctx a s) (checked_put ctx a r)

  -- resolve; the operation is the format of the message.
  checked_key : Context → String → AssetKey → Result (Unit {0})
  unfolding check_key
  checked_key ctx op key = elim ctx.at_start [
    | some e ↦ err (wrapped op key.k e)
    | none ↦ check_key setup.to_upper key
  ]

  regular_entry : String → AssetKey → Result ObjectInfo → Result ObjectInfo
  unfolding read_error
  regular_entry op key (err e) = err (read_error op key e)
  regular_entry op key (ok info) =
      if info.regular then ok info else err (read_error op key (cause not_regular))

  unfoldable pub resolve : Context → String → AssetKey → Program World ObjectInfo
  unfolding checked_key regular_entry lstat
  resolve ctx op key =
      or_fail (λ _. on_result (lstat setup.fs (rel_name key)) λ r. lift (regular_entry op key r))
        (checked_key ctx op key)

  read_failed {ℓ} : {A : Type ℓ} → String → AssetKey → Result A → Result A
  unfolding read_error
  read_failed op key (ok a) = ok a
  read_failed op key (err e) = err (read_error op key e)

  -- Get.
  unfoldable pub get : Context → AssetKey → Program World (Object Handle)
  unfolding resolve open_object read_failed
  get ctx key = resolve ctx "localfs: get %q: %w" key >>= λ _.
      on_result (open_object setup.fs ctx key) λ r. lift (read_failed "localfs: get %q: %w" key r)

  -- Stat: the zero digest.
  unfoldable pub stat : Context → AssetKey → Program World AssetRef
  unfolding resolve media_type_for
  stat ctx key = do
    info ← resolve ctx "localfs: stat %q: %w" key
    lift (
        ok (record {
          key = key;
          size = pos info.size;
          content_type = media_type_for setup.to_lower key setup.media;
          digest = [];
          mod_time = info.mod_time;
        }))

  -- Delete.
  unfoldable pub delete : Context → AssetKey → Program World (Unit {0})
  unfolding resolve remove read_failed
  delete ctx key = resolve ctx "localfs: delete %q: %w" key >>= λ _.
      on_result (remove setup.fs (rel_name key))
        λ r. lift (read_failed "localfs: delete %q: %w" key r)

  -- Close.
  unfoldable pub close : Program World (Unit {0})
  unfolding Root.close
  close = Root.close setup.fs
