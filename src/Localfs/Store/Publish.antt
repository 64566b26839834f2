-- ===== src/Localfs/Store/Publish.antt =====
-- localfs/store.go: what Put leaves behind.
use micawber.Core.Program.Invariant.{Keeps-bind, Keeps}
use micawber.Prelude.{
  false, true, Bool, ◌++◌, ◌+◌, length, none, some, refl, ap, ℕ, [], ◌≡◌, Option, Bytes,
}
use micawber.Core.Asset.{Asset, AssetRef}
use micawber.Core.AssetKey.{AssetKey}
use micawber.Core.Digest.{Digest}
use micawber.Core.Errors.{Result, ok, err, Error}
use micawber.Core.Program.{Program, or_fail, next_step, ◌>>=◌, ◌>>◌}
use micawber.Localfs.Root.{
  write_temp, ObjectInfo, TempFile, Progress, rel_name, commit, create_temp, mkdir_all, rel_dir,
  temp_attempts,
}
use micawber.Localfs.Root.Commit.{
  IsTemp, IsTempName, LeavesAlone, IsPublished, IsCommit, commit-IsCommit, Kept-abort,
  create_temp-IsTemp,
}
use micawber.Localfs.Store.{
  make_dir, temp_in, less_by, within, write_failed, Setup, Context, Stream, eof, breaks, chunk,
  copy_from, copy_into, put, checked_put, aborted, committed, filled, fill_temp, make_temp, ref_of,
  open_progress, limit_of, unless, stopped,
}
use micawber.Localfs.Store.Copy.{IsCopied, copy_into-IsCopied, copy_into-world}

module _ {World Handle : Type 0} (setup : Setup World Handle) (Kept : World → Type 0)
    (ctx : Context) (a : Asset) where
  -- The bytes copied from the reader have the declared size and the digest that is reported, and
  -- the temporary file was published under the key.
  pub record IsStored (s : Stream) (last : World) (ref : AssetRef) : Type 0 where
    pub t : TempFile Handle
    pub before : World
    pub copied : Bytes
    pub read : (copy_from setup ctx t (limit_of a.size) 0 [] s before).1 ≡ ok copied
    pub digest : Digest
    pub checked : IsCopied setup a copied digest
    pub info : ObjectInfo
    pub published : IsPublished setup.fs Kept t (rel_name a.key) info last
    pub reported : ref ≡ ref_of setup a digest info

  abbrev pub IsStoring : Option Stream → World × Result AssetRef → Type 0
  IsStoring r (last, err e) = Kept last
  IsStoring r (last, ok ref) =
      (s : Stream) × (checked_put setup ctx a r ≡ ok s) × IsStored s last ref

  abbrev LeavesStored : Stream → World × Result AssetRef → Type 0
  LeavesStored s (last, err e) = Kept last
  LeavesStored s (last, ok ref) = IsStored s last ref

  module _ (alone : LeavesAlone setup.fs Kept) where
    Keeps-unless :
        (o : Option (Result Bytes)) (m : Program World Bytes)
        → Keeps Kept m
        → Keeps Kept (unless setup o m)
    Keeps-unless (some r) m h = λ w kept. kept
    Keeps-unless none m h = h

    Kept-copy_from :
        (t : TempFile Handle) (limit : Option ℕ) (k : ℕ) (copied : Bytes) (s : Stream)
        → Keeps Kept (copy_from setup ctx t limit k copied s)
    unfolding copy_from write_temp
    Kept-copy_from t limit k copied eof = λ w kept. kept
    Kept-copy_from t limit k copied (breaks e) = λ w kept. kept
    Kept-copy_from t limit k copied (chunk b rest) =
        let piece = within limit b in
        Keeps-unless (stopped setup ctx limit k copied)
          (write_temp setup.fs t piece
            >> copy_from setup ctx t (less_by limit (length piece)) (k + 1) (copied ++ piece) rest)
          (Keeps-bind Kept (write_temp setup.fs t piece)
            (λ _.
              copy_from setup ctx t (less_by limit (length piece)) (k + 1) (copied ++ piece) rest)
            (alone.writes t.file piece)
            (λ _. Kept-copy_from t (less_by limit (length piece)) (k + 1) (copied ++ piece) rest))

    committed-LeavesStored :
        (s : Stream) (t : TempFile Handle) (before : World) (copied : Bytes) (digest : Digest)
        → (copy_from setup ctx t (limit_of a.size) 0 [] s before).1 ≡ ok copied
        → IsCopied setup a copied digest
        → IsTempName t.name
        → (r : World × Result (Progress × Result ObjectInfo))
        → IsCommit setup.fs Kept t (rel_name a.key) r
        → LeavesStored s (committed setup a t digest r.1 r.0)
    unfolding committed aborted
    committed-LeavesStored s t before copied digest read checked named (w, err e) kept =
        Kept-abort setup.fs Kept alone t open_progress w named kept
    committed-LeavesStored s t before copied digest read checked named (w, ok (done, err e)) kept =
        Kept-abort setup.fs Kept alone t done w named kept
    committed-LeavesStored s t before copied digest read checked named (w, ok (done, ok info))
          published =
        record {
          t = t;
          before = before;
          copied = copied;
          read = read;
          digest = digest;
          checked = checked;
          info = info;
          published = published;
          reported = refl;
        }

    fill_temp-LeavesStored :
        (s : Stream) (t : TempFile Handle) (w : World)
        → IsTempName t.name
        → Kept w
        → LeavesStored s (fill_temp setup ctx a s t w)
    unfolding fill_temp filled aborted
    fill_temp-LeavesStored s t w named kept =
        go (copy_into setup ctx t a s w) refl (
          rw (copy_into-world setup ctx t a s w) (Kept-copy_from t (limit_of a.size) 0 [] s w kept))
      where
        go :
            (r : World × Result Digest)
            → copy_into setup ctx t a s w ≡ r
            → Kept r.0
            → LeavesStored s (filled setup a t r.1 r.0)
        go (v, err e) made kept = Kept-abort setup.fs Kept alone t open_progress v named kept
        go (v, ok digest) made kept =
            let (copied, read, checked) =
              copy_into-IsCopied setup ctx t a s w (ap (λ o. o.1) made) in
            committed-LeavesStored s t w copied digest read checked named
              (commit setup.fs t (rel_name a.key) v)
              (commit-IsCommit setup.fs Kept alone t (rel_name a.key) v kept)

    write_failed-IsTemp :
        (key : AssetKey) (out : World × Result (TempFile Handle))
        → IsTemp setup.fs Kept alone out
        → IsTemp setup.fs Kept alone (out.0, write_failed setup key out.1)
    unfolding write_failed
    write_failed-IsTemp key (w, ok t) temp = temp
    write_failed-IsTemp key (w, err e) temp = temp

    temp_in-IsTemp :
        (key : AssetKey) (d : Bytes) (w : World)
        → Kept w
        → IsTemp setup.fs Kept alone (temp_in setup key d w)
    unfolding temp_in
    temp_in-IsTemp key d w kept =
        write_failed-IsTemp key (create_temp setup.fs temp_attempts d (Error.foreign []) w)
          (create_temp-IsTemp setup.fs Kept alone temp_attempts d (Error.foreign []) w kept)

    Keeps-make_dir : (key : AssetKey) (place : Bytes × Bool) → Keeps Kept (make_dir setup key place)
    unfolding make_dir mkdir_all
    Keeps-make_dir key (d, true) = alone.makes d
    Keeps-make_dir key (d, false) = λ w kept. kept

    make_temp-IsTemp :
        (key : AssetKey) (w : World) → Kept w → IsTemp setup.fs Kept alone (make_temp setup key w)
    unfolding make_temp
    make_temp-IsTemp key w kept =
        let place = rel_dir key in go (make_dir setup key place w) (Keeps-make_dir key place w kept)
      where
        go :
            (out : World × Result (Unit {0}))
            → Kept out.0
            → IsTemp setup.fs Kept alone
                (next_step (or_fail (λ _. temp_in setup key (rel_dir key).0)) out)
        go (v, ok done) kept = temp_in-IsTemp key (rel_dir key).0 v kept
        go (v, err e) kept = kept

    next_step-LeavesStored :
        (s : Stream) (out : World × Result (TempFile Handle))
        → IsTemp setup.fs Kept alone out
        → LeavesStored s (next_step (or_fail (fill_temp setup ctx a s)) out)
    next_step-LeavesStored s (w, ok t) (named, kept) = fill_temp-LeavesStored s t w named kept
    next_step-LeavesStored s (w, err e) kept = kept

    put-checked :
        (r : Option Stream) (s : Stream) (out : World × Result AssetRef)
        → checked_put setup ctx a r ≡ ok s
        → LeavesStored s out
        → IsStoring r out
    put-checked r s (last, err e) checked filled = filled
    put-checked r s (last, ok ref) checked filled = (s, checked, filled)

    -- Of a property of the world that depends neither on directories nor on temporary
    -- files, open or closed, nor on a rename that fails: when Put returns an error, the
    -- last world has the property. When it returns a reference, the checks passed; the
    -- bytes copied from the reader have the declared size, if there is one, and the digest
    -- that is reported; the temporary file was synced, then closed, then renamed to the key
    -- in a world with the property; and behind the rename only the directory was synced.
    pub put-IsStoring : (r : Option Stream) (w : World) → Kept w → IsStoring r (put setup ctx a r w)
    unfolding put
    put-IsStoring r w kept = go (checked_put setup ctx a r) refl
      where
        go :
            (c : Result Stream)
            → checked_put setup ctx a r ≡ c
            → IsStoring r (or_fail (λ s. make_temp setup a.key >>= fill_temp setup ctx a s) c w)
        go (err e) checked = kept
        go (ok s) checked =
            put-checked r s ((make_temp setup a.key >>= fill_temp setup ctx a s) w) checked
              (next_step-LeavesStored s (make_temp setup a.key w) (make_temp-IsTemp a.key w kept))
