-- ===== src/Localfs/Root/Object.antt =====
-- localfs/root.go: the object that Get hands back.
use micawber.Core.Errors.{not_regular, wrapped, cause, err, ok, Result}
use micawber.Core.Program.{◌>>=◌, lift, on_result, Program}
use micawber.Prelude.{if◌then◌else◌, none, [], some, ℕ, Bytes}
use micawber.Core.AssetKey.{AssetKey}
use micawber.Localfs.Errors.{read_error, classify}
use micawber.Localfs.Root.{
  rel_name, classifying, ObjectInfo, at_eof, goes_on, breaks_off, Ending, FileSystem, Context,
}

-- object.
pub record Object (Handle : Type 0) : Type 0 where
  pub ctx : Context
  pub key : AssetKey
  pub f : Handle

-- object.Read's error.
unfoldable pub ending_at : AssetKey → Ending → Ending
unfolding classify read_error
ending_at key goes_on = goes_on
ending_at key at_eof = at_eof
ending_at key (breaks_off e) = breaks_off (read_error "localfs: read %q: %w" key (classify e))

abbrev pub read_ending :
    {World : Type 0} → AssetKey → World × (Bytes × Ending) → World × (Bytes × Ending)
unfolding ending_at
read_ending key (w, (b, ending)) = (w, (b, ending_at key ending))

-- What object.Close makes of the file's own error.
close_failed : AssetKey → Result (Unit {0}) → Result (Unit {0})
unfolding classify read_error
close_failed key (ok _) = ok tt
close_failed key (err e) = err (read_error "localfs: close %q: %w" key (classify e))

module _ {World Handle : Type 0} (fs : FileSystem World Handle) where
  -- openObject.
  unfoldable pub open_object : Context → AssetKey → Program World (Object Handle)
  unfolding classify
  open_object ctx key = do
    file ← classifying (fs.open_file (rel_name key))
    info ← on_result (fs.stat file) (closed_on_error file)
    if info.regular then lift (ok (record { ctx = ctx; key = key; f = file })) else refused file
    where
      refused : Handle → Program World (Object Handle)
      refused file = on_result (fs.close file) λ _. lift (err (cause not_regular))

      closed_on_error : Handle → Result ObjectInfo → Program World ObjectInfo
      closed_on_error file (ok info) = lift (ok info)
      closed_on_error file (err e) = on_result (fs.close file) λ _. lift (err (classify e))

  -- object.Read of n bytes at most, behind k other reads: the bytes, and how it ended.
  unfoldable pub read : Object Handle → ℕ → ℕ → World → World × (Bytes × Ending)
  unfolding ending_at
  read o k n w = elim (o.ctx.at_read k) [
    | some e ↦ (w, ([], breaks_off (wrapped "localfs: read %q: the context is done: %w" o.key.k e)))
    | none ↦ read_ending o.key (fs.read o.f n w)
  ]

  -- object.Close.
  unfoldable pub close : Object Handle → Program World (Unit {0})
  unfolding close_failed
  close o = on_result (fs.close o.f) λ r. lift (close_failed o.key r)
