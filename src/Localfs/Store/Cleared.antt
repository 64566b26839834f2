-- ===== src/Localfs/Store/Cleared.antt =====
-- localfs/store.go: what a Put that fails leaves of its temporary file.
use micawber.Core.Digest.{Digest}
use micawber.Core.Errors.{err, ok, Result}
use micawber.Prelude.{◌⊎◌, ◌≡◌, Option}
use micawber.Core.Asset.{AssetRef, Asset}
use micawber.Localfs.Root.{TempFile, Context}
use micawber.Localfs.Store.{make_temp, checked_put, Stream, Setup}

module _ {World Handle : Type 0} (setup : Setup World Handle) (ctx : Context) (a : Asset) where
  -- Behind an error, the last step was to unlink the temporary file.
  abbrev IsUnlinked {ℓ} : {A : Type ℓ} → TempFile Handle → World × Result A → Type 0
  IsUnlinked t (last, ok ref) = Unit
  IsUnlinked t (last, err e) = (v : World) × (last ≡ (setup.fs.remove t.name v).0)

  -- A Put that fails was refused and did nothing, or made no temporary file, or unlinked the one
  -- that it had made.
  abbrev pub IsCleared : Option Stream → World → World × Result AssetRef → Type 0
  IsCleared r w (last, ok ref) = Unit
  IsCleared r w (last, err e) =
      ((checked_put setup ctx a r ≡ err e) × (last ≡ w))
      ⊎ ((make_temp setup a.key w ≡ (last, err e))
          ⊎ ((t : TempFile Handle) × (made : World) × (make_temp setup a.key w ≡ (made, ok t))
              × (v : World) × (last ≡ (setup.fs.remove t.name v).0)))
