-- ===== src/Core/Asset.antt =====
-- core/asset.go: Asset, AssetRef and their validation.
use micawber.Prelude.{ℕ, zero, suc, Bool, true, false, Bytes, codes, is_nil, if◌then◌else◌, not}
use micawber.Core.Errors.{
  Kind, asset, asset_ref, Result, ok, ◌>>◌, invalidf, refuse, wrap, no_key, bad_size,
  bad_content_type,
}
use micawber.Core.AssetKey.{AssetKey, is_zero, to_string}
use micawber.Core.Digest as Digest
use micawber.Core.Digest.{Digest}

-- An int64 length: `negsuc n` is -(n + 1).
pub data Size : Type 0 where
  pos : ℕ → Size
  negsuc : ℕ → Size

-- SizeUnknown.
abbrev pub size_unknown : Size
size_unknown = negsuc 0

-- `size < SizeUnknown` and `size < 0`.
pub below_unknown : Size → Bool
below_unknown (pos n) = false
below_unknown (negsuc zero) = false
below_unknown (negsuc (suc n)) = true

pub is_negative : Size → Bool
is_negative (pos n) = false
is_negative (negsuc n) = true

pub record Asset : Type 0 where
  pub key : AssetKey
  pub content_type : Bytes
  pub size : Size

-- The modification time is a text, as in ObjectInfo.
pub record AssetRef : Type 0 where
  pub key : AssetKey
  pub size : Size
  pub content_type : Bytes
  pub digest : Digest
  pub mod_time : Bytes

-- Whether mime.ParseMediaType accepts a text is the section's parameter.
module _ (parses_media_type : Bytes → Bool) where
  -- validateMediaType.
  unfoldable pub validate_media_type : Kind → Bytes → Bytes → Result (Unit {0})
  validate_media_type kind value media_type =
      if is_nil media_type
      then ok tt
      else refuse (not (parses_media_type media_type))
          (invalidf kind value (bad_content_type media_type))

  -- Asset.Validate.
  unfoldable pub validate : Asset → Result (Unit {0})
  unfolding validate_media_type below_unknown
  validate a = do
    refuse (is_zero a.key) (invalidf asset (codes "") no_key)
    refuse (below_unknown a.size) (invalidf asset (to_string a.key) bad_size)
    validate_media_type asset (to_string a.key) a.content_type

  -- AssetRef.Validate.
  unfoldable pub validate_ref : AssetRef → Result (Unit {0})
  unfolding validate_media_type is_negative
  validate_ref r = do
    refuse (is_zero r.key) (invalidf asset_ref (codes "") no_key)
    refuse (is_negative r.size) (invalidf asset_ref (to_string r.key) bad_size)
    validate_media_type asset_ref (to_string r.key) r.content_type
    wrap "asset ref %q: %w" (to_string r.key) (Digest.validate r.digest)
