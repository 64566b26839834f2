-- ===== src/Core/AssetKey.antt =====
-- core/asset_key.go: AssetKey.
use micawber.Prelude.{ℕ, Bool, Bytes, is_nil}
use micawber.Go.Path as GoPath
use micawber.Core.Errors.{asset_key, Result, ok, err, ◌>>◌}
use micawber.Core.RelPath.{validate_rel_path}

-- maxAssetKeyBytes.
abbrev pub max_asset_key_bytes : ℕ
max_asset_key_bytes = 1024

pub record AssetKey : Type 0 where
  pub k : Bytes

-- NewAssetKey.
unfoldable pub new_asset_key : Bytes → Result AssetKey
new_asset_key s = do validate_rel_path asset_key s max_asset_key_bytes; ok (record { k = s })

-- String, IsZero, Base, Ext.
abbrev pub to_string : AssetKey → Bytes
to_string key = key.k

abbrev pub is_zero : AssetKey → Bool
is_zero key = is_nil key.k

pub base : AssetKey → Bytes
base key = GoPath.base key.k

unfoldable pub ext : AssetKey → Bytes
ext key = GoPath.ext key.k

-- MarshalText, and UnmarshalText with the receiver that it leaves.
abbrev pub marshal_text : AssetKey → Bytes
marshal_text key = key.k

unfoldable pub unmarshal_text : AssetKey → Bytes → AssetKey × Result (Unit {0})
unmarshal_text receiver b = elim (new_asset_key b) [
  | ok parsed ↦ (parsed, ok tt)
  | err e ↦ (receiver, err e)
]
