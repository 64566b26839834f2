-- ===== src/Core/Collection.antt =====
-- core/collection.go: Collection. The root is the empty string.
pub mod Laws
pub mod Text
use micawber.Prelude.{
  ℕ, Bool, true, false, ◌∷◌, ◌++◌, Bytes, codes, is_nil, Option, none, some, if◌then◌else◌,
}
use micawber.Go.Text.{equal, has_prefix, trim_prefix}
use micawber.Core.Errors.{Kind, content_path, collection, Result, ok, err, ◌>>=◌, ◌>>◌}
use micawber.Core.RelPath.{max_content_path_bytes, validate_rel_path, reject_git_segment}
use micawber.Core.ContentPath.{ContentPath, new_content_path, is_zero}

pub record Collection : Type 0 where
  pub p : Bytes

-- NewCollection.
unfoldable pub new_collection : Bytes → Result Collection
new_collection s = if equal s (codes ".") then ok (record { p = codes "" }) else do
  validate_rel_path collection s max_content_path_bytes
  reject_git_segment collection s
  ok (record { p = s })

-- IsRoot, String.
abbrev pub is_root : Collection → Bool
is_root c = is_nil c.p

unfoldable pub to_string : Collection → Bytes
to_string c = if is_root c then codes "." else c.p

-- Contains.
unfoldable pub contains : Collection → ContentPath → Bool
contains c p =
    if is_zero p then false else if is_root c then true else has_prefix p.p (c.p ++ codes "/")

-- Join.
unfoldable pub join : Collection → Bytes → Result ContentPath
join c rel = do
  validate_rel_path content_path rel max_content_path_bytes
  if is_root c then new_content_path rel else new_content_path (c.p ++ (codes "/" ++ rel))

-- Rel: `none` where the second result is false.
unfoldable pub rel : Collection → ContentPath → Option Bytes
unfolding contains
rel c p =
    if contains c p
    then (if is_root c then some p.p else some (trim_prefix p.p (c.p ++ codes "/")))
    else none

-- MarshalText, and UnmarshalText with the receiver that it leaves.
abbrev pub marshal_text : Collection → Bytes
marshal_text c = to_string c

unfoldable pub unmarshal_text : Collection → Bytes → Collection × Result (Unit {0})
unmarshal_text receiver b = elim (new_collection b) [
  | ok parsed ↦ (parsed, ok tt)
  | err e ↦ (receiver, err e)
]
