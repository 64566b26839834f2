-- ===== src/Core/ContentPath.antt =====
-- core/path.go: ContentPath.
pub mod Laws
use micawber.Prelude.{ℕ, Bool, true, false, ◌||◌, Bytes, codes, is_nil}
use micawber.Go.Fold.{equal_fold}
use micawber.Go.Path as GoPath
use micawber.Core.Errors.{Kind, content_path, Result, ok, err, ◌>>=◌, ◌>>◌}
use micawber.Core.RelPath.{max_content_path_bytes, validate_rel_path, reject_git_segment}

pub record ContentPath : Type 0 where
  pub p : Bytes

-- NewContentPath.
unfoldable pub new_content_path : Bytes → Result ContentPath
new_content_path s = do
  validate_rel_path content_path s max_content_path_bytes
  reject_git_segment content_path s
  ok (record { p = s })

-- String, IsZero, Dir, Base, Ext.
abbrev pub to_string : ContentPath → Bytes
to_string c = c.p

abbrev pub is_zero : ContentPath → Bool
is_zero c = is_nil c.p

pub dir : ContentPath → Bytes
dir c = GoPath.dir c.p

pub base : ContentPath → Bytes
base c = GoPath.base c.p

unfoldable pub ext : ContentPath → Bytes
ext c = GoPath.ext c.p

-- IsMarkdown.
unfoldable pub is_markdown : ContentPath → Bool
is_markdown c =
    let e = GoPath.ext c.p in equal_fold e (codes ".md") || equal_fold e (codes ".markdown")

-- MarshalText, and UnmarshalText with the receiver that it leaves.
abbrev pub marshal_text : ContentPath → Bytes
marshal_text c = c.p

unfoldable pub unmarshal_text : ContentPath → Bytes → ContentPath × Result (Unit {0})
unmarshal_text receiver b = elim (new_content_path b) [
  | ok parsed ↦ (parsed, ok tt)
  | err e ↦ (receiver, err e)
]
