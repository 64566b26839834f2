-- ===== src/Core/Content.antt =====
-- core/content.go: Content, its revision and its validation.
use micawber.Core.Errors.{wrap, no_path, content, invalidf, refuse, ◌>>◌, Result}
use micawber.Prelude.{codes, is_nil, Bool, Bytes}
use micawber.Core.ContentPath.{ContentPath, is_zero}
use micawber.Core.FrontMatter as FrontMatter
use micawber.Core.FrontMatter.{FrontMatter}

-- type Revision string
abbrev pub Revision : Type 0
Revision = Bytes

abbrev pub revision_is_zero : Revision → Bool
revision_is_zero r = is_nil r

pub record Content : Type 0 where
  pub path : ContentPath
  pub front_matter : FrontMatter
  pub body : Bytes
  pub revision : Revision

pub record ContentEntry : Type 0 where
  pub path : ContentPath
  pub revision : Revision

-- Content.Validate.
unfoldable pub validate : Content → Result (Unit {0})
validate c = do
  refuse (is_zero c.path) (invalidf content (codes "") no_path)
  wrap "content %q: %w" c.path.p (FrontMatter.validate c.front_matter)
