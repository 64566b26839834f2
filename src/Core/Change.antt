-- ===== src/Core/Change.antt =====
-- core/change.go: Author and Change.
pub mod Laws
use micawber.Prelude.{
  ℕ, Bool, true, false, not, ◌&&◌, ◌||◌, List, [], ◌∷◌, ◌++◌, Bytes, codes, ltb, leb, ◌==◌,
  if◌then◌else◌, all, is_nil, Option, none, some,
}
use micawber.Go.Text.{contains_byte}
use micawber.Go.Space.{is_space}
use micawber.Go.Utf8.{runes}
use micawber.Core.Errors.{
  Kind, author, change, Error, Result, ok, err, ◌>>=◌, ◌>>◌, invalidf, refuse, wrap, empty_name,
  empty_message, no_at, control_character,
}
use micawber.Core.RelPath.{is_control}

-- strings.TrimSpace(s) == "": every rune is white space.
abbrev pub is_blank : Bytes → Bool
is_blank s = all is_space (runes s)

pub record Author : Type 0 where
  pub name : Bytes
  pub email : Bytes

-- A change; the time, none for the zero time, is kept as the text that it is formatted to.
pub record Change : Type 0 where
  pub message : Bytes
  pub author : Author
  pub time : Option Bytes

-- The loop of controlRune; strings.ContainsRune(allow, r) for an ASCII `allow`.
unfoldable pub first_control : List ℕ → Bytes → Option ℕ
first_control [] allow = none
first_control (r ∷ rs) allow =
    let rest = first_control rs allow in
    if is_control r && not (contains_byte r allow) then some r else rest

-- controlRune.
unfoldable pub control_rune : Bytes → Bytes → Option ℕ
unfolding first_control
control_rune s allow = first_control (runes s) allow

-- `if r, ok := controlRune(s, allow); ok { return invalidf(...) }`
refuse_control : Kind → Bytes → Option ℕ → Result (Unit {0})
refuse_control kind value none = ok tt
refuse_control kind value (some r) = err (invalidf kind value (control_character r))

-- Author.Validate.
unfoldable pub validate_author : Author → Result (Unit {0})
unfolding refuse_control
validate_author a = do
  refuse (is_blank a.name) (invalidf author a.name empty_name)
  refuse_control author a.name (control_rune a.name (codes ""))
  refuse_control author a.email (control_rune a.email (codes ""))
  refuse (not (is_nil a.email) && not (contains_byte b'@' a.email)) (invalidf author a.email no_at)

-- Author.String.
unfoldable pub author_string : Author → Bytes
author_string a =
    if is_nil a.email then a.name else a.name ++ (codes " <" ++ (a.email ++ codes ">"))

-- Change.Validate.
unfoldable pub validate : Change → Result (Unit {0})
unfolding refuse_control
validate ch = do
  refuse (is_blank ch.message) (invalidf change ch.message empty_message)
  refuse_control change ch.message (control_rune ch.message (b'\t' ∷ b'\n' ∷ b'\r' ∷ []))
  wrap "change: %w" (codes "") (validate_author ch.author)
