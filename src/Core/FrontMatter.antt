-- ===== src/Core/FrontMatter.antt =====
-- core/frontmatter.go: FrontMatter, its accessors and its validation.
pub mod Laws
use micawber.Core.Errors.{
  empty_field_key, ok, raw_without_format, unknown_format, fields_without_format, front_matter,
  invalidf, refuse, ◌>>◌, Result,
}
use micawber.Prelude.{
  not, ◌∷◌, is_nil, false, if◌then◌else◌, none, some, ◌&&◌, codes, true, List, Option, [], Bool,
  Bytes,
}
use micawber.Core.Value.{
  has_key, is_end, lookup, Value, Values, Fields, list, texts, text, bool, time, nil, cons, end,
  field,
}

-- FrontMatterFormat: its four known values, and any other string.
pub data Format : Type 0 where
  no_format yaml toml json : Format
  other_format : Bytes → Format

-- Valid, String.
unfoldable pub is_known : Format → Bool
is_known no_format = true
is_known yaml = true
is_known toml = true
is_known json = true
is_known (other_format s) = false

unfoldable pub format_string : Format → Bytes
format_string no_format = codes ""
format_string yaml = codes "yaml"
format_string toml = codes "toml"
format_string json = codes "json"
format_string (other_format s) = s

-- `f == FrontMatterNone`
abbrev pub is_none : Format → Bool
is_none no_format = true
is_none _ = false

pub record FrontMatter : Type 0 where
  pub format : Format
  pub raw : Bytes
  pub fields : Fields

abbrev pub no_front_matter : FrontMatter
no_front_matter = record { format = no_format; raw = []; fields = end }

-- IsZero.
unfoldable pub is_zero : FrontMatter → Bool
is_zero fm = is_none fm.format && is_nil fm.raw && is_end fm.fields

-- The accessors Text, Bool, Time and Strings; `none` is the second result `false`.
abbrev value_at : FrontMatter → Bytes → Option Value
value_at fm key = lookup key fm.fields

text_of : Option Value → Option Bytes
text_of (some (text s)) = some s
text_of _ = none

unfoldable pub text_at : FrontMatter → Bytes → Option Bytes
unfolding text_of
text_at fm key = text_of (value_at fm key)

bool_of : Option Value → Option Bool
bool_of (some (bool b)) = some b
bool_of _ = none

unfoldable pub bool_at : FrontMatter → Bytes → Option Bool
unfolding bool_of
bool_at fm key = bool_of (value_at fm key)

-- The loop over the elements of a []any.
strings_of : Values → Option (List Bytes)
strings_of nil = some []
strings_of (cons (text s) vs) = elim (strings_of vs) [ none ↦ none | some ss ↦ some (s ∷ ss) ]
strings_of (cons v vs) = none

list_of : Option Value → Option (List Bytes)
unfolding strings_of
list_of (some (texts ss)) = some ss
list_of (some (list vs)) = strings_of vs
list_of _ = none

unfoldable pub strings_at : FrontMatter → Bytes → Option (List Bytes)
unfolding list_of
strings_at fm key = list_of (value_at fm key)

-- The first layout that time.Parse, the first argument, reads the text in.
first_layout : (Bytes → Bytes → Option Bytes) → List Bytes → Bytes → Option Bytes
first_layout parse [] s = none
first_layout parse (l ∷ ls) s =
    let rest = first_layout parse ls s in elim (parse l s) [ none ↦ rest | some t ↦ some t ]

abbrev time_layouts : List Bytes
time_layouts =
    codes "2006-01-02T15:04:05Z07:00" ∷ codes "2006-01-02 15:04:05" ∷ codes "2006-01-02" ∷ []

time_of : (Bytes → Bytes → Option Bytes) → Option Value → Option Bytes
unfolding first_layout
time_of parse (some (time t)) = some t
time_of parse (some (text s)) = first_layout parse time_layouts s
time_of parse _ = none

unfoldable pub time_at : (Bytes → Bytes → Option Bytes) → FrontMatter → Bytes → Option Bytes
unfolding time_of
time_at parse fm key = time_of parse (value_at fm key)

-- What Validate refuses for the format.
refuse_without_format : FrontMatter → Result (Unit {0})
refuse_without_format fm =
    if is_none fm.format
    then (do
      refuse (not (is_end fm.fields))
          (invalidf front_matter (format_string fm.format) fields_without_format)
      refuse (not (is_nil fm.raw))
          (invalidf front_matter (format_string fm.format) raw_without_format))
    else ok tt

-- FrontMatter.Validate.
unfoldable pub validate : FrontMatter → Result (Unit {0})
unfolding refuse_without_format
validate fm = do
  refuse (not (is_known fm.format)) (invalidf front_matter (format_string fm.format) unknown_format)
  refuse_without_format fm
  refuse (has_key [] fm.fields) (invalidf front_matter (format_string fm.format) empty_field_key)
