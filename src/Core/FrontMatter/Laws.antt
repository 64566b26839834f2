-- ===== src/Core/FrontMatter/Laws.antt =====
-- What FrontMatter.Validate accepts.
use micawber.Go.Text.{equal}
use micawber.Core.Value.{Fields, end, field, has_key}
use micawber.Core.Errors.{
  empty_field_key, front_matter, invalidf, refuse-ok_iff, invalid_value, FailsWith, ok, is,
}
use micawber.Prelude.{codes, ◌∷◌, ◌≢◌, ap, refl, Bytes, false, [], arith, is_nil, ◌↔◌, ◌≡◌}
use micawber.Core.FrontMatter.{
  Format, yaml, toml, json, no_format, other_format, FrontMatter, is_known, validate, is_none,
}

-- The formats that core names, besides none.
pub data NamedFormat : Format → Type 0 where
  named_yaml : NamedFormat yaml
  named_toml : NamedFormat toml
  named_json : NamedFormat json

-- No entry of the map has the empty key.
abbrev pub HasNoEmptyKey : Fields → Type 0
HasNoEmptyKey end = Unit
HasNoEmptyKey (field key v fs) = (key ≢ []) × HasNoEmptyKey fs

-- Nothing at all, or a block of a named format without an empty key.
pub data IsFrontMatter : FrontMatter → Type 0 where
  nothing : IsFrontMatter (record { format = no_format; raw = []; fields = end })
  block :
      {f : Format} (raw : Bytes) {fields : Fields}
      → NamedFormat f
      → HasNoEmptyKey fields
      → IsFrontMatter (record { format = f; raw = raw; fields = fields })

has_key-empty_iff : (fs : Fields) → (has_key [] fs ≡ false) ↔ HasNoEmptyKey fs
unfolding equal
has_key-empty_iff end = (λ h. tt, λ h. refl)
has_key-empty_iff (field [] v fs) = (λ h. cc h, λ h. absurd (h.0 refl))
has_key-empty_iff (field (c ∷ key) v fs) =
    let later = has_key-empty_iff fs in
    (λ h. (λ e. cc (ap is_nil e), later.0 (ground (arith, h))), λ h. ground (arith, later.1 h.1))

named-ok_iff :
    (f : Format) (raw : Bytes) (fields : Fields)
    → NamedFormat f
    → (validate (record { format = f; raw = raw; fields = fields }) ≡ ok tt) ↔ HasNoEmptyKey fields
unfolding validate is_known micawber.Core.FrontMatter.format_string
named-ok_iff f raw fields NamedFormat.named_yaml =
    let keyed = has_key-empty_iff fields in
    let checked =
      refuse-ok_iff (has_key [] fields) (invalidf front_matter (codes "yaml") empty_field_key) in
    (λ h. keyed.0 (checked.0 h), λ h. checked.1 (keyed.1 h))
named-ok_iff f raw fields NamedFormat.named_toml =
    let keyed = has_key-empty_iff fields in
    let checked =
      refuse-ok_iff (has_key [] fields) (invalidf front_matter (codes "toml") empty_field_key) in
    (λ h. keyed.0 (checked.0 h), λ h. checked.1 (keyed.1 h))
named-ok_iff f raw fields NamedFormat.named_json =
    let keyed = has_key-empty_iff fields in
    let checked =
      refuse-ok_iff (has_key [] fields) (invalidf front_matter (codes "json") empty_field_key) in
    (λ h. keyed.0 (checked.0 h), λ h. checked.1 (keyed.1 h))

validate-IsFrontMatter :
    (f : Format) (raw : Bytes) (fields : Fields)
    → validate (record { format = f; raw = raw; fields = fields }) ≡ ok tt
    → IsFrontMatter (record { format = f; raw = raw; fields = fields })
unfolding validate is_known micawber.Core.FrontMatter.format_string
validate-IsFrontMatter no_format [] end h = IsFrontMatter.nothing
validate-IsFrontMatter no_format (c ∷ raw) end h = cc h
validate-IsFrontMatter no_format raw (field k v fs) h = cc h
validate-IsFrontMatter yaml raw fields h =
    IsFrontMatter.block raw NamedFormat.named_yaml
      ((named-ok_iff yaml raw fields NamedFormat.named_yaml).0 h)
validate-IsFrontMatter toml raw fields h =
    IsFrontMatter.block raw NamedFormat.named_toml
      ((named-ok_iff toml raw fields NamedFormat.named_toml).0 h)
validate-IsFrontMatter json raw fields h =
    IsFrontMatter.block raw NamedFormat.named_json
      ((named-ok_iff json raw fields NamedFormat.named_json).0 h)
validate-IsFrontMatter (other_format s) raw fields h = cc h

IsFrontMatter-validate : (fm : FrontMatter) → IsFrontMatter fm → validate fm ≡ ok tt
unfolding validate is_known micawber.Core.FrontMatter.format_string
IsFrontMatter-validate fm IsFrontMatter.nothing = refl
IsFrontMatter-validate fm (IsFrontMatter.block {f} raw {fields} named keyed) =
    (named-ok_iff f raw fields named).1 keyed

-- FrontMatter.Validate accepts exactly the front matter that is nothing at all, no format, no
-- block and no field, or that has one of the formats yaml, toml and json and no empty key at its
-- top level.
pub validate-ok_iff : (fm : FrontMatter) → (validate fm ≡ ok tt) ↔ IsFrontMatter fm
validate-ok_iff fm = (validate-IsFrontMatter fm.format fm.raw fm.fields, IsFrontMatter-validate fm)

-- Every refusal matches ErrInvalid.
pub FailsWith-validate : (fm : FrontMatter) → FailsWith invalid_value (validate fm)
unfolding validate is
FailsWith-validate fm = ground arith
