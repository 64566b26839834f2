-- ===== src/Core/Clone.antt =====
-- core/content.go and core/frontmatter.go: Clone, on the slices and maps that values share.
pub mod Apart
pub mod Unshared
use micawber.Core.Content.{Revision, Content}
use micawber.Core.Value.{field, Value, end, Fields}
use micawber.Core.ContentPath.{ContentPath}
use micawber.Core.FrontMatter.{Format}
use micawber.Prelude.{zero, none, length, suc, ◌∷◌, ◌++◌, [], ℕ, some, Bytes, Option, List}

-- The entries of a map: each key with the address of its value.
abbrev pub Entries : Type 0
Entries = List (Bytes × ℕ)

-- The arrays behind slices, the maps, and the values that maps refer to, by their addresses.
pub record Memory : Type 0 where
  pub arrays : List Bytes
  pub maps : List Entries
  pub values : List Value

-- A slice or a map, nil or the whole of what stands at an address.
abbrev pub Ref : Type 0
Ref = Option ℕ

-- FrontMatter and Content, with what they refer to.
pub record FrontMatterRef : Type 0 where
  pub format : Format
  pub raw : Ref
  pub fields : Ref

pub record ContentRef : Type 0 where
  pub path : ContentPath
  pub front_matter : FrontMatterRef
  pub body : Ref
  pub revision : Revision

-- What stands at an address; no value has one that is out of range.
unfoldable pub get {ℓ} : {A : Type ℓ} → A → List A → ℕ → A
get nothing [] n = nothing
get nothing (x ∷ xs) zero = x
get nothing (x ∷ xs) (suc n) = get nothing xs n

unfoldable pub set {ℓ} : {A : Type ℓ} → List A → ℕ → A → List A
set [] n y = []
set (x ∷ xs) zero y = y ∷ xs
set (x ∷ xs) (suc n) y = x ∷ set xs n y

unfoldable pub bytes_at : Memory → Ref → Bytes
unfolding get
bytes_at m none = []
bytes_at m (some a) = get [] m.arrays a

unfoldable pub entries_at : Memory → Ref → Entries
unfolding get
entries_at m none = []
entries_at m (some a) = get [] m.maps a

-- The fields that a reader of the memory sees in a map.
unfoldable pub fields_behind : List Value → Entries → Fields
unfolding get
fields_behind values [] = end
fields_behind values ((key, a) ∷ entries) =
    field key (get Value.null values a) (fields_behind values entries)

-- The value that a reader of the memory sees.
unfoldable pub seen_content : Memory → ContentRef → Content
unfolding bytes_at entries_at fields_behind
seen_content m c = record {
  path = c.path;
  front_matter = record {
    format = c.front_matter.format;
    raw = bytes_at m c.front_matter.raw;
    fields = fields_behind m.values (entries_at m c.front_matter.fields);
  };
  body = bytes_at m c.body;
  revision = c.revision;
}

-- slices.Clone, maps.Clone.
unfoldable pub clone_bytes : Ref → Memory → Memory × Ref
unfolding bytes_at
clone_bytes none m = (m, none)
clone_bytes (some a) m =
    (record m { arrays = m.arrays ++ (bytes_at m (some a) ∷ []) }, some (length m.arrays))

unfoldable pub clone_map : Ref → Memory → Memory × Ref
unfolding entries_at
clone_map none m = (m, none)
clone_map (some a) m =
    (record m { maps = m.maps ++ (entries_at m (some a) ∷ []) }, some (length m.maps))

-- FrontMatter.Clone.
unfoldable pub clone_front_matter : FrontMatterRef → Memory → Memory × FrontMatterRef
unfolding clone_bytes clone_map
clone_front_matter fm m =
    let raw = clone_bytes fm.raw m in
    let fields = clone_map fm.fields raw.0 in
    (fields.0, record { format = fm.format; raw = raw.1; fields = fields.1 })

-- Content.Clone.
unfoldable pub clone : ContentRef → Memory → Memory × ContentRef
unfolding clone_front_matter clone_bytes
clone c m =
    let fm = clone_front_matter c.front_matter m in
    let body = clone_bytes c.body fm.0 in
    (body.0, record { path = c.path; front_matter = fm.1; body = body.1; revision = c.revision })

-- What a caller may do with a content that it holds: write to its body, its raw bytes or its map.
pub data Overwrite : Type 0 where
  write_body : Bytes → Overwrite
  write_raw : Bytes → Overwrite
  write_fields : Entries → Overwrite

unfoldable pub set_bytes : Ref → Bytes → Memory → Memory
unfolding set
set_bytes none b m = m
set_bytes (some a) b m = record m { arrays = set m.arrays a b }

unfoldable pub set_fields : Ref → Entries → Memory → Memory
unfolding set
set_fields none fs m = m
set_fields (some a) fs m = record m { maps = set m.maps a fs }

unfoldable pub edit : ContentRef → Overwrite → Memory → Memory
unfolding set_bytes set_fields
edit c (write_body b) m = set_bytes c.body b m
edit c (write_raw b) m = set_bytes c.front_matter.raw b m
edit c (write_fields fs) m = set_fields c.front_matter.fields fs m

unfoldable pub edit_all : ContentRef → List Overwrite → Memory → Memory
unfolding edit
edit_all c [] m = m
edit_all c (e ∷ es) m = edit_all c es (edit c e m)

-- Writes into values that maps refer to, such as the elements of a nested list.
unfoldable pub write_nested : List (ℕ × Value) → Memory → Memory
unfolding set
write_nested [] m = m
write_nested ((a, v) ∷ writes) m = write_nested writes (record m { values = set m.values a v })
