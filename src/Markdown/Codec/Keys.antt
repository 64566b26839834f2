-- ===== src/Markdown/Codec/Keys.antt =====
-- markdown/codec.go: orderedKeys; markdown/toml.go: tomlKeyOrder and isTOMLTable.
pub mod Order
pub mod Once
pub mod Tables
use micawber.Go.Sort.{sort}
use micawber.Go.Text.{equal}
use micawber.Prelude.{
  not, ◌&&◌, some, ◌++◌, if◌then◌else◌, none, false, true, [], ◌∷◌, any, List, Bool, Bytes,
}
use micawber.Core.Value.{Value, Values, Fields, keys, has_key, lookup}

-- Membership in the set `seen`.
abbrev pub mem : Bytes → List Bytes → Bool
mem k seen = any (λ j. equal j k) seen

-- The first loop: the authored keys that survive. The set `seen` is the keys emitted so far.
unfoldable pub surviving : Fields → List Bytes → List Bytes → List Bytes
unfolding equal
surviving fs seen [] = []
surviving fs seen (k ∷ ks) =
    let emitted = surviving fs (k ∷ seen) ks in
    let skipped = surviving fs seen ks in
    if has_key k fs && not (mem k seen) then k ∷ emitted else skipped

-- The second loop: the keys not seen, in the order in which the map is walked.
unfoldable pub unseen : List Bytes → List Bytes → List Bytes
unfolding equal
unseen seen [] = []
unseen seen (k ∷ ks) = let rest = unseen seen ks in if mem k seen then rest else k ∷ rest

-- orderedKeys.
unfoldable pub ordered_keys : Fields → List Bytes → List Bytes
unfolding surviving unseen sort
ordered_keys fs authored =
    let kept = surviving fs [] authored in kept ++ sort (unseen kept (keys fs))

-- isTOMLTable. A missing key gives nil, which is no table.
abbrev is_table : Value → Bool
is_table (Value.object fs) = true
is_table (Value.objects fss) = true
is_table (Value.list (Values.cons v vs)) = is_table v
is_table _ = false

unfoldable pub is_toml_table : Fields → Bytes → Bool
unfolding lookup
is_toml_table fs k = elim (lookup k fs) [ none ↦ false | some v ↦ is_table v ]

-- The keys of one kind, in the order in which tomlKeyOrder's loop appends them.
unfoldable pub of_kind : Fields → Bool → List Bytes → List Bytes
unfolding is_toml_table
of_kind fs table [] = []
of_kind fs table (k ∷ ks) =
    let rest = of_kind fs table ks in
    if is_toml_table fs k
    then (if table then k ∷ rest else rest)
    else if table
    then rest
    else k ∷ rest

-- tomlKeyOrder.
unfoldable pub toml_key_order : Fields → List Bytes → List Bytes
unfolding of_kind ordered_keys
toml_key_order fs authored =
    let order = ordered_keys fs authored in of_kind fs false order ++ of_kind fs true order
