-- ===== src/Localfs/Key.antt =====
-- localfs/key.go: the rules on keys that this store adds to those of core.AssetKey.
pub mod Devices
pub mod Laws
pub mod Reserved
pub mod Spellings
pub mod Parting
use micawber.Go.Fold.{equal_fold, to_upper}
use micawber.Go.Text.{contains_byte, split, has_suffix, trim_right, equal}
use micawber.Prelude.{
  drop, true, some, take, length, ◌&&◌, ◌||◌, none, all, leb, [], any, ◌==◌, ℕ, ◌++◌, if◌then◌else◌,
  Bool, ◌∷◌, Option, codes, List, Bytes,
}
use micawber.Core.AssetKey.{AssetKey}
use micawber.Core.Errors.{
  device_name, forbidden_byte, space_ending, dot_ending, blank_segment, ◌>>◌, Result, ok, err,
  invalidf, asset_key,
}

-- forbiddenChars.
abbrev pub forbidden_chars : Bytes
forbidden_chars = codes "<>:" ++ (b'"' ∷ codes "|?*")

-- strings.IndexAny(seg, forbiddenChars), the byte in place of its index.
unfoldable pub first_forbidden : Bytes → Option ℕ
first_forbidden [] = none
first_forbidden (c ∷ s) =
    let rest = first_forbidden s in if contains_byte c forbidden_chars then some c else rest

-- `base[:i]` before the first dot or colon, or all of it.
unfoldable pub stem : Bytes → Bytes
stem [] = []
stem (c ∷ s) = let rest = stem s in if c == b'.' || c == b':' then [] else c ∷ rest

abbrev pub is_one_of : Bytes → List Bytes → Bool
is_one_of s = any (λ t. equal t s)

-- The digits of COM and LPT, the superscript ones in UTF-8.
abbrev pub port_digits : List Bytes
port_digits = (0xC2 ∷ 0xB9 ∷ []) ∷ (0xC2 ∷ 0xB2 ∷ []) ∷ (0xC2 ∷ 0xB3 ∷ []) ∷ []

unfoldable pub is_port_digit : Bytes → Bool
unfolding equal
is_port_digit (d ∷ []) = leb b'1' d && leb d b'9'
is_port_digit s = is_one_of s port_digits

-- isReservedBaseName; the first argument is strings.ToUpper on text that is not ASCII.
unfoldable pub is_reserved_base_name : (Bytes → Bytes) → Bytes → Bool
unfolding equal to_upper is_port_digit equal_fold
is_reserved_base_name unicode name =
    let n = length name in
    let device =
      is_one_of (to_upper unicode name)
        (codes "CON" ∷ codes "PRN" ∷ codes "AUX" ∷ codes "NUL" ∷ []) in
    let port = is_one_of (to_upper unicode (take 3 name)) (codes "COM" ∷ codes "LPT" ∷ []) in
    if n == 3 && device
    then true
    else if leb 4 n && port
    then is_port_digit (drop 3 name)
    else if n == 6 && equal_fold name (codes "CONIN$")
    then true
    else n == 7 && equal_fold name (codes "CONOUT$")

-- isReservedName.
unfoldable pub is_reserved_name : (Bytes → Bytes) → Bytes → Bool
unfolding stem trim_right is_reserved_base_name
is_reserved_name unicode seg =
    is_reserved_base_name unicode (trim_right (λ c. c == b' ') (stem seg))

-- One turn of checkKey's loop over the segments.
unfoldable pub check_key_segment : (Bytes → Bytes) → Bytes → Bytes → Result (Unit {0})
unfolding has_suffix first_forbidden is_reserved_name
check_key_segment unicode s seg =
    if all (λ c. c == b' ') seg
    then err (invalidf asset_key s blank_segment)
    else if has_suffix seg (codes ".")
    then err (invalidf asset_key s (dot_ending seg))
    else if has_suffix seg (codes " ")
    then err (invalidf asset_key s (space_ending seg))
    else elim (first_forbidden seg) [
      | some c ↦ err (invalidf asset_key s (forbidden_byte seg c))
      | none ↦
          if is_reserved_name unicode seg
          then err (invalidf asset_key s (device_name seg))
          else ok tt
    ]

unfoldable pub check_key_segments : (Bytes → Bytes) → Bytes → List Bytes → Result (Unit {0})
unfolding check_key_segment
check_key_segments unicode s [] = ok tt
check_key_segments unicode s (x ∷ xs) = do
  check_key_segment unicode s x
  check_key_segments unicode s xs

-- checkKey.
unfoldable pub check_key : (Bytes → Bytes) → AssetKey → Result (Unit {0})
unfolding check_key_segments split
check_key unicode key = check_key_segments unicode key.k (split b'/' key.k)
