-- ===== src/Core/Digest.antt =====
-- core/asset.go: Digest and validateHex.
pub mod Laws
use micawber.Prelude.{
  ℕ, ◌%◌, Bool, true, false, not, ◌&&◌, ◌||◌, List, [], ◌∷◌, ◌++◌, Bytes, codes, leb, ◌==◌,
  if◌then◌else◌, length, is_nil, Option, none, some,
}
use micawber.Go.Text.{contains_byte, cut}
use micawber.Go.Utf8.{runes}
use micawber.Go.Fold.{to_lower}
use micawber.Core.Errors.{
  Kind, digest, Result, ok, err, ◌>>=◌, ◌>>◌, invalidf, refuse, first_error, empty_algorithm,
  algorithm_with_colon, empty_hex, odd_hex, non_hex, not_algorithm_hex,
}

-- type Digest string
abbrev pub Digest : Type 0
Digest = Bytes

-- The hex digits that validateHex lets pass.
abbrev pub is_lower_hex : ℕ → Bool
is_lower_hex r = (leb b'0' r && leb r b'9') || (leb b'a' r && leb r b'f')

check_hex_runes : Kind → Bytes → List ℕ → Result (Unit {0})
check_hex_runes kind value [] = ok tt
check_hex_runes kind value (r ∷ rs) =
    let rest = check_hex_runes kind value rs in
    if is_lower_hex r then rest else err (invalidf kind value (non_hex r))

-- validateHex.
unfoldable pub validate_hex : Kind → Bytes → Bytes → Result (Unit {0})
unfolding check_hex_runes
validate_hex kind value hex = do
  refuse (is_nil hex) (invalidf kind value empty_hex)
  refuse (not (length hex % 2 == 0)) (invalidf kind value odd_hex)
  check_hex_runes kind value (runes hex)

-- NewDigest; the first argument is strings.ToLower on text that is not ASCII.
unfoldable pub new_digest : (Bytes → Bytes) → Bytes → Bytes → Result Digest
new_digest unicode algorithm hex = do
  refuse (is_nil algorithm) (invalidf digest algorithm empty_algorithm)
  refuse (contains_byte b':' algorithm) (invalidf digest algorithm algorithm_with_colon)
  let lower = to_lower unicode hex
  validate_hex digest (algorithm ++ (b':' ∷ lower)) lower
  ok (algorithm ++ (b':' ∷ lower))

-- Algorithm, Hex, IsZero.
unfoldable pub algorithm : Digest → Bytes
algorithm d = elim (cut b':' d) [ none ↦ [] | some (a, h) ↦ a ]

unfoldable pub hex : Digest → Bytes
hex d = elim (cut b':' d) [ none ↦ [] | some (a, h) ↦ h ]

abbrev pub is_zero : Digest → Bool
is_zero d = is_nil d

-- What Validate does with the two parts.
validate_parts : Digest → Option (Bytes × Bytes) → Result (Unit {0})
validate_parts d none = err (invalidf digest d not_algorithm_hex)
validate_parts d (some (a, h)) = do
  refuse (is_nil a) (invalidf digest d empty_algorithm)
  validate_hex digest d h

-- Validate.
unfoldable pub validate : Digest → Result (Unit {0})
unfolding validate_parts
validate d = if is_zero d then ok tt else validate_parts d (cut b':' d)
