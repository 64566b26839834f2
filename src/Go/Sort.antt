-- ===== src/Go/Sort.antt =====
-- slices.Sort on strings: their order, and the sorted list, which insertion builds.
pub mod Laws
use micawber.Go.Text.{equal}
use micawber.Prelude.{
  ◌&&◌, ◌==◌, ◌+◌, ◌||◌, if◌then◌else◌, ltb, List, Bytes, ℕ, Bool, true, false, [], ◌∷◌,
}

-- `a < b` on strings.
unfoldable pub less : Bytes → Bytes → Bool
less [] [] = false
less [] (y ∷ b) = true
less (x ∷ a) [] = false
less (x ∷ a) (y ∷ b) = ltb x y || (x == y && less a b)

unfoldable pub insert : Bytes → List Bytes → List Bytes
unfolding less
insert k [] = k ∷ []
insert k (x ∷ xs) = let rest = insert k xs in if less x k then x ∷ rest else k ∷ x ∷ xs

unfoldable pub sort : List Bytes → List Bytes
unfolding insert
sort [] = []
sort (k ∷ ks) = insert k (sort ks)

-- How many times a string is in a list.
unfoldable pub count : Bytes → List Bytes → ℕ
unfolding equal
count k [] = 0
count k (j ∷ js) = (if equal j k then 1 else 0) + count k js
