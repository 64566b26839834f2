-- ===== src/Go/Sort/Laws.antt =====
-- What the sorted list holds, and what it depends on.
use micawber.Go.Text.{equal}
use micawber.Prelude.{
  if◌then◌else◌, refl, ap, [], ◌∙◌, ◌∷◌, ◌+◌, ap₂, arith, true, false, ◌++◌, ◌≡◌, List, Bytes,
}
use mathlib.Core.List.{Permᴰ}
use micawber.Go.Sort.{less, insert, sort, count}

less-total : (a b : Bytes) → less a b ≡ false → less b a ≡ false → a ≡ b
unfolding less
less-total (x ∷ a) (y ∷ b) h k = ground (arith, less-total a b)
less-total _ _ h k = ground arith

pub less-asymm : (a b : Bytes) → less a b ≡ true → less b a ≡ false
unfolding less
less-asymm (x ∷ a) (y ∷ b) h = ground (arith, less-asymm a b)
less-asymm _ _ h = ground arith

less_between : (x a b : Bytes) → less x a ≡ false → less x b ≡ true → less a b ≡ true
unfolding less
less_between (x ∷ s) (y ∷ a) (z ∷ b) h k = ground (arith, less_between s a b)
less_between _ _ _ h k = ground arith

insert_swap : (a b : Bytes) (xs : List Bytes) → insert a (insert b xs) ≡ insert b (insert a xs)
unfolding insert
insert_swap a b [] = ground (arith, less-total a b, less-asymm a b, less-asymm b a)
insert_swap a b (x ∷ xs) = ground (
  arith,
  insert_swap a b xs,
  less-total a b,
  less-asymm a b,
  less-asymm b a,
  less_between x a b,
  less_between x b a,
)

-- A permutation of the list sorts to the same list.
pub sort-Permᴰ : {xs ys : List Bytes} → Permᴰ xs ys → sort xs ≡ sort ys
unfolding sort
sort-Permᴰ Permᴰ.nil = refl
sort-Permᴰ (Permᴰ.cons e p) = ap₂ insert e (sort-Permᴰ p)
sort-Permᴰ (Permᴰ.swap {a} {b} {l = l} e f) =
    insert_swap a b (sort l) ∙ ap₂ (λ z w. insert z (insert w (sort l))) f e
sort-Permᴰ (Permᴰ.trans p q) = sort-Permᴰ p ∙ sort-Permᴰ q

pub count-append : (k : Bytes) (xs ys : List Bytes) → count k (xs ++ ys) ≡ count k xs + count k ys
unfolding count
count-append k [] ys = omega arith
count-append k (x ∷ xs) ys = omega (arith, count-append k xs ys)

count-insert : (k j : Bytes) (xs : List Bytes) → count k (insert j xs) ≡ count k (j ∷ xs)
unfolding insert count
count-insert k j [] = refl
count-insert k j (x ∷ xs) = ground (arith, count-insert k j xs)

pub count-sort : (k : Bytes) (xs : List Bytes) → count k (sort xs) ≡ count k xs
unfolding sort count
count-sort k [] = refl
count-sort k (x ∷ xs) =
    count-insert k x (sort xs) ∙ ap (λ n. (if equal x k then 1 else 0) + n) (count-sort k xs)
