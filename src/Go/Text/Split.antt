-- ===== src/Go/Text/Split.antt =====
-- Splitting and joining on a separator byte.
use micawber.Prelude.{
  append_assoc, sym, ◌∙◌, ℕ, false, List, [], ◌∷◌, ◌++◌, ◌≡◌, ◌≢◌, refl, arith, Bytes, ◌==◌, All,
  Bool-cases, inl, inr,
}
use micawber.Go.Text.{split, join, cons_head, contains_byte}

pub split-ne-nil : (sep : ℕ) (s : Bytes) → split sep s ≢ []
unfolding split
split-ne-nil sep [] = ground arith
split-ne-nil sep (c ∷ s) = ground arith

join-cons_head :
    (sep c : ℕ) (xs : List Bytes) → xs ≢ [] → join sep (cons_head c xs) ≡ c ∷ join sep xs
unfolding join
join-cons_head sep c [] h = absurd (h refl)
join-cons_head sep c (x ∷ []) h = refl
join-cons_head sep c (x ∷ y ∷ r) h = refl

join-cons :
    (sep : ℕ) (x : Bytes) (xs : List Bytes) → xs ≢ [] → join sep (x ∷ xs) ≡ x ++ (sep ∷ join sep xs)
unfolding join
join-cons sep x [] h = absurd (h refl)
join-cons sep x (y ∷ r) h = refl

-- Joining the segments of a string gives it back.
pub join-split : (sep : ℕ) (s : Bytes) → join sep (split sep s) ≡ s
unfolding split
join-split sep [] = unfold join in refl
join-split sep (c ∷ s) = ground (
  arith,
  join-split sep s,
  join-cons_head sep c (split sep s) (split-ne-nil sep s),
  join-cons sep [] (split sep s) (split-ne-nil sep s),
)

-- A separator between two strings splits each on its own.
pub split-append : (sep : ℕ) (a b : Bytes) → split sep (a ++ (sep ∷ b)) ≡ split sep a ++ split sep b
unfolding split
split-append sep [] b = ground arith
split-append sep (c ∷ a) b = ground (
  arith,
  split-append sep a b,
  cons_head-append c (split sep a) (split sep b) (split-ne-nil sep a),
)
  where
    cons_head-append :
        (c : ℕ) (xs ys : List Bytes) → xs ≢ [] → cons_head c (xs ++ ys) ≡ cons_head c xs ++ ys
    cons_head-append c [] ys h = absurd (h refl)
    cons_head-append c (x ∷ xs) ys h = refl

-- A string with no separator is its only segment.
pub split_single : (sep : ℕ) (s : Bytes) → contains_byte sep s ≡ false → split sep s ≡ s ∷ []
unfolding split
split_single sep [] h = refl
split_single sep (c ∷ s) h = ground (arith, split_single sep s)

-- No segment holds the separator.
pub split-All : (sep : ℕ) (s : Bytes) → All (λ x. contains_byte sep x ≡ false) (split sep s)
unfolding split
split-All sep [] = (refl, tt)
split-All sep (c ∷ s) = elim (Bool-cases (c == sep)) [
  | inl e ↦ rw e (refl, split-All sep s)
  | inr e ↦ rw e (go (split sep s) e (split-All sep s))
]
  where
    go :
        (xs : List Bytes)
        → (c == sep) ≡ false
        → All (λ x. contains_byte sep x ≡ false) xs
        → All (λ x. contains_byte sep x ≡ false) (cons_head c xs)
    go [] e h = (ground arith, tt)
    go (x ∷ xs) e h = (ground arith, h.1)

-- Joining two nonempty lists of segments puts one separator between.
pub join-append :
    (sep : ℕ) (xs ys : List Bytes)
    → xs ≢ []
    → ys ≢ []
    → join sep (xs ++ ys) ≡ join sep xs ++ (sep ∷ join sep ys)
join-append sep [] ys h k = absurd (h refl)
join-append sep (x ∷ []) ys h k = unfold join in join-cons sep x ys k
join-append sep (x ∷ y ∷ r) ys h k =
    join-cons sep x ((y ∷ r) ++ ys) (λ e. cc)
    ∙ rw (join-append sep (y ∷ r) ys (λ e. cc) k) (
        sym (
          rw (join-cons sep x (y ∷ r) (λ e. cc))
            (append_assoc x (sep ∷ join sep (y ∷ r)) (sep ∷ join sep ys))))
