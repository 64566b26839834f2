-- ===== src/Go/Text/Prefix.antt =====
-- Prefixes, and what is left when one is cut off.
use micawber.Prelude.{ℕ, true, [], ◌∷◌, ◌++◌, ◌≡◌, refl, arith, Bytes}
use micawber.Go.Text.{equal_iff, has_suffix, has_prefix, after_prefix, trim_prefix}

pub has_prefix-append : (p r : Bytes) → has_prefix (p ++ r) p ≡ true
unfolding has_prefix
has_prefix-append [] [] = refl
has_prefix-append [] (c ∷ r) = refl
has_prefix-append (c ∷ p) r = ground (arith, has_prefix-append p r)

pub has_prefix-split : (s p : Bytes) → has_prefix s p ≡ true → (r : Bytes) × (s ≡ p ++ r)
unfolding has_prefix
has_prefix-split s [] h = (s, refl)
has_prefix-split [] (c ∷ p) h = cc
has_prefix-split (d ∷ s) (c ∷ p) h =
    let (r, e) = has_prefix-split s p (ground arith) in
    let same : d ≡ c = ground arith in (r, cc (same, e))

after_prefix-append : (p r : Bytes) → after_prefix (p ++ r) p ≡ r
after_prefix-append [] [] = refl
after_prefix-append [] (c ∷ r) = refl
after_prefix-append (c ∷ p) r = after_prefix-append p r

pub trim_prefix-append : (p r : Bytes) → trim_prefix (p ++ r) p ≡ r
unfolding trim_prefix
trim_prefix-append p r = rw (has_prefix-append p r) (after_prefix-append p r)

pub has_suffix-append : (s : Bytes) (c : ℕ) (p : Bytes) → has_suffix (s ++ (c ∷ p)) (c ∷ p) ≡ true
unfolding has_suffix
has_suffix-append [] c p = rw ((equal_iff (c ∷ p) (c ∷ p)).1 refl) refl
has_suffix-append (b ∷ s) c p = rw (has_suffix-append s c p) (ground arith)
