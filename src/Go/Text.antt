-- ===== src/Go/Text.antt =====
-- strings and bytes: comparison, splitting, prefixes, search and trimming, byte by byte.
pub mod Split
pub mod Cut
pub mod Prefix
use micawber.Prelude.{
  ℕ, zero, suc, ◌≤◌, ◌<◌, ◌+◌, ◌-◌, Bool, true, false, not, ◌&&◌, ◌||◌, List, [], ◌∷◌, ◌++◌, ◌≡◌,
  ◌≢◌, ◌↔◌, refl, sym, ap, ◌∙◌, Option, none, some, arith, Bytes, ◌==◌, if◌then◌else◌, any, all,
  is_nil, length, reverse, All, Bool-cases, inl, inr,
}

-- `a == b` on strings, bytes.Equal.
unfoldable pub equal : Bytes → Bytes → Bool
equal [] [] = true
equal (x ∷ xs) (y ∷ ys) = x == y && equal xs ys
equal _ _ = false

pub equal_iff : (s t : Bytes) → (equal s t ≡ true) ↔ (s ≡ t)
unfolding equal
equal_iff [] [] = ground arith
equal_iff [] (d ∷ t) = ground arith
equal_iff (c ∷ s) [] = ground arith
equal_iff (c ∷ s) (d ∷ t) = ground (arith, equal_iff s t)

-- strings.HasPrefix, strings.HasSuffix.
unfoldable pub has_prefix : Bytes → Bytes → Bool
has_prefix s [] = true
has_prefix [] (p ∷ ps) = false
has_prefix (c ∷ s) (p ∷ ps) = c == p && has_prefix s ps

unfoldable pub has_suffix : Bytes → Bytes → Bool
unfolding equal
has_suffix [] p = is_nil p
has_suffix (c ∷ s) p = equal (c ∷ s) p || has_suffix s p

-- strings.Contains with a one-byte argument, bytes.IndexByte(s, c) >= 0.
abbrev pub contains_byte : ℕ → Bytes → Bool
contains_byte c = any (λ b. b == c)

-- The head of the first segment, or a new one.
abbrev pub cons_head : ℕ → List Bytes → List Bytes
cons_head c [] = (c ∷ []) ∷ []
cons_head c (x ∷ xs) = (c ∷ x) ∷ xs

-- strings.Split(s, sep) for a separator of one byte.
unfoldable pub split : ℕ → Bytes → List Bytes
split sep [] = [] ∷ []
split sep (c ∷ s) = let rest = split sep s in if c == sep then [] ∷ rest else cons_head c rest

-- strings.Join(segments, sep).
unfoldable pub join : ℕ → List Bytes → Bytes
join sep [] = []
join sep (x ∷ []) = x
join sep (x ∷ y ∷ r) = x ++ (sep ∷ join sep (y ∷ r))

-- strings.Cut(s, sep) for a separator of one byte: `none` when it is not found.
unfoldable pub cut : ℕ → Bytes → Option (Bytes × Bytes)
cut sep [] = none
cut sep (c ∷ s) =
    let rest = cut sep s in
    if c == sep then some ([], s) else elim rest [ none ↦ none | some (a, b) ↦ some (c ∷ a, b) ]

-- strings.TrimRight(s, set), the set given by its test.
unfoldable pub trim_right : (ℕ → Bool) → Bytes → Bytes
trim_right p [] = []
trim_right p (c ∷ s) = let rest = trim_right p s in if p c && is_nil rest then [] else c ∷ rest

-- strings.TrimSuffix(s, suffix).
unfoldable pub trim_suffix : Bytes → Bytes → Bytes
unfolding equal
trim_suffix [] p = []
trim_suffix (c ∷ s) p = let rest = trim_suffix s p in if equal (c ∷ s) p then [] else c ∷ rest

-- strings.TrimPrefix(s, prefix).
abbrev after_prefix : Bytes → Bytes → Bytes
after_prefix s [] = s
after_prefix [] (p ∷ ps) = []
after_prefix (c ∷ s) (p ∷ ps) = after_prefix s ps

unfoldable pub trim_prefix : Bytes → Bytes → Bytes
unfolding has_prefix
trim_prefix s p = if has_prefix s p then after_prefix s p else s

-- bytes.Count(s, {c}).
unfoldable pub count_byte : ℕ → Bytes → ℕ
count_byte c [] = 0
count_byte c (b ∷ s) = (if b == c then 1 else 0) + count_byte c s

-- bytes.IndexByte(s, c).
unfoldable pub index_byte : ℕ → Bytes → Option ℕ
index_byte c [] = none
index_byte c (b ∷ s) =
    let rest = index_byte c s in
    if b == c then some 0 else elim rest [ none ↦ none | some i ↦ some (suc i) ]

-- bytes.ReplaceAll(s, {c}, t) for one byte c.
unfoldable pub replace_byte : ℕ → Bytes → Bytes → Bytes
replace_byte c t [] = []
replace_byte c t (b ∷ s) = (if b == c then t else b ∷ []) ++ replace_byte c t s
