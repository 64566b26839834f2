-- ===== src/Localfs/Key/Spellings.antt =====
-- localfs/key.go: lists of names, and the spellings of a name in either case.
use micawber.Go.Fold.{upper_byte}
use micawber.Go.Text.{equal, equal_iff}
use micawber.Localfs.Key.Devices.{IsAmong, IsSpelt, spellings}
use micawber.Localfs.Key.{is_one_of}
use micawber.Prelude.{
  true, refl, sym, arith, ◌&&◌, [], subst, Bool-cases, leb, ap, inr, ◌+◌, inl, ◌⊎◌, ◌∷◌, ◌++◌, map,
  ◌≡◌, List, ℕ, Bytes,
}

pub IsAmong-left : (s : Bytes) (xs ys : List Bytes) → IsAmong s xs → IsAmong s (xs ++ ys)
IsAmong-left s [] ys none_of = absurd none_of
IsAmong-left s (x ∷ xs) ys (inl same) = inl same
IsAmong-left s (x ∷ xs) ys (inr later) = inr (IsAmong-left s xs ys later)

pub IsAmong-right : (s : Bytes) (xs ys : List Bytes) → IsAmong s ys → IsAmong s (xs ++ ys)
IsAmong-right s [] ys h = h
IsAmong-right s (x ∷ xs) ys h = inr (IsAmong-right s xs ys h)

pub IsAmong-map :
    (f : Bytes → Bytes) (s : Bytes) (xs : List Bytes) → IsAmong s xs → IsAmong (f s) (map f xs)
IsAmong-map f s [] none_of = absurd none_of
IsAmong-map f s (x ∷ xs) (inl same) = inl (ap f same)
IsAmong-map f s (x ∷ xs) (inr later) = inr (IsAmong-map f s xs later)

pub IsAmong-one_of : (s : Bytes) (xs : List Bytes) → is_one_of s xs ≡ true → IsAmong s xs
IsAmong-one_of s [] h = cc
IsAmong-one_of s (x ∷ xs) h = elim (Bool-cases (equal x s)) [
  | inl same ↦ inl (sym ((equal_iff x s).0 same))
  | inr other ↦ inr (IsAmong-one_of s xs (rw other at h))
]

-- A byte is its capital, or 32 behind a capital letter.
upper_byte-cases :
    (c : ℕ)
    → (c ≡ upper_byte c)
      ⊎ (((leb b'A' (upper_byte c) && leb (upper_byte c) b'Z') ≡ true) × (c ≡ upper_byte c + 32))
unfolding upper_byte
upper_byte-cases c = elim (Bool-cases (leb b'a' c && leb c b'z')) [
  | inl small ↦ inr (ground arith)
  | inr other ↦ inl (ground arith)
]

-- Every text is a spelling of its capitals.
IsAmong-spellings : (s : Bytes) → IsAmong s (spellings (map upper_byte s))
IsAmong-spellings [] = inl refl
IsAmong-spellings (c ∷ s) =
    let rest = spellings (map upper_byte s) in
    let u = upper_byte c in
    let later = IsAmong-spellings s in
    elim (Bool-cases (leb b'A' u && leb u b'Z')) [
      | inl letter ↦ elim (upper_byte-cases c) [
        | inl same ↦
            rw (letter, spellings)
              (IsAmong-left (c ∷ s) (map (λ t. u ∷ t) rest) (map (λ t. (u + 32) ∷ t) rest) (
                subst (λ x. IsAmong (x ∷ s) (map (λ t. u ∷ t) rest)) (sym same)
                  (IsAmong-map (λ t. u ∷ t) s rest later)))
        | inr (cap_is, low) ↦
            rw (letter, spellings)
              (IsAmong-right (c ∷ s) (map (λ t. u ∷ t) rest) (map (λ t. (u + 32) ∷ t) rest) (
                subst (λ x. IsAmong (x ∷ s) (map (λ t. (u + 32) ∷ t) rest)) (sym low)
                  (IsAmong-map (λ t. (u + 32) ∷ t) s rest later)))
      ]
      | inr other ↦ elim (upper_byte-cases c) [
        | inl same ↦
            rw (other, spellings)
              (subst (λ x. IsAmong (x ∷ s) (map (λ t. u ∷ t) rest)) (sym same)
                (IsAmong-map (λ t. u ∷ t) s rest later))
        | inr (cap_is, low) ↦ cc
      ]
    ]

pub IsSpelt-capitals :
    (s : Bytes) (names : List Bytes) → IsAmong (map upper_byte s) names → IsSpelt s names
IsSpelt-capitals s [] none_of = absurd none_of
IsSpelt-capitals s (n ∷ names) (inl same) =
    inl (subst (λ x. IsAmong s (spellings x)) same (IsAmong-spellings s))
IsSpelt-capitals s (n ∷ names) (inr later) = inr (IsSpelt-capitals s names later)
