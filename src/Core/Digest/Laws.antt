-- ===== src/Core/Digest/Laws.antt =====
-- core/asset.go: what NewDigest builds and what Digest.Validate accepts.
use micawber.Go.Text.Cut.{cut-split, cut-append}
use micawber.Go.Text.{cut, contains_byte}
use micawber.Go.Fold.{to_lower_id, to_lower}
use micawber.Prelude.{
  inr, inl, Option-cases, leb, ◌++◌, ◌&&◌, false, ap, ltb, ℕ, ◌%◌, true, not, List, [], ◌∷◌, Bytes,
  ◌==◌, length, all, ◌≡◌, ◌≢◌, ◌↔◌, refl, sym, ◌∙◌, arith,
}
use micawber.Go.Utf8.{runes, all-runes}
use micawber.Core.Errors.{refuse-ok_iff, digest, Kind, ok, >>-ok_iff, refuse}
use mathlib.Core.Path.{ap₂}
use micawber.Core.Digest.{
  validate_parts, Digest, new_digest, hex, algorithm, validate, is_lower_hex, check_hex_runes,
  validate_hex,
}

-- A nonempty text of an even number of lower-case hex digits.
pub record IsHex (h : Bytes) : Type 0 where
  pub nonempty : h ≢ []
  pub even : length h % 2 ≡ 0
  pub digits : all is_lower_hex h ≡ true

check_hex_runes-ok_iff :
    (kind : Kind) (v : Bytes) (rs : List ℕ)
    → (check_hex_runes kind v rs ≡ ok tt) ↔ (all is_lower_hex rs ≡ true)
unfolding check_hex_runes
check_hex_runes-ok_iff kind v [] = ground arith
check_hex_runes-ok_iff kind v (r ∷ rs) = ground (arith, check_hex_runes-ok_iff kind v rs)

all-is_lower_hex : (h : Bytes) → all is_lower_hex (runes h) ≡ all is_lower_hex h
all-is_lower_hex = all-runes is_lower_hex (λ r k. ground arith)

pub validate_hex-ok_iff : (kind : Kind) (v h : Bytes) → (validate_hex kind v h ≡ ok tt) ↔ IsHex h
unfolding validate_hex
validate_hex-ok_iff kind v [] = (λ h. cc, λ h. absurd (h.nonempty refl))
validate_hex-ok_iff kind v (c ∷ h) =
    let digits = check_hex_runes-ok_iff kind v (runes (c ∷ h)) in
    let both =
      >>-ok_iff (refuse (not (length (c ∷ h) % 2 == 0)) _) (check_hex_runes kind v (runes (c ∷ h)))
        {b = tt} in
    (
      λ e.
          let (p, q) = both.0 e in
          record {
            nonempty = λ z. cc;
            even = ground arith;
            digits = sym (all-is_lower_hex (c ∷ h)) ∙ digits.0 q;
          },
      λ e. both.1 (ground (arith, e.even), digits.1 (all-is_lower_hex (c ∷ h) ∙ e.digits)),
    )

-- The digits of a hex text are ASCII without capitals, so strings.ToLower leaves them.
to_lower-IsHex :
    (unicode : Bytes → Bytes) (h : Bytes) → all is_lower_hex h ≡ true → to_lower unicode h ≡ h
to_lower-IsHex unicode h e = to_lower_id unicode h (go h e)
  where
    go :
        (h : Bytes)
        → all is_lower_hex h ≡ true
        → all (λ c. ltb c 0x80 && not (leb b'A' c && leb c b'Z')) h ≡ true
    go [] e = refl
    go (c ∷ h) e =
        let later : all is_lower_hex h ≡ true = ground arith in ground (arith, go h later)

validate-of_cut :
    (a h : Bytes)
    → contains_byte b':' a ≡ false
    → a ≢ []
    → IsHex h
    → validate (a ++ (b':' ∷ h)) ≡ ok tt
unfolding validate
validate-of_cut [] h colon ne valid = absurd (ne refl)
validate-of_cut (c ∷ a) h colon ne valid =
    rw (cut-append b':' (c ∷ a) h colon, validate) ((validate_hex-ok_iff digest _ h).1 valid)

validate-split :
    (d : Digest)
    → d ≢ []
    → validate d ≡ ok tt
    → (a : Bytes) × (h : Bytes) × (d ≡ a ++ (b':' ∷ h))
      × (contains_byte b':' a ≡ false)
      × (a ≢ [])
      × IsHex h
unfolding validate
validate-split [] ne v = absurd (ne refl)
validate-split (c ∷ d) ne v = elim (Option-cases (cut b':' (c ∷ d))) [
  | inl missing ↦ cc (rw (missing, validate_parts) at v)
  | inr (([], h), found) ↦ cc (rw (found, validate_parts) at v)
  | inr ((x ∷ a, h), found) ↦
      let (e, colon) = cut-split b':' (c ∷ d) found in
      (
        x ∷ a,
        h,
        e,
        colon,
        λ z. cc,
        (validate_hex-ok_iff digest (c ∷ d) h).0 (rw (found, validate_parts) at v),
      )
]

algorithm-append : (a h : Bytes) → contains_byte b':' a ≡ false → algorithm (a ++ (b':' ∷ h)) ≡ a
unfolding algorithm
algorithm-append a h colon = rw (cut-append b':' a h colon, algorithm)

hex-append : (a h : Bytes) → contains_byte b':' a ≡ false → hex (a ++ (b':' ∷ h)) ≡ h
unfolding hex
hex-append a h colon = rw (cut-append b':' a h colon, hex)

module _ (unicode : Bytes → Bytes) where
  new_digest-eq :
      (a h : Bytes) {d : Digest}
      → new_digest unicode a h ≡ ok d
      → (a ≢ [])
        × (contains_byte b':' a ≡ false)
        × IsHex (to_lower unicode h)
        × (d ≡ a ++ (b':' ∷ to_lower unicode h))
  unfolding new_digest
  new_digest-eq [] h e = cc
  new_digest-eq (c ∷ a) h e =
      let (colon, e₁) = (>>-ok_iff (refuse (contains_byte b':' (c ∷ a)) _) _).0 e in
      let (v, e₂) = (>>-ok_iff (validate_hex digest _ (to_lower unicode h)) _).0 e₁ in
      (
        λ z. cc,
        (refuse-ok_iff (contains_byte b':' (c ∷ a)) _).0 colon,
        (validate_hex-ok_iff digest _ (to_lower unicode h)).0 v,
        cc e₂,
      )

  -- A digest that NewDigest returns passes Validate, and Algorithm and Hex give back the
  -- algorithm and the lower-case hex text.
  pub new_digest-IsValid :
      (a h : Bytes) {d : Digest}
      → new_digest unicode a h ≡ ok d
      → (validate d ≡ ok tt) × (algorithm d ≡ a) × (hex d ≡ to_lower unicode h)
  new_digest-IsValid a h e =
      let (ne, colon, valid, eq) = new_digest-eq a h e in
      (
        ap validate eq ∙ validate-of_cut a (to_lower unicode h) colon ne valid,
        ap algorithm eq ∙ algorithm-append a (to_lower unicode h) colon,
        ap hex eq ∙ hex-append a (to_lower unicode h) colon,
      )

  new_digest-of :
      (a h : Bytes)
      → a ≢ []
      → contains_byte b':' a ≡ false
      → IsHex h
      → new_digest unicode a h ≡ ok (a ++ (b':' ∷ h))
  unfolding new_digest
  new_digest-of [] h ne colon valid = absurd (ne refl)
  new_digest-of (c ∷ a) h ne colon valid = rw (
    colon,
    to_lower-IsHex unicode h valid.digits,
    (validate_hex-ok_iff digest ((c ∷ a) ++ (b':' ∷ h)) h).1 valid,
  )

  -- A nonempty digest that passes Validate is what NewDigest makes of its two parts.
  pub new_digest-parts :
      (d : Digest) → d ≢ [] → validate d ≡ ok tt → new_digest unicode (algorithm d) (hex d) ≡ ok d
  new_digest-parts d ne v =
      let (a, h, e, colon, ne', valid) = validate-split d ne v in
      ap (λ z. new_digest unicode (algorithm z) (hex z)) e
      ∙ ap₂ (new_digest unicode) (algorithm-append a h colon) (hex-append a h colon)
      ∙ new_digest-of a h ne' colon valid
      ∙ ap ok (sym e)
