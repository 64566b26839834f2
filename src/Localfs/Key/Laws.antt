-- ===== src/Localfs/Key/Laws.antt =====
-- localfs/key.go: what checkKey accepts, segment by segment.
use micawber.Localfs.Key.Parting.{reserved-IsDevice}
use micawber.Go.Fold.{is_ascii}
use micawber.Localfs.Key.Devices.{is_reserved_name-IsDevice, IsDevice}
use micawber.Go.Text.{split, contains_byte, equal, has_suffix}
use micawber.Prelude.{
  ◌⊎◌, true, some, if◌then◌else◌, Option, codes, Bool, inr, inl, refl, Bool-cases, arith, All,
  false, ◌↔◌, none, [], ◌==◌, List, ◌≡◌, all, ◌∷◌, Bytes, ℕ,
}
use micawber.Core.AssetKey.{AssetKey}
use micawber.Core.Errors.{
  forbidden_byte, device_name, space_ending, dot_ending, blank_segment, asset_key, Error, invalidf,
  >>-ok_iff, Result, ok, err,
}
use micawber.Localfs.Key.{
  first_forbidden, forbidden_chars, is_reserved_name, check_key_segment, check_key_segments,
  check_key,
}

-- The last byte, if there is one, is not c.
abbrev pub EndsOtherwise : ℕ → Bytes → Type 0
EndsOtherwise c [] = Unit
EndsOtherwise c (b ∷ []) = (b == c) ≡ false
EndsOtherwise c (b ∷ d ∷ s) = EndsOtherwise c (d ∷ s)

-- A segment that means the same on every platform.
pub record IsPortable (unicode : Bytes → Bytes) (seg : Bytes) : Type 0 where
  pub visible : all (λ c. c == b' ') seg ≡ false
  pub no_dot : EndsOtherwise b'.' seg
  pub no_space : EndsOtherwise b' ' seg
  pub allowed : All (λ c. contains_byte c forbidden_chars ≡ false) seg
  pub no_device : ¬ IsDevice seg
  pub beyond_ascii : (is_ascii seg ≡ true) ⊎ (is_reserved_name unicode seg ≡ false)

has_suffix-EndsOtherwise : (c : ℕ) (s : Bytes) → (has_suffix s (c ∷ []) ≡ false) ↔ EndsOtherwise c s
unfolding has_suffix equal
has_suffix-EndsOtherwise c [] = (λ h. tt, λ h. refl)
has_suffix-EndsOtherwise c (b ∷ []) = (λ h. ground arith, λ h. ground arith)
has_suffix-EndsOtherwise c (b ∷ d ∷ s) =
    let later = has_suffix-EndsOtherwise c (d ∷ s) in
    (λ h. later.0 (ground arith), λ h. ground (arith, later.1 h))

first_forbidden-none_iff :
    (s : Bytes) → (first_forbidden s ≡ none) ↔ All (λ c. contains_byte c forbidden_chars ≡ false) s
unfolding first_forbidden
first_forbidden-none_iff [] = (λ h. tt, λ h. refl)
first_forbidden-none_iff (c ∷ s) =
    let later = first_forbidden-none_iff s in
    elim (Bool-cases (contains_byte c forbidden_chars)) [
      | inl bad ↦ (λ h. cc (rw (bad, first_forbidden) at h), λ h. cc)
      | inr fine ↦ (
        λ h. (fine, later.0 (rw (fine, first_forbidden) at h)),
        λ h. rw (fine, first_forbidden) (later.1 h.1),
      )
    ]

-- Five refusals in a row, the fourth one's reason found by a search.
refusals-ok_iff :
    (a b c : Bool) (found : Option ℕ) (d : Bool) (e₁ e₂ e₃ e₅ : Error) (e₄ : ℕ → Error)
    → ((if a
          then err e₁
          else if b
          then err e₂
          else if c
          then err e₃
          else elim found as (λ _. Result (Unit {0})) [
            | some i ↦ err (e₄ i)
            | none ↦ if d then err e₅ else ok tt
          ])
        ≡ ok tt)
      ↔ ((a ≡ false) × (b ≡ false) × (c ≡ false) × (found ≡ none) × (d ≡ false))
refusals-ok_iff true b c found d e₁ e₂ e₃ e₅ e₄ = (λ h. cc, λ (p, q, r, s, t). cc)
refusals-ok_iff false true c found d e₁ e₂ e₃ e₅ e₄ = (λ h. cc, λ (p, q, r, s, t). cc)
refusals-ok_iff false false true found d e₁ e₂ e₃ e₅ e₄ = (λ h. cc, λ (p, q, r, s, t). cc)
refusals-ok_iff false false false (some i) d e₁ e₂ e₃ e₅ e₄ = (λ h. cc, λ (p, q, r, s, t). cc)
refusals-ok_iff false false false none true e₁ e₂ e₃ e₅ e₄ = (λ h. cc, λ (p, q, r, s, t). cc)
refusals-ok_iff false false false none false e₁ e₂ e₃ e₅ e₄ =
    (λ h. (refl, refl, refl, refl, refl), λ h. refl)

unreserved :
    (unicode : Bytes → Bytes) (seg : Bytes)
    → ¬ IsDevice seg
    → (is_ascii seg ≡ true) ⊎ (is_reserved_name unicode seg ≡ false)
    → is_reserved_name unicode seg ≡ false
unreserved unicode seg none_of (inr told) = told
unreserved unicode seg none_of (inl ascii) = elim (Bool-cases (is_reserved_name unicode seg)) [
  | inl told ↦ absurd (none_of (reserved-IsDevice unicode seg ascii told))
  | inr free ↦ free
]

check_key_segment-ok_iff :
    (unicode : Bytes → Bytes) (s seg : Bytes)
    → (check_key_segment unicode s seg ≡ ok tt) ↔ IsPortable unicode seg
unfolding check_key_segment
check_key_segment-ok_iff unicode s seg =
    let each =
      refusals-ok_iff (all (λ c. c == b' ') seg) (has_suffix seg (codes "."))
        (has_suffix seg (codes " ")) (first_forbidden seg) (is_reserved_name unicode seg)
        (invalidf asset_key s blank_segment) (invalidf asset_key s (dot_ending seg))
        (invalidf asset_key s (space_ending seg)) (invalidf asset_key s (device_name seg))
        (λ c. invalidf asset_key s (forbidden_byte seg c)) in
    (
      λ h.
          let (visible, dot, space, allowed, device) = each.0 h in
          record {
            visible = visible;
            no_dot = (has_suffix-EndsOtherwise b'.' seg).0 dot;
            no_space = (has_suffix-EndsOtherwise b' ' seg).0 space;
            allowed = (first_forbidden-none_iff seg).0 allowed;
            no_device = λ d. cc (is_reserved_name-IsDevice unicode seg d);
            beyond_ascii = inr device;
          },
      λ v. each.1 (
        v.visible,
        (has_suffix-EndsOtherwise b'.' seg).1 v.no_dot,
        (has_suffix-EndsOtherwise b' ' seg).1 v.no_space,
        (first_forbidden-none_iff seg).1 v.allowed,
        unreserved unicode seg v.no_device v.beyond_ascii,
      ),
    )

check_key_segments-ok_iff :
    (unicode : Bytes → Bytes) (s : Bytes) (xs : List Bytes)
    → (check_key_segments unicode s xs ≡ ok tt) ↔ All (IsPortable unicode) xs
unfolding check_key_segments
check_key_segments-ok_iff unicode s [] = (λ h. tt, λ h. refl)
check_key_segments-ok_iff unicode s (x ∷ xs) =
    let both =
      >>-ok_iff (check_key_segment unicode s x) (check_key_segments unicode s xs) {b = tt} in
    let here = check_key_segment-ok_iff unicode s x in
    let later = check_key_segments-ok_iff unicode s xs in
    (λ h. (here.0 (both.0 h).0, later.0 (both.0 h).1), λ h. both.1 (here.1 h.0, later.1 h.1))

-- checkKey accepts a key exactly when every segment of it is portable: not made of spaces only, not
-- ending in a dot or a space, free of the characters < > : " | ? *, and no name of a Windows device,
-- in any case of its letters, be there spaces behind it and then a dot or a colon and more. The
-- devices are CON, PRN, AUX, NUL, CONIN$, CONOUT$ and COM and LPT with a digit from 1 to 9 or a
-- superscript 1, 2 or 3. Of a segment that is not ASCII, isReservedName has to agree besides.
pub check_key-ok_iff :
    (unicode : Bytes → Bytes) (key : AssetKey)
    → (check_key unicode key ≡ ok tt) ↔ All (IsPortable unicode) (split b'/' key.k)
unfolding check_key
check_key-ok_iff unicode key = check_key_segments-ok_iff unicode key.k (split b'/' key.k)
