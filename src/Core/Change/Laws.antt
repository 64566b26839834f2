-- ===== src/Core/Change/Laws.antt =====
-- What Author.Validate and Change.Validate accept, byte by byte.
use micawber.Go.Utf8.{runes, any-runes}
use micawber.Go.Text.{contains_byte}
use micawber.Core.RelPath.{is_control}
use micawber.Core.Errors.{
  change, err, refuse-ok_iff, author, wrap, refuse, Result, >>-ok_iff, ok, Kind,
}
use micawber.Prelude.{
  codes, refl, ap, ◌∙◌, sym, inr, inl, some, Bool-cases, ◌≢◌, Option, ◌∷◌, arith, ◌&&◌, true,
  is_nil, [], ◌↔◌, not, false, any, none, ℕ, All, Bool, ◌≡◌, Bytes,
}
use micawber.Core.Change.{
  first_control, refuse_control, is_blank, Author, Change, validate, validate_author, control_rune,
}

-- No control byte but those allowed.
abbrev pub Plain : Bytes → Bytes → Type 0
Plain allow s = All (λ b. is_control b ≡ true → contains_byte b allow ≡ true) s

abbrev is_refused : Bytes → ℕ → Bool
is_refused allow r = is_control r && not (contains_byte r allow)

first_control-none_iff :
    (rs allow : Bytes) → (first_control rs allow ≡ none) ↔ (any (is_refused allow) rs ≡ false)
unfolding first_control
first_control-none_iff [] allow = ground arith
first_control-none_iff (r ∷ rs) allow = ground (arith, first_control-none_iff rs allow)

any-Plain_iff : (allow s : Bytes) → (any (is_refused allow) s ≡ false) ↔ Plain allow s
any-Plain_iff allow [] = (λ h. tt, λ h. refl)
any-Plain_iff allow (b ∷ s) =
    let later = any-Plain_iff allow s in
    (
      λ h. (λ c. ground arith, later.0 (ground arith)),
      λ h.
          let e = later.1 h.1 in
          elim (Bool-cases (is_control b)) [ inl c ↦ rw (c, h.0 c, e) | inr c ↦ rw (c, e) ],
    )

refuse_control-ok_iff :
    (kind : Kind) (s allow : Bytes)
    → (refuse_control kind s (control_rune s allow) ≡ ok tt) ↔ Plain allow s
unfolding control_rune refuse_control
refuse_control-ok_iff kind s allow =
    let same = any-runes (is_refused allow) (λ r h. ground arith) s in
    let found = first_control-none_iff (runes s) allow in
    let bytes = any-Plain_iff allow s in
    (
      λ h. bytes.0 (sym same ∙ found.0 (passed (control_rune s allow) h)),
      λ h. ap (refuse_control kind s) (found.1 (same ∙ bytes.1 h)) ∙ refl,
    )
  where
    passed : (o : Option ℕ) → refuse_control kind s o ≡ ok tt → o ≡ none
    passed none h = refl
    passed (some r) h = cc

-- An author that Validate accepts.
pub record IsAuthor (a : Author) : Type 0 where
  pub named : is_blank a.name ≡ false
  pub plain_name : Plain [] a.name
  pub plain_email : Plain [] a.email
  pub addressed : a.email ≢ [] → contains_byte b'@' a.email ≡ true

author_checks : (b : Bool) (s : Bytes) → ((not (is_nil s) && not b) ≡ false) ↔ (s ≢ [] → b ≡ true)
author_checks b [] = (λ h ne. absurd (ne refl), λ h. refl)
author_checks true (c ∷ s) = (λ h ne. refl, λ h. refl)
author_checks false (c ∷ s) = (λ h. cc, λ h. cc (h (λ e. cc)))

pub validate_author-ok_iff : (a : Author) → (validate_author a ≡ ok tt) ↔ IsAuthor a
unfolding validate_author
validate_author-ok_iff a = (
  λ h.
      let (named, h₁) = (>>-ok_iff (refuse (is_blank a.name) _) _).0 h in
      let (name, h₂) = (>>-ok_iff (refuse_control author a.name _) _).0 h₁ in
      let (email, h₃) = (>>-ok_iff (refuse_control author a.email _) _).0 h₂ in
      record {
        named = (refuse-ok_iff (is_blank a.name) _).0 named;
        plain_name = (refuse_control-ok_iff author a.name []).0 name;
        plain_email = (refuse_control-ok_iff author a.email []).0 email;
        addressed =
            (author_checks (contains_byte b'@' a.email) a.email).0
              ((refuse-ok_iff (not (is_nil a.email) && not (contains_byte b'@' a.email)) _).0 h₃);
      },
  λ v. rw (
    v.named,
    (refuse_control-ok_iff author a.name []).1 v.plain_name,
    (refuse_control-ok_iff author a.email []).1 v.plain_email,
    (author_checks (contains_byte b'@' a.email) a.email).1 v.addressed,
  ),
)

-- The control bytes that a message may hold: tab, line feed and carriage return.
abbrev pub layout_bytes : Bytes
layout_bytes = b'\t' ∷ b'\n' ∷ b'\r' ∷ []

pub record IsChange (ch : Change) : Type 0 where
  pub spoken : is_blank ch.message ≡ false
  pub plain_message : Plain layout_bytes ch.message
  pub author : IsAuthor ch.author

-- Change.Validate accepts exactly the changes whose message and author name are more than white
-- space, whose message holds no control byte but tab, line feed and carriage return, whose author
-- name and address hold none at all, and whose address is empty or holds an "@".
pub validate_change-ok_iff : (ch : Change) → (validate ch ≡ ok tt) ↔ IsChange ch
unfolding validate
validate_change-ok_iff ch = (
  λ h.
      let (spoken, h₁) = (>>-ok_iff (refuse (is_blank ch.message) _) _).0 h in
      let (message, h₂) = (>>-ok_iff (refuse_control change ch.message _) _).0 h₁ in
      record {
        spoken = (refuse-ok_iff (is_blank ch.message) _).0 spoken;
        plain_message = (refuse_control-ok_iff change ch.message layout_bytes).0 message;
        author = (validate_author-ok_iff ch.author).0 (unwrap (validate_author ch.author) h₂);
      },
  λ v. rw (
    v.spoken,
    (refuse_control-ok_iff change ch.message layout_bytes).1 v.plain_message,
    (validate_author-ok_iff ch.author).1 v.author,
  ),
)
  where
    unwrap : (m : Result (Unit {0})) → wrap "change: %w" (codes "") m ≡ ok tt → m ≡ ok tt
    unwrap (ok tt) h = refl
    unwrap (err e) h = cc
