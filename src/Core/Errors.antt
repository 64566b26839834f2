-- ===== src/Core/Errors.antt =====
-- core/errors.go: the sentinels, ValidationError, and errors.Is on wrapped errors.
use micawber.Prelude.{
  List, [], ◌∷◌, All, ℕ, Bool, true, false, ◌||◌, ◌≡◌, ◌↔◌, refl, Bytes, String, if◌then◌else◌,
  Option,
}

-- ErrNotFound, ErrExists, ErrConflict, ErrInvalid, ErrUnsupported.
pub data Sentinel : Type 0 where
  not_found exists conflict invalid_value unsupported : Sentinel

pub sentinel_eq : Sentinel → Sentinel → Bool
sentinel_eq not_found not_found = true
sentinel_eq exists exists = true
sentinel_eq conflict conflict = true
sentinel_eq invalid_value invalid_value = true
sentinel_eq unsupported unsupported = true
sentinel_eq _ _ = false

-- The reasons that the validators give, one for each format string, with what it formats.
pub data Reason : Type 0 where
  is_empty : Reason
  not_utf8 : Reason
  over_limit : ℕ → ℕ → Reason
  control_character : ℕ → Reason
  backslash : Reason
  is_absolute : Reason
  trailing_slash : Reason
  empty_segment dot_segment dot_dot_segment : Reason
  long_segment : ℕ → Reason
  drive_prefix : Reason
  not_cleaned : Bytes → Reason
  git_segment : Bytes → Reason
  empty_algorithm algorithm_with_colon empty_hex odd_hex : Reason
  non_hex : ℕ → Reason
  not_algorithm_hex : Reason
  no_key no_path : Reason
  bad_size : Reason
  bad_content_type : Bytes → Reason
  empty_name empty_message no_at : Reason
  unknown_format fields_without_format raw_without_format empty_field_key : Reason
  never_closed over_byte_limit : Reason
  over_line_limit : ℕ → Reason
  nul_byte : ℕ → Reason
  not_well_formed : Reason
  not_well_formed_at : ℕ → Reason
  not_object not_string_key : Reason
  not_mapping not_string_keys : Reason
  at_block_line : Reason → ℕ → Reason
  nil_value cannot_encode : Reason
  malformed : String → Reason
  blank_segment : Reason
  dot_ending space_ending : Bytes → Reason
  forbidden_byte : Bytes → ℕ → Reason
  device_name : Bytes → Reason
  leading_dash : Reason

-- The `Kind` that a ValidationError names.
pub data Kind : Type 0 where
  content_path collection asset_key digest asset asset_ref author change content : Kind
  front_matter git_operand : Kind

-- ValidationError.
pub record ValidationError : Type 0 where
  pub kind : Kind
  pub value : Bytes
  pub reason : Reason

-- syscall.Errno, and the errors that localfs/root.go declares.
pub data Errno : Type 0 where
  enoent enotdir eisdir eexist enotempty : Errno
  other_errno : ℕ → Errno

pub data Cause : Type 0 where
  no_entry not_dir is_dir name_taken escapes not_regular : Cause

-- An `error`: a ValidationError, a sentinel, fmt.Errorf with one %w (its format and operand) or
-- with two, an error of other code, by its message, or git's *gitError: the arguments, the exit
-- status (none for ExitCode's -1) and what git said. Of the file system, os.PathError and
-- os.LinkError with what they wrap, an Errno, and an error of localfs.
pub data Error : Type 0 where
  validation : ValidationError → Error
  sentinel : Sentinel → Error
  wrapped : String → Bytes → Error → Error
  wrapped_both : String → Bytes → Error → Error → Error
  foreign : Bytes → Error
  git_error : List Bytes → Option ℕ → Bytes → Error
  path_error link_error : Error → Error
  errno : Errno → Error
  cause : Cause → Error

-- errors.Is(err, target) for a sentinel: a ValidationError unwraps to ErrInvalid.
unfoldable pub is : Error → Sentinel → Bool
unfolding sentinel_eq
is (validation e) t = sentinel_eq invalid_value t
is (sentinel s) t = sentinel_eq s t
is (wrapped f v e) t = is e t
is (wrapped_both f v e d) t = is e t || is d t
is (foreign m) t = false
is (git_error args code stderr) t = false
is (path_error e) t = is e t
is (link_error e) t = is e t
is (errno n) t = false
is (cause c) t = false

-- What a Go function with an `error` among its results returns.
pub data Result {ℓ} (Value : Type ℓ) : Type ℓ where
  ok : Value → Result Value
  err : Error → Result Value

infixl 5 ◌>>=◌
infixl 5 ◌>>◌
-- Go on with the value, or return the error.
abbrev pub ◌>>=◌ {ℓ κ} : {X : Type ℓ} {Y : Type κ} → Result X → (X → Result Y) → Result Y
ok x >>= next = next x
err reason >>= next = err reason

-- `if err := check; err != nil { return err }`
abbrev pub ◌>>◌ {ℓ} : {Y : Type ℓ} → Result (Unit {0}) → Result Y → Result Y
check >> later = check >>= λ _. later

-- invalidf: the reason stands for the formatted text.
abbrev pub invalidf : Kind → Bytes → Reason → Error
invalidf kind value reason = validation (record { kind = kind; value = value; reason = reason })

-- `if bad { return err }`
abbrev pub refuse : Bool → Error → Result (Unit {0})
refuse bad e = if bad then err e else ok tt

-- `if err := m; err != nil { return fmt.Errorf("f v: %w", err) }`
abbrev pub wrap {ℓ} : {A : Type ℓ} → String → Bytes → Result A → Result A
wrap f v (ok a) = ok a
wrap f v (err e) = err (wrapped f v e)

pub >>=-eq-ok {ℓ κ} :
    {X : Type ℓ} {Y : Type κ} (first : Result X) (next : X → Result Y) {y : Y}
    → first >>= next ≡ ok y
    → (x : X) × (first ≡ ok x) × (next x ≡ ok y)
>>=-eq-ok (ok x) next returns = (x, refl, returns)
>>=-eq-ok (err reason) next returns = cc

-- A sequence of checks passes exactly when each does.
pub >>-ok_iff {ℓ} :
    {B : Type ℓ} (m : Result (Unit {0})) (k : Result B) {b : B}
    → (m >> k ≡ ok b) ↔ ((m ≡ ok tt) × (k ≡ ok b))
>>-ok_iff (ok tt) k = (λ h. (refl, h), λ h. h.1)
>>-ok_iff (err e) k = (λ h. cc, λ h. cc)

pub refuse-ok_iff : (bad : Bool) (e : Error) → (refuse bad e ≡ ok tt) ↔ (bad ≡ false)
refuse-ok_iff true e = (λ h. cc, λ h. cc)
refuse-ok_iff false e = (λ h. refl, λ h. refl)

-- Checks made one after the other, with a return at the first error.
abbrev pub first_error : List (Result (Unit {0})) → Result (Unit {0})
first_error [] = ok tt
first_error (m ∷ ms) = m >> first_error ms

pub first_error-ok_iff :
    (ms : List (Result (Unit {0}))) → (first_error ms ≡ ok tt) ↔ All (λ m. m ≡ ok tt) ms
first_error-ok_iff [] = (λ h. tt, λ h. refl)
first_error-ok_iff (m ∷ ms) =
    let both = >>-ok_iff m (first_error ms) {b = tt} in
    let later = first_error-ok_iff ms in
    (λ h. ((both.0 h).0, later.0 (both.0 h).1), λ h. both.1 (h.0, later.1 h.1))

-- Every failure of `m` matches the sentinel.
abbrev pub FailsWith {ℓ} : {A : Type ℓ} → Sentinel → Result A → Type 0
FailsWith s (ok a) = Unit
FailsWith s (err e) = is e s ≡ true

pub FailsWith-bind {ℓ κ} :
    {A : Type ℓ} {B : Type κ} (s : Sentinel) (m : Result A) (f : A → Result B)
    → FailsWith s m
    → ((a : A) → FailsWith s (f a))
    → FailsWith s (m >>= f)
FailsWith-bind s (ok a) f h k = k a
FailsWith-bind s (err e) f h k = h

-- The same, with the equation that the value comes from.
pub FailsWith-bind_eq {ℓ κ} :
    {A : Type ℓ} {B : Type κ} (s : Sentinel) (m : Result A) (f : A → Result B)
    → FailsWith s m
    → ((a : A) → m ≡ ok a → FailsWith s (f a))
    → FailsWith s (m >>= f)
FailsWith-bind_eq s (ok a) f h k = k a refl
FailsWith-bind_eq s (err e) f h k = h

pub FailsWith-first_error :
    (s : Sentinel) (ms : List (Result (Unit {0})))
    → All (FailsWith s) ms
    → FailsWith s (first_error ms)
FailsWith-first_error s [] h = tt
FailsWith-first_error s (m ∷ ms) h =
    FailsWith-bind s m (λ _. first_error ms) h.0 (λ _. FailsWith-first_error s ms h.1)

pub FailsWith-refuse :
    (bad : Bool) (kind : Kind) (v : Bytes) (r : Reason)
    → FailsWith invalid_value (refuse bad (invalidf kind v r))
unfolding is
FailsWith-refuse true kind v r = refl
FailsWith-refuse false kind v r = tt

pub FailsWith-wrap {ℓ} :
    {A : Type ℓ} (s : Sentinel) (f : String) (v : Bytes) (m : Result A)
    → FailsWith s m
    → FailsWith s (wrap f v m)
unfolding is
FailsWith-wrap s f v (ok a) h = tt
FailsWith-wrap s f v (err e) h = h

pub wrap-ok {ℓ} :
    {A : Type ℓ} (f : String) (v : Bytes) (m : Result A) {a : A} → wrap f v m ≡ ok a → m ≡ ok a
wrap-ok f v (ok a) h = h
wrap-ok f v (err e) h = cc
