-- ===== src/Core/Program.antt =====
-- Functions of the source that take a context: programs that run the operations of another system
-- one after the other, on a world that each may change.
pub mod Invariant
use micawber.Prelude.{refl, ap, ◌≡◌, Bytes, String}
use micawber.Core.Errors.{Error, wrap, Result, ok, err}

module _ (World : Type 0) where
  -- A function of the source that takes a context and may return an error.
  abbrev pub Program {ℓ} : Type ℓ → Type ℓ
  Program A = World → World × Result A

module _ {World : Type 0} where
  abbrev pub lift {ℓ} : {A : Type ℓ} → Result A → Program World A
  lift r w = (w, r)

  -- Go on with what a program returned, an error included.
  abbrev pub next_step {ℓ κ} :
      {A : Type ℓ} {B : Type κ} → (Result A → Program World B) → World × Result A → World × Result B
  next_step k (w, r) = k r w

  abbrev pub on_result {ℓ κ} :
      {A : Type ℓ} {B : Type κ} → Program World A → (Result A → Program World B) → Program World B
  on_result m k w = next_step k (m w)

  abbrev pub or_fail {ℓ κ} :
      {A : Type ℓ} {B : Type κ} → (A → Program World B) → Result A → Program World B
  or_fail k (ok a) = k a
  or_fail k (err e) = lift (err e)

infixl 5 ◌>>=◌
-- Go on with the value, or return the error.
abbrev pub ◌>>=◌ {ℓ κ} :
    {World : Type 0} {A : Type ℓ} {B : Type κ}
    → Program World A
    → (A → Program World B)
    → Program World B
m >>= k = on_result m (or_fail k)

-- `if err != nil { return fmt.Errorf("f v: %w", err) }`
abbrev pub wrapping {ℓ} :
    {World : Type 0} {A : Type ℓ} → String → Bytes → Program World A → Program World A
wrapping f v m = on_result m λ r. lift (wrap f v r)

infixl 5 ◌>>◌
abbrev pub ◌>>◌ {ℓ} :
    {World : Type 0} {B : Type ℓ} → Program World (Unit {0}) → Program World B → Program World B
m >> k = m >>= λ _. k

-- A program that goes on to return a value had the first one return a value.
pub >>=-ok {ℓ κ} :
    {World : Type 0} {A : Type ℓ} {B : Type κ} (m : Program World A) (k : A → Program World B)
    (w : World) {b : B}
    → ((m >>= k) w).1 ≡ ok b
    → (a : A) × ((m w).1 ≡ ok a) × ((k a (m w).0).1 ≡ ok b)
>>=-ok {World = World} {A = A} {B = B} m k w {b} h = go (m w) h
  where
    go :
        (out : World × Result A)
        → (next_step (or_fail k) out).1 ≡ ok b
        → (a : A) × (out.1 ≡ ok a) × ((k a out.0).1 ≡ ok b)
    go (later, ok a) h = (a, refl, h)
    go (later, err e) h = cc

pub >>=-eq {ℓ κ} :
    {World : Type 0} {A : Type ℓ} {B : Type κ} (m : Program World A) (k : A → Program World B)
    (w : World) {a : A}
    → (m w).1 ≡ ok a
    → (m >>= k) w ≡ k a (m w).0
>>=-eq m k w h = ap (λ r. or_fail k r (m w).0) h

pub >>=-err {ℓ κ} :
    {World : Type 0} {A : Type ℓ} {B : Type κ} (m : Program World A) (k : A → Program World B)
    (w : World) {seen : World} {e : Error}
    → m w ≡ (seen, err e)
    → (m >>= k) w ≡ (seen, err e)
>>=-err m k w h = ap (next_step (or_fail k)) h

pub >>=-went {ℓ κ} :
    {World : Type 0} {A : Type ℓ} {B : Type κ} (m : Program World A) (k : A → Program World B)
    (w : World) {later : World} {a : A}
    → m w ≡ (later, ok a)
    → (m >>= k) w ≡ k a later
>>=-went m k w h = ap (next_step (or_fail k)) h

-- Every step of a program that returns a value went through.
pub >>=-steps {ℓ κ} :
    {World : Type 0} {A : Type ℓ} {B : Type κ} (m : Program World A) (k : A → Program World B)
    (w : World) {last : World} {b : B}
    → (m >>= k) w ≡ (last, ok b)
    → (v : World) × (a : A) × (m w ≡ (v, ok a)) × (k a v ≡ (last, ok b))
>>=-steps {World = World} {A = A} {B = B} m k w {last} {b} h = go (m w) refl h
  where
    go :
        (out : World × Result A)
        → m w ≡ out
        → next_step (or_fail k) out ≡ (last, ok b)
        → (v : World) × (a : A) × (m w ≡ (v, ok a)) × (k a v ≡ (last, ok b))
    go (v, ok a) ran h = (v, a, ran, h)
    go (v, err e) ran h = cc (ap (λ o. o.1) h)
