-- ===== src/Core/Program/Invariant.antt =====
-- Programs that keep a property of the world.
use micawber.Core.Errors.{Result, ok, err}
use micawber.Core.Program.{Program, on_result, or_fail, ◌>>=◌}

module _ {World : Type 0} (Kept : World → Type 0) where
  -- The program keeps the property.
  abbrev pub Keeps {ℓ} : {A : Type ℓ} → Program World A → Type 0
  Keeps m = (w : World) → Kept w → Kept (m w).0

  pub Keeps-on_result {ℓ κ} :
      {A : Type ℓ} {B : Type κ} (m : Program World A) (k : Result A → Program World B)
      → Keeps m
      → ((r : Result A) → Keeps (k r))
      → Keeps (on_result m k)
  Keeps-on_result m k hm hk w h = hk (m w).1 (m w).0 (hm w h)

  pub Keeps-or_fail {ℓ κ} :
      {A : Type ℓ} {B : Type κ} (k : A → Program World B)
      → ((a : A) → Keeps (k a))
      → (r : Result A) → Keeps (or_fail k r)
  Keeps-or_fail k hk (ok a) = hk a
  Keeps-or_fail k hk (err e) = λ w h. h

  pub Keeps-bind {ℓ κ} :
      {A : Type ℓ} {B : Type κ} (m : Program World A) (k : A → Program World B)
      → Keeps m
      → ((a : A) → Keeps (k a))
      → Keeps (m >>= k)
  Keeps-bind m k hm hk = Keeps-on_result m (or_fail k) hm (Keeps-or_fail k hk)
