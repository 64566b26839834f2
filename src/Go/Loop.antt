-- ===== src/Go/Loop.antt =====
-- A `for` loop whose body either leaves the loop with a result or goes on with a new state.
use micawber.Prelude.{refl, arith, some, ◌<◌, inl, inr, none, ◌≡◌, Option, ◌⊎◌, ℕ, zero, suc}

module _ {ℓ κ} {State : Type ℓ} {Out : Type κ} (step : State → Out ⊎ State) where
  -- At most the given number of turns; `none` when they do not suffice.
  unfoldable pub loop : ℕ → State → Option Out
  loop zero state = none
  loop (suc n) state = elim (step state) [ inl out ↦ some out | inr later ↦ loop n later ]

  -- With a measure that every turn makes smaller, more turns than the measure suffice, and what
  -- each turn keeps holds where the loop is left.
  pub loop_returns {μ ν} :
      (measure : State → ℕ) (Keeps : State → Type μ) (Ends : Out → Type ν)
      → ((state later : State) → step state ≡ inr later → measure later < measure state)
      → ((state later : State) → Keeps state → step state ≡ inr later → Keeps later)
      → ((state : State) (out : Out) → Keeps state → step state ≡ inl out → Ends out)
      → (n : ℕ) (state : State) → measure state < n
      → Keeps state
      → (out : Out) × (loop n state ≡ some out) × Ends out
  unfolding loop
  loop_returns measure Keeps Ends shrinks keeps ends zero state h k = absurd (omega arith)
  loop_returns measure Keeps Ends shrinks keeps ends (suc n) state h k =
      go (λ later. loop_returns measure Keeps Ends shrinks keeps ends n later) (step state) refl
    where
      go :
          ((later : State)
            → measure later < n
            → Keeps later
            → (out : Out) × (loop n later ≡ some out) × Ends out)
          → (r : Out ⊎ State) → step state ≡ r
          → (out : Out) × ((elim r [ inl o ↦ some o | inr later ↦ loop n later ]) ≡ some out)
            × Ends out
      go again (inl o) e = (o, refl, ends state o k e)
      go again (inr later) e =
          again later (omega (arith, h, shrinks state later e)) (keeps state later k e)
