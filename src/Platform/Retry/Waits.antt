-- ===== src/Platform/Retry/Waits.antt =====
-- How often an operation is tried and how long the program waits.
use native.Mathlib.Nat.{one-le-pow}
use monitc.Prelude.{
  ℕ, zero, suc, ◌-◌, ◌+◌, ◌≤◌, Option, none, some, List, ◌≡◌, refl, arith, All, length,
  Option-cases, inl, inr,
}
use monitc.Platform.Retry.{
  StartupRetryOptions, attempts_of, initial_of, max_of, delay_of, retry_from, with_startup_retry,
}

abbrev pub or_later {ℓ} : {A : Type ℓ} → Option A → Option A → Option A
or_later (some a) later = some a
or_later none later = later

-- One attempt, and those after it where it has no result.
abbrev pub or_more {ℓ} : {A : Type ℓ} → Option A → ℕ → ℕ
or_more (some a) later = 1
or_more none later = later + 1

-- A wait is within the bounds.
abbrev pub IsWait : ℕ → ℕ → ℕ → Type 0
IsWait initial limit d = (initial ≤ d) × (d ≤ limit)

delay_of-IsWait :
    (initial limit attempt : ℕ)
    → initial ≤ limit
    → IsWait initial limit (delay_of initial limit attempt)
unfolding delay_of
delay_of-IsWait initial limit attempt h = grind (arith, one-le-pow (attempt - 1) 2 (omega arith))

max_of-initial_of : (o : StartupRetryOptions) → initial_of o ≤ max_of o
unfolding max_of
max_of-initial_of o = omega arith

attempts_of-pos : (o : StartupRetryOptions) → 1 ≤ attempts_of o
unfolding attempts_of
attempts_of-pos o = omega arith

module _ {ℓ} {A : Type ℓ} (operation : ℕ → Option A) where
  -- The first result of some attempts from one on.
  abbrev pub first_result : ℕ → ℕ → Option A
  first_result zero attempt = none
  first_result (suc n) attempt = or_later (operation attempt) (first_result n (suc attempt))

  -- How many of some attempts from one on are made: those up to the first result, or all.
  abbrev pub attempts_made : ℕ → ℕ → ℕ
  attempts_made zero attempt = 0
  attempts_made (suc n) attempt = or_more (operation attempt) (attempts_made n (suc attempt))

  -- The result, and one wait within the bounds between each two attempts.
  abbrev pub IsBounded : ℕ → ℕ → ℕ → ℕ → Option A × List ℕ → Type ℓ
  IsBounded initial limit n attempt r =
      (r.0 ≡ first_result n attempt)
      × (All (IsWait initial limit) r.1)
      × (length r.1 + 1 ≡ attempts_made n attempt)
      × (attempts_made n attempt ≤ n)

  retry_from-IsBounded :
      (initial limit left attempt : ℕ)
      → initial ≤ limit
      → IsBounded initial limit (suc left) attempt (retry_from operation initial limit left attempt)
  unfolding retry_from
  retry_from-IsBounded initial limit zero attempt h = elim (Option-cases (operation attempt)) [
    | inl e ↦ rw e (refl, tt, refl, omega arith)
    | inr (a, e) ↦ rw e (refl, tt, refl, omega arith)
  ]
  retry_from-IsBounded initial limit (suc left) attempt h =
      let ih = retry_from-IsBounded initial limit left (suc attempt) h in
      elim (Option-cases (operation attempt)) [
        | inl e ↦ rw e (
          ih.0,
          (delay_of-IsWait initial limit attempt h, ih.1),
          omega (arith, ih.2),
          omega (arith, ih.3),
        )
        | inr (a, e) ↦ rw e (refl, tt, refl, omega arith)
      ]

  retry_all :
      (initial limit n : ℕ)
      → initial ≤ limit
      → 1 ≤ n
      → IsBounded initial limit n 1 (retry_from operation initial limit (n - 1) 1)
  retry_all initial limit zero h k = let bad : ⊥ = omega arith in elim bad [ ]
  retry_all initial limit (suc n) h k =
      let e : suc n - 1 ≡ n = omega arith in rw e (retry_from-IsBounded initial limit n 1 h)

  -- The operation is tried until it gives a result, up to the number of attempts: the result is that of
  -- the first attempt that has one, or there is none. There is exactly one wait between two attempts and
  -- none after the last one, and each is from the initial to the maximal delay.
  pub with_startup_retry-IsBounded :
      (o : StartupRetryOptions)
      → IsBounded (initial_of o) (max_of o) (attempts_of o) 1 (with_startup_retry operation o)
  unfolding with_startup_retry
  with_startup_retry-IsBounded o =
      retry_all (initial_of o) (max_of o) (attempts_of o) (max_of-initial_of o) (attempts_of-pos o)
