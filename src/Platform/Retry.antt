-- ===== src/Platform/Retry.antt =====
-- The retries at the start of the services, platform/apps/api/src/lib/startup-retry.ts. The operation
-- is the list of its results, by the number of the attempt; times are milliseconds.
pub mod Waits
mod Tests
use monitc.Prelude.{ℕ, zero, suc, ◌*◌, ◌^◌, ◌-◌, ◌+◌, min, max, Option, none, some, List, [], ◌∷◌}

pub record StartupRetryOptions : Type 0 where
  pub attempts : Option ℕ
  pub initial_delay : Option ℕ
  pub max_delay : Option ℕ

-- `value ?? other`.
abbrev pub or_else : Option ℕ → ℕ → ℕ
or_else none other = other
or_else (some n) other = n

unfoldable pub attempts_of : StartupRetryOptions → ℕ
attempts_of o = max 1 (or_else o.attempts 12)

unfoldable pub initial_of : StartupRetryOptions → ℕ
initial_of o = max 100 (or_else o.initial_delay 1000)

unfoldable pub max_of : StartupRetryOptions → ℕ
unfolding initial_of
max_of o = max (initial_of o) (or_else o.max_delay 10000)

unfoldable pub delay_of : ℕ → ℕ → ℕ → ℕ
delay_of initial limit attempt = min limit (initial * 2 ^ (attempt - 1))

module _ {ℓ} {A : Type ℓ} (operation : ℕ → Option A) (initial limit : ℕ) where
  -- A result at once, or a wait and the rest of the loop.
  abbrev pub after_attempt : Option A → ℕ → Option A × List ℕ → Option A × List ℕ
  after_attempt (some a) delay rest = (some a, [])
  after_attempt none delay (result, waits) = (result, delay ∷ waits)

  -- The loop from an attempt on, with so many attempts after it; none is the error of the last one.
  unfoldable pub retry_from : ℕ → ℕ → Option A × List ℕ
  retry_from zero attempt = (operation attempt, [])
  retry_from (suc left) attempt =
      after_attempt (operation attempt) (delay_of initial limit attempt)
        (retry_from left (suc attempt))

unfoldable pub with_startup_retry {ℓ} :
    {A : Type ℓ} → (ℕ → Option A) → StartupRetryOptions → Option A × List ℕ
unfolding retry_from attempts_of initial_of max_of
with_startup_retry operation o =
    retry_from operation (initial_of o) (max_of o) (attempts_of o - 1) 1
