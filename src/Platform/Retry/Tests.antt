-- ===== src/Platform/Retry/Tests.antt =====
-- An operation that succeeds the third time.
use monitc.Prelude.{ℕ, Option, none, some, [], ◌∷◌, ◌≡◌, refl, if◌then◌else◌, leb}
use monitc.Platform.Retry.{
  StartupRetryOptions, attempts_of, initial_of, max_of, with_startup_retry, delay_of,
}
use monitc.Platform.Retry.Waits.{IsBounded, with_startup_retry-IsBounded}

abbrev third : ℕ → Option ℕ
third n = if leb 3 n then some n else none

abbrev defaults : StartupRetryOptions
defaults = record { attempts = none; initial_delay = none; max_delay = none }

waits_twice : with_startup_retry third defaults ≡ (some 3, 1000 ∷ 2000 ∷ [])
unfolding with_startup_retry delay_of
waits_twice = refl

with_startup_retry-IsBounded_example :
    IsBounded third
      (initial_of defaults)
      (max_of defaults)
      (attempts_of defaults)
      1
      (with_startup_retry third defaults)
with_startup_retry-IsBounded_example = with_startup_retry-IsBounded third defaults
