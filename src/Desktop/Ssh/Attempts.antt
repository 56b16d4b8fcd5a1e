-- ===== src/Desktop/Ssh/Attempts.antt =====
use native.Mathlib.Nat.{two-pow-succ, one-le-pow}
-- The bound on reconnections, and what an intentional disconnect stops.
use monitc.Prelude.{
  Option-cases, ℕ, suc, ◌≤◌, ◌<◌, Bool, not, Option, none, some, List, [], ◌∷◌, arith, All, find,
  select, ◌==◌, Bool-cases, inl, inr,
}
use monitc.Desktop.Ssh.{
  Manager, Retry, Event, ask_connect, ask_disconnect, retry, step, run, new_manager, max_retries,
  base_retry_delay, max_retry_delay, backoff_delay, clear_timer,
}

pub record IsBounded (m : Manager) : Type 0 where
  pub attempts : (r : ℕ) → (m.entries r).attempt ≤ max_retries
  pub counts : (r : ℕ) → (m.entries r).retry_count ≤ max_retries
  pub timers : All (λ t. t.retry_count < max_retries) m.timers

All-select :
    (q : Retry → Type 0) (p : Retry → Bool) (ts : List Retry) → All q ts → All q (select p ts)
All-select q p [] h = tt
All-select q p (t ∷ ts) (h, hs) = ground (arith, All-select q p ts hs)

All-clear_timer :
    (q : Retry → Type 0) (o : Option ℕ) (ts : List Retry) → All q ts → All q (clear_timer o ts)
All-clear_timer q none ts h = h
All-clear_timer q (some handle) ts h = All-select q (λ t. not (t.handle == handle)) ts h

-- The timer that is found has a bounded count.
abbrev Small : Option Retry → Type 0
Small none = Unit
Small (some t) = t.retry_count < max_retries

find-Small :
    (p : Retry → Bool) (ts : List Retry)
    → All (λ t. t.retry_count < max_retries) ts
    → Small (find p ts)
find-Small p [] h = tt
find-Small p (u ∷ ts) (h, hs) = elim (Bool-cases (p u)) [
  | inl y ↦ rw y h
  | inr n ↦ rw n (find-Small p ts hs)
]

step-attempts :
    (e : Event) (m : Manager) → IsBounded m → (r : ℕ) → ((step e m).entries r).attempt ≤ max_retries
unfolding step
step-attempts (retry h) m b r =
    ground (arith, b.attempts r, find-Small (λ t. t.handle == h) m.timers b.timers)
step-attempts e m b r = ground (arith, b.attempts r)

step-counts :
    (e : Event) (m : Manager)
    → IsBounded m
    → (r : ℕ) → ((step e m).entries r).retry_count ≤ max_retries
unfolding step
step-counts (retry h) m b r =
    ground (arith, b.counts r, find-Small (λ t. t.handle == h) m.timers b.timers)
step-counts e m b r = ground (arith, b.counts r)

step-timers :
    (e : Event) (m : Manager)
    → IsBounded m
    → All (λ t. t.retry_count < max_retries) (step e m).timers
unfolding step
step-timers (retry h) m b = ground (
  arith,
  All-select (λ t. t.retry_count < max_retries) (λ t. not (t.handle == h)) m.timers b.timers,
)
step-timers ask_connect m b = elim (Option-cases m.connection) [
  | inl e ↦ ground arith
  | inr (ref, e) ↦ ground (
    arith,
    All-clear_timer (λ t. t.retry_count < max_retries) (m.entries ref).retry_timer m.timers
        b.timers,
  )
]
step-timers ask_disconnect m b = elim (Option-cases m.connection) [
  | inl e ↦ ground arith
  | inr (ref, e) ↦ ground (
    arith,
    All-clear_timer (λ t. t.retry_count < max_retries) (m.entries ref).retry_timer m.timers
        b.timers,
  )
]
step-timers e m b = ground arith

step-IsBounded : (e : Event) (m : Manager) → IsBounded m → IsBounded (step e m)
step-IsBounded e m b = record {
  attempts = step-attempts e m b;
  counts = step-counts e m b;
  timers = step-timers e m b;
}

run-IsBounded : (es : List Event) (m : Manager) → IsBounded m → IsBounded (run es m)
unfolding run
run-IsBounded [] m b = b
run-IsBounded (e ∷ es) m b = run-IsBounded es (step e m) (step-IsBounded e m b)

-- Whatever callers, timers and the clients do, no connection attempt is ever numbered above 12, and
-- no pending timer would make one.
pub run-IsBounded_new : (es : List Event) → IsBounded (run es new_manager)
run-IsBounded_new es =
    run-IsBounded es new_manager
      (record { attempts = λ r. omega arith; counts = λ r. omega arith; timers = tt })

-- With a jitter below the base delay, every delay before a reconnection is at most one minute, is at
-- least the base delay, and is no longer than the delay before the next one.
pub backoff_delay_bounds :
    (n j k : ℕ)
    → j < base_retry_delay
    → (backoff_delay j n ≤ max_retry_delay)
      × (base_retry_delay ≤ backoff_delay j n)
      × (backoff_delay j n ≤ backoff_delay k (suc n))
unfolding backoff_delay
backoff_delay_bounds n j k h = omega (arith, two-pow-succ n, one-le-pow n 2 (omega arith))
