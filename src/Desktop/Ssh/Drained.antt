-- ===== src/Desktop/Ssh/Drained.antt =====
-- What becomes of a job that waits when a connection is lost.
use monitc.Prelude.{ℕ, List, [], ◌∷◌, ◌++◌, ◌≡◌, refl, arith, any, ◌==◌, Bool, true, false, All}
use monitc.Desktop.Ssh.Pool.{
  Channels, Event, acquire, ends, drain, erase_job, step, run, drain_queue_with_error,
}

abbrev pub has : ℕ → List ℕ → Bool
has job js = any (λ j. j == job) js

pub record IsLost (job : ℕ) (c : Channels) : Type 0 where
  pub not_waiting : has job c.channel_queue ≡ false
  pub not_running : has job c.running ≡ false
  pub not_started : has job c.started ≡ false
  pub not_settled : has job c.settled ≡ false

abbrev pub asks_again : ℕ → Event → Bool
asks_again job (acquire j) = j == job
asks_again job _ = false

has-append :
    (job : ℕ) (xs : List ℕ) (j : ℕ)
    → has job xs ≡ false
    → (j == job) ≡ false
    → has job (xs ++ j ∷ []) ≡ false
has-append job [] j h e = ground arith
has-append job (x ∷ xs) j h e = ground (arith, has-append job xs j)

has-erase_job : (job j : ℕ) (xs : List ℕ) → has job xs ≡ false → has job (erase_job j xs) ≡ false
has-erase_job job j [] h = refl
has-erase_job job j (x ∷ xs) h = ground (arith, has-erase_job job j xs)

ended_other : (job j : ℕ) (xs : List ℕ) → has job xs ≡ false → has j xs ≡ true → (j == job) ≡ false
ended_other job j [] h e = ground arith
ended_other job j (x ∷ xs) h e = ground (arith, ended_other job j xs)

step-IsLost :
    (job : ℕ) (e : Event) (c : Channels)
    → asks_again job e ≡ false
    → IsLost job c
    → IsLost job (step e c)
unfolding step
step-IsLost job (acquire j) c n h = ground (arith, has-append job c.channel_queue j)
step-IsLost job (ends j) c n h =
    ground (arith, has-erase_job job j c.running, ended_other job j c.running)
step-IsLost job drain c n h = ground arith

run-IsLost :
    (job : ℕ) (es : List Event) (c : Channels)
    → All (λ e. asks_again job e ≡ false) es
    → IsLost job c
    → IsLost job (run es c)
unfolding run
run-IsLost job [] c n h = h
run-IsLost job (e ∷ es) c (n, ns) h = run-IsLost job es (step e c) ns (step-IsLost job e c n h)

-- A job that waits for a slot when the connection is lost, and is not asked for again, never starts
-- and its caller is never told an outcome, whatever happens to the connection afterwards.
pub drained_forever :
    (job : ℕ) (es : List Event) (c : Channels)
    → has job c.channel_queue ≡ true
    → has job c.running ≡ false
    → has job c.started ≡ false
    → has job c.settled ≡ false
    → All (λ e. asks_again job e ≡ false) es
    → IsLost job (run es (drain_queue_with_error c))
unfolding drain_queue_with_error
drained_forever job es c w r s t n =
    run-IsLost job es (drain_queue_with_error c) n
      (record { not_waiting = refl; not_running = r; not_started = s; not_settled = t })
