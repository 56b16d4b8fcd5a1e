-- ===== src/Desktop/Ssh/Slots.antt =====
-- The bound on the channels of a connection, and the order in which they are given out.
use monitc.Prelude.{
  ltb, sym, ℕ, ◌+◌, ◌-◌, ◌≤◌, List, [], ◌∷◌, ◌++◌, ◌≡◌, ◌⊎◌, inl, inr, refl, arith, length, any,
  ◌==◌, true, All, Bool-cases,
}
use mathlib.Core.List.{reverse, reverse-cons, append_assoc, append-nil}
use monitc.Desktop.Ssh.Pool.{
  acquire_channel, finish, Channels, no_channels, max_channels, Event, acquire, ends, drain,
  execute, shift, erase_job, step, run,
}

pub record IsSound (c : Channels) : Type 0 where
  pub bounded : c.active_channels ≤ max_channels
  pub counted : c.active_channels ≡ length c.running
  -- No job waits while a slot is free.
  pub busy : (c.channel_queue ≡ []) ⊎ (c.active_channels ≡ max_channels)

length-erase_job :
    (job : ℕ) (js : List ℕ)
    → any (λ j. j == job) js ≡ true
    → length js ≡ length (erase_job job js) + 1
length-erase_job job [] h = ground arith
length-erase_job job (j ∷ js) h = ground (arith, length-erase_job job js)

step-IsSound : (e : Event) (c : Channels) → IsSound c → IsSound (step e c)
unfolding step
step-IsSound (acquire job) c h = ground arith
step-IsSound (ends job) c h = ground (arith, length-erase_job job c.running)
step-IsSound drain c h = ground arith

run-IsSound : (es : List Event) (c : Channels) → IsSound c → IsSound (run es c)
unfolding run
run-IsSound [] c h = h
run-IsSound (e ∷ es) c h = run-IsSound es (step e c) (step-IsSound e c h)

-- From a new connection, whatever jobs are asked for through `acquireChannel`, end and are drained from
-- the queue by errors, at most six of them hold a slot, the counter is the number of jobs that are
-- running, and no job waits while a slot is free. The channels of streams and of the health check take
-- no slot and are not counted.
pub run-IsSound_new : (es : List Event) → IsSound (run es no_channels)
run-IsSound_new es =
    run-IsSound es no_channels (record { bounded = omega arith; counted = refl; busy = inl refl })

-- The jobs that were asked for, oldest first.
abbrev pub asked : List Event → List ℕ
asked [] = []
asked (acquire job ∷ es) = job ∷ asked es
asked (_ ∷ es) = asked es

abbrev pub IsCalm : Event → Type 0
IsCalm drain = ⊥
IsCalm _ = Unit

abbrev pub given_order : Channels → List ℕ
given_order c = reverse c.started ++ c.channel_queue

shift-given_order :
    (q started : List ℕ) (c : Channels)
    → c.started ≡ started
    → c.channel_queue ≡ q
    → given_order (shift q c) ≡ reverse started ++ q
unfolding execute
shift-given_order [] started c s e = rw (s, e)
shift-given_order (j ∷ q) started c s e = rw (s, reverse-cons, append_assoc)

append_swap : (xs ys : List ℕ) (j : ℕ) → ys ≡ [] → (xs ++ j ∷ []) ++ ys ≡ (xs ++ ys) ++ j ∷ []
append_swap xs ys j e = rw e (simp append-nil)

acquire-given_order :
    (job : ℕ) (c : Channels)
    → IsSound c
    → given_order (acquire_channel job c) ≡ given_order c ++ job ∷ []
unfolding acquire_channel
acquire-given_order job c h = elim (Bool-cases (ltb c.active_channels max_channels)) [
  | inl e ↦
      rw e (rw reverse-cons (append_swap (reverse c.started) c.channel_queue job (ground arith)))
  | inr e ↦ rw e (simp append_assoc)
]

finish-given_order : (job : ℕ) (c : Channels) → given_order (finish job c) ≡ given_order c
unfolding finish
finish-given_order job c =
    shift-given_order c.channel_queue c.started
      (record c {
        settled = job ∷ c.settled;
        running = erase_job job c.running;
        active_channels = c.active_channels - 1;
      })
      refl refl

step-given_order :
    (e : Event) (c : Channels)
    → IsCalm e
    → IsSound c
    → given_order (step e c) ≡ given_order c ++ asked (e ∷ [])
unfolding step
step-given_order (acquire job) c n h = acquire-given_order job c h
step-given_order (ends job) c n h = elim (Bool-cases (any (λ j. j == job) c.running)) [
  | inl e ↦ rw e (rw append-nil (finish-given_order job c))
  | inr e ↦ rw e (rw append-nil refl)
]
step-given_order drain c n h = absurd n

asked-cons : (e : Event) (es : List Event) → asked (e ∷ es) ≡ asked (e ∷ []) ++ asked es
asked-cons (acquire job) es = refl
asked-cons (ends job) es = refl
asked-cons drain es = refl

run-given_order :
    (es : List Event) (c : Channels)
    → All IsCalm es
    → IsSound c
    → given_order (run es c) ≡ given_order c ++ asked es
unfolding run
run-given_order [] c n h = sym (append-nil _)
run-given_order (e ∷ es) c (n, ns) h =
    rw (asked-cons e es, ← append_assoc, ← step-given_order e c n h)
      (run-given_order es (step e c) ns (step-IsSound e c h))

-- While the connection is not lost, the jobs are run in the order in which they were asked for: those
-- that were started, followed by those that wait, are all that were asked for.
pub run-given_order_new :
    (es : List Event) → All IsCalm es → given_order (run es no_channels) ≡ asked es
run-given_order_new es n =
    run-given_order es no_channels n
      (record { bounded = omega arith; counted = refl; busy = inl refl })
