-- ===== src/Desktop/Monitors/Orphans.antt =====
-- The intervals of the kubernetes monitor that nothing stops.
use monitc.Prelude.{
  Option-cases, ℕ, ◌+◌, Bool, true, false, not, ◌&&◌, Option, none, some, List, [], ◌∷◌, ◌≡◌, refl,
  arith, ◌==◌, ltb, Bool-cases, inl, inr,
}
use monitc.Desktop.Monitors.{
  Monitor, has, without, clear_timer, stop, start_polling, start_delayed, Monitors, Event, started,
  stopped, system_interval, docker_interval, kubernetes_interval, docker_timeout,
  kubernetes_timeout, start_monitors, stop_monitors, step, run, fire_timeout,
}

abbrev pub is_timer : ℕ → Option ℕ → Bool
is_timer id none = false
is_timer id (some x) = x == id

-- The interval runs, and `timers` has none or another.
abbrev pub is_orphan : ℕ → Monitor → Bool
is_orphan id m = has id m.intervals && (not (is_timer id m.timer) && ltb id m.next)

has-without : (id x : ℕ) (xs : List ℕ) → x == id ≡ false → has id (without x xs) ≡ has id xs
has-without id x [] h = refl
has-without id x (y ∷ xs) h = ground (arith, has-without id x xs)

clear_timer-orphan :
    (id : ℕ) (o : Option ℕ) (m : Monitor)
    → is_timer id o ≡ false
    → is_orphan id m ≡ true
    → is_orphan id (clear_timer o m) ≡ true
clear_timer-orphan id none m t h = h
clear_timer-orphan id (some x) m t h = ground (arith, t, h, has-without id x m.intervals t)

stop-orphan : (id : ℕ) (m : Monitor) → is_orphan id m ≡ true → is_orphan id (stop m) ≡ true
unfolding stop
stop-orphan id m h = clear_timer-orphan id m.timer m (ground (arith, h)) h

start_polling-orphan :
    (id : ℕ) (m : Monitor) → is_orphan id m ≡ true → is_orphan id (start_polling m) ≡ true
unfolding start_polling
start_polling-orphan id m h = ground (arith, h)

start_delayed-orphan :
    (id : ℕ) (m : Monitor) → is_orphan id m ≡ true → is_orphan id (start_delayed 6000 m) ≡ true
unfolding start_delayed
start_delayed-orphan id m h = let stopped = stop-orphan id m h in ground (arith, stopped)

fire_timeout-orphan :
    (id x : ℕ) (m : Monitor)
    → is_orphan id m ≡ true
    → is_orphan id (fire_timeout start_polling x m) ≡ true
fire_timeout-orphan id x m h = elim (Bool-cases (has x m.timeouts)) [
  | inl e ↦ rw e (start_polling-orphan id (record m { timeouts = without x m.timeouts }) h)
  | inr e ↦ rw e h
]

step-orphan :
    (id : ℕ) (e : Event) (s : Monitors)
    → is_orphan id s.kubernetes ≡ true
    → is_orphan id (step e s).kubernetes ≡ true
unfolding step start_monitors stop_monitors
step-orphan id started s h = start_delayed-orphan id s.kubernetes h
step-orphan id stopped s h = stop-orphan id s.kubernetes h
step-orphan id (system_interval x) s h = h
step-orphan id (docker_interval x) s h = h
step-orphan id (kubernetes_interval x) s h = ground (arith, h)
step-orphan id (docker_timeout x) s h = h
step-orphan id (kubernetes_timeout x) s h = fire_timeout-orphan id x s.kubernetes h

run-orphan :
    (id : ℕ) (es : List Event) (s : Monitors)
    → is_orphan id s.kubernetes ≡ true
    → is_orphan id (run es s).kubernetes ≡ true
unfolding run
run-orphan id [] s h = h
run-orphan id (e ∷ es) s h = run-orphan id es (step e s) (step-orphan id e s h)

-- A server is started twice, and then the two timeouts end.
abbrev pub twice : Monitors → Monitors
twice s =
    run
      (started
        ∷ started
        ∷ kubernetes_timeout s.kubernetes.next
        ∷ kubernetes_timeout (s.kubernetes.next + 1)
        ∷ [])
      s

-- Two timeouts that wait and end one after the other, of a monitor without an interval in `timers`.
fire_both :
    (n : ℕ) (m : Monitor)
    → m.next ≡ n + 2
    → has n m.timeouts ≡ true
    → has (n + 1) m.timeouts ≡ true
    → is_orphan (n + 2) (fire_timeout start_polling (n + 1) (fire_timeout start_polling n m)) ≡ true
unfolding start_polling
fire_both n m e h k =
    let other = has-without (n + 1) n m.timeouts (ground arith) in ground (arith, e, h, k, other)

twice_orphans : (s : Monitors) → is_orphan (s.kubernetes.next + 2) (twice s).kubernetes ≡ true
unfolding run step start_monitors start_delayed stop
twice_orphans s = elim (Option-cases s.kubernetes.timer) [
  | inl e ↦
      fire_both s.kubernetes.next (start_delayed 6000 (start_delayed 6000 s.kubernetes))
        (ground (arith, e)) (ground (arith, e)) (ground (arith, e))
  | inr (x, e) ↦
      fire_both s.kubernetes.next (start_delayed 6000 (start_delayed 6000 s.kubernetes))
        (ground (arith, e)) (ground (arith, e)) (ground (arith, e))
]

-- When a server is started again before the delay of the first start has passed, both delays make an
-- interval, and the first of them polls for ever: it is there after any later starts, stops and timers,
-- also directly after the server is stopped.
pub second_start_orphans :
    (s : Monitors) (es : List Event)
    → (has (s.kubernetes.next + 2) (run es (twice s)).kubernetes.intervals ≡ true)
      × (has (s.kubernetes.next + 2) (step stopped (run es (twice s))).kubernetes.intervals ≡ true)
second_start_orphans s es =
    let id = s.kubernetes.next + 2 in
    let here = run-orphan id es (twice s) (twice_orphans s) in
    let later = step-orphan id stopped (run es (twice s)) here in
    (ground (arith, here), ground (arith, later))
