-- ===== src/Desktop/Monitors/Timers.antt =====
-- The intervals of the system and the docker monitor.
use monitc.Prelude.{
  sym, ◌∙◌, ap, Bool-cases, Option, none, some, List, [], ◌∷◌, ◌≡◌, refl, arith, ℕ, inl, inr,
}
use monitc.Desktop.Monitors.{
  clear_timer, Monitor, has, without, stop, start, start_polling, Monitors, Event, started, stopped,
  system_interval, docker_interval, kubernetes_interval, docker_timeout, kubernetes_timeout,
  start_monitors, stop_monitors, step, run, at_start, fire_interval, fire_timeout,
}

abbrev pub interval_list : Option ℕ → List ℕ
interval_list none = []
interval_list (some id) = id ∷ []

-- The interval that `timers` knows is the only one.
abbrev pub IsOnly : Monitor → Type 0
IsOnly m = m.intervals ≡ interval_list m.timer

clear_timer-IsOnly :
    (o : Option ℕ) (m : Monitor) → m.intervals ≡ interval_list o → (clear_timer o m).intervals ≡ []
clear_timer-IsOnly none m h = h
clear_timer-IsOnly (some id) m h = rw h (ground arith)

clear_timer-IsOnly_after :
    (o : Option ℕ) (m : Monitor)
    → m.timer ≡ o
    → m.intervals ≡ interval_list o
    → IsOnly (clear_timer o m)
clear_timer-IsOnly_after none m e h = h ∙ ap interval_list (sym e)
clear_timer-IsOnly_after (some id) m e h = clear_timer-IsOnly (some id) m h

stop-IsOnly : (m : Monitor) → IsOnly m → IsOnly (stop m)
unfolding stop
stop-IsOnly m h = clear_timer-IsOnly_after m.timer m refl h

start-IsOnly : (m : Monitor) → IsOnly m → IsOnly (start m)
unfolding start stop start_polling
start-IsOnly m h = ap (λ r. (clear_timer m.timer m).next ∷ r) (clear_timer-IsOnly m.timer m h)

fire_interval-IsOnly : (id : ℕ) (m : Monitor) → IsOnly m → IsOnly (fire_interval id m)
fire_interval-IsOnly id m h = ground (arith, h)

fire_timeout-IsOnly : (id : ℕ) (m : Monitor) → IsOnly m → IsOnly (fire_timeout start id m)
fire_timeout-IsOnly id m h = elim (Bool-cases (has id m.timeouts)) [
  | inl e ↦ rw e (start-IsOnly (record m { timeouts = without id m.timeouts }) h)
  | inr e ↦ rw e h
]

abbrev pub AreOnly : Monitors → Type 0
AreOnly s = IsOnly s.system × IsOnly s.docker

step-AreOnly : (e : Event) (s : Monitors) → AreOnly s → AreOnly (step e s)
unfolding step start_monitors stop_monitors
step-AreOnly started s (h, k) = (start-IsOnly s.system h, k)
step-AreOnly stopped s (h, k) = (stop-IsOnly s.system h, stop-IsOnly s.docker k)
step-AreOnly (system_interval id) s (h, k) = (fire_interval-IsOnly id s.system h, k)
step-AreOnly (docker_interval id) s (h, k) = (h, fire_interval-IsOnly id s.docker k)
step-AreOnly (kubernetes_interval id) s w = w
step-AreOnly (docker_timeout id) s (h, k) = (h, fire_timeout-IsOnly id s.docker k)
step-AreOnly (kubernetes_timeout id) s w = w

run-AreOnly_from : (es : List Event) (s : Monitors) → AreOnly s → AreOnly (run es s)
unfolding run
run-AreOnly_from [] s h = h
run-AreOnly_from (e ∷ es) s h = run-AreOnly_from es (step e s) (step-AreOnly e s h)

-- However often a server is started and stopped, its system monitor and its docker monitor never have
-- an interval but the one that `stop` clears.
pub run-AreOnly : (es : List Event) → AreOnly (run es at_start)
run-AreOnly es = run-AreOnly_from es at_start (refl, refl)
