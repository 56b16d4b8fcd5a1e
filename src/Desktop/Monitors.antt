-- ===== src/Desktop/Monitors.antt =====
-- The timers of the monitors, src/main/monitors/system-monitor.ts, docker-monitor.ts and
-- kubernetes-monitor.ts, for one server, and the functions of src/main/ipc/ipc-handlers.ts that start
-- and stop them. A timer is the number that it was made with.
pub mod Timers
pub mod Orphans
pub mod Network
mod Tests
use monitc.Prelude.{
  ltb, ℕ, ◌+◌, Bool, true, false, not, Option, none, some, List, [], ◌∷◌, ◌++◌, any, select,
  if◌then◌else◌, ◌==◌,
}

-- One monitor: its entry in `timers`, the intervals that run, the timeouts that wait, and its polls.
pub record Monitor : Type 0 where
  pub timer : Option ℕ
  pub intervals : List ℕ
  pub timeouts : List ℕ
  pub next : ℕ
  pub polls : ℕ

abbrev pub idle : Monitor
idle = record { timer = none; intervals = []; timeouts = []; next = 0; polls = 0 }

abbrev pub has : ℕ → List ℕ → Bool
has x xs = any (λ y. y == x) xs

-- `clearInterval`, and the end of a timeout.
abbrev pub without : ℕ → List ℕ → List ℕ
without x xs = select (λ y. not (y == x)) xs

abbrev pub clear_timer : Option ℕ → Monitor → Monitor
clear_timer none m = m
clear_timer (some id) m = record m { intervals = without id m.intervals; timer = none }

unfoldable pub stop : Monitor → Monitor
stop m = clear_timer m.timer m

abbrev pub poll : Monitor → Monitor
poll m = record m { polls = m.polls + 1 }

-- `poll(); this.timers.set(serverId, setInterval(poll, …))`.
unfoldable pub start_polling : Monitor → Monitor
start_polling m = record m {
  polls = m.polls + 1;
  timer = some m.next;
  intervals = m.next ∷ m.intervals;
  next = m.next + 1;
}

-- `setTimeout`.
abbrev pub set_timeout : Monitor → Monitor
set_timeout m = record m { timeouts = m.next ∷ m.timeouts; next = m.next + 1 }

-- `start` of the system and the docker monitor.
unfoldable pub start : Monitor → Monitor
unfolding stop start_polling
start m = start_polling (stop m)

-- `start` of the kubernetes monitor, by its delay in milliseconds.
unfoldable pub start_delayed : ℕ → Monitor → Monitor
unfolding stop start_polling
start_delayed delay m =
    let stopped = stop m in if ltb 0 delay then set_timeout stopped else start_polling stopped

abbrev pub fire_interval : ℕ → Monitor → Monitor
fire_interval id m = if has id m.intervals then poll m else m

-- A timeout runs its callback once.
abbrev pub fire_timeout : (Monitor → Monitor) → ℕ → Monitor → Monitor
fire_timeout callback id m =
    if has id m.timeouts then callback (record m { timeouts = without id m.timeouts }) else m

-- The monitors of one server.
pub record Monitors : Type 0 where
  pub system : Monitor
  pub docker : Monitor
  pub kubernetes : Monitor

unfoldable pub start_monitors : Monitors → Monitors
unfolding start start_delayed
start_monitors s = record {
  system = start s.system;
  docker = set_timeout s.docker;
  kubernetes = start_delayed 6000 s.kubernetes;
}

-- What `monitor:stop` and `servers:remove` do.
unfoldable pub stop_monitors : Monitors → Monitors
unfolding stop
stop_monitors s = record {
  system = stop s.system;
  docker = stop s.docker;
  kubernetes = stop s.kubernetes;
}

pub data Event : Type 0 where
  -- A listed server gets connected, or is started again while it is; it is stopped or removed.
  started stopped : Event
  system_interval docker_interval kubernetes_interval : ℕ → Event
  docker_timeout kubernetes_timeout : ℕ → Event

unfoldable pub step : Event → Monitors → Monitors
unfolding start_monitors stop_monitors start start_polling
step started s = start_monitors s
step stopped s = stop_monitors s
step (system_interval id) s = record s { system = fire_interval id s.system }
step (docker_interval id) s = record s { docker = fire_interval id s.docker }
step (kubernetes_interval id) s = record s { kubernetes = fire_interval id s.kubernetes }
step (docker_timeout id) s = record s { docker = fire_timeout start id s.docker }
step (kubernetes_timeout id) s = record s {
  kubernetes = fire_timeout start_polling id s.kubernetes;
}

unfoldable pub run : List Event → Monitors → Monitors
run [] s = s
run (e ∷ es) s = run es (step e s)

abbrev pub at_start : Monitors
at_start = record { system = idle; docker = idle; kubernetes = idle }
