-- ===== src/Desktop/Ssh.antt =====
-- The connection of the desktop client to one server, src/main/ssh/ssh-manager.ts. The manager's maps
-- are keyed by the server's id and every operation touches one key, so this is the part of one
-- server. Entries are shared objects (the closures of a client keep theirs after the map has another),
-- so they stand in a heap, and a handler is given the reference that its closure holds.
pub mod Pool
pub mod Slots
pub mod Drained
pub mod Attempts
pub mod Stale
mod Tests
use monitc.Prelude.{
  ℕ, ◌+◌, ◌*◌, ◌^◌, min, Bool, true, false, ◌||◌, ◌&&◌, not, Option, none, some, List, [], ◌∷◌,
  if◌then◌else◌, ltb, leb, ◌==◌, find, select,
}
use monitc.Desktop.Connectivity.{
  Connectivity, connecting, connected, reconnecting, disconnected, failed,
}
use Pool.{Channels, no_channels, drain_queue_with_error, acquire_channel, finish}

-- BASE_RETRY_DELAY_MS, MAX_RETRY_DELAY_MS and MAX_RETRIES.
abbrev pub base_retry_delay : ℕ
base_retry_delay = 1500

abbrev pub max_retry_delay : ℕ
max_retry_delay = 60000

abbrev pub max_retries : ℕ
max_retries = 12

-- `backoffDelay` in whole milliseconds, as a timer takes it; `jitter` is the random part.
unfoldable pub backoff_delay : ℕ → ℕ → ℕ
backoff_delay jitter retry_count = min (base_retry_delay * 2 ^ retry_count + jitter) max_retry_delay

pub record ConnectionEntry : Type 0 where
  pub status : Connectivity
  pub channels : Channels
  pub retry_count : ℕ
  pub retry_timer : Option ℕ
  pub health_timer : Bool
  pub intentional : Bool
  -- What the closures of `_doConnect` hold: its argument `retryCount`, and whether its promise is
  -- awaited by `connect` and still open.
  pub attempt : ℕ
  pub awaited : Bool

-- A pending timer of `_scheduleReconnect`.
pub record Retry : Type 0 where
  pub handle : ℕ
  pub entry : ℕ
  pub retry_count : ℕ

pub record Manager : Type 0 where
  pub entries : ℕ → ConnectionEntry
  pub next_entry : ℕ
  -- The values of `connections` and of `connectPromises` at the server's id.
  pub connection : Option ℕ
  pub inflight : Bool
  pub timers : List Retry
  pub next_timer : ℕ
  -- The statuses emitted, newest first.
  pub emitted : List Connectivity

unfoldable pub update : ℕ → ConnectionEntry → Manager → Manager
update ref e m = record m { entries = λ r. if r == ref then e else m.entries r }

abbrev pub emit : Connectivity → Manager → Manager
emit s m = record m { emitted = s ∷ m.emitted }

abbrev pub fresh_entry : ℕ → Bool → ConnectionEntry
fresh_entry retry_count awaited = record {
  status = connecting;
  channels = no_channels;
  retry_count = retry_count;
  retry_timer = none;
  health_timer = false;
  intentional = false;
  attempt = retry_count;
  awaited = awaited;
}

-- `_doConnect`; `awaited` says whether `connect` called it.
unfoldable pub do_connect : ℕ → Bool → Manager → Manager
unfolding update
do_connect retry_count awaited m =
    emit connecting (record (update m.next_entry (fresh_entry retry_count awaited) m) {
      next_entry = m.next_entry + 1;
      connection = some m.next_entry;
    })

unfoldable pub schedule_reconnect : ℕ → ℕ → Manager → Manager
unfolding update
schedule_reconnect ref retry_count m =
    let e = m.entries ref in
    let timed = update ref (record e { retry_timer = some m.next_timer }) m in
    if e.intentional || leb max_retries retry_count
    then (if leb max_retries retry_count
        then emit failed (update ref (record e { status = failed }) m)
        else m)
    else record timed {
      next_timer = m.next_timer + 1;
      timers = record { handle = m.next_timer; entry = ref; retry_count = retry_count } ∷ m.timers;
    }

abbrev pub clear_timer : Option ℕ → List Retry → List Retry
clear_timer none timers = timers
clear_timer (some h) timers = select (λ t. not (t.handle == h)) timers

-- `_teardown`, always called with `intentional` true.
unfoldable pub teardown : ℕ → Manager → Manager
unfolding update
teardown ref m =
    let e = m.entries ref in
    let gone = record e { intentional = true; retry_timer = none; health_timer = false } in
    record (update ref gone m) {
      timers = clear_timer e.retry_timer m.timers;
      connection = none;
      inflight = false;
    }

-- `connect` up to its `await`.
abbrev reconnect : Option ℕ → Manager → Manager
reconnect none m = record (do_connect 0 true m) { inflight = true }
reconnect (some ref) m = record (do_connect 0 true (teardown ref m)) { inflight = true }

abbrev pub is_connected : Option ℕ → Manager → Bool
is_connected none m = false
is_connected (some ref) m = elim (m.entries ref).status [ connected ↦ true | _ ↦ false ]

unfoldable pub connect : Manager → Manager
unfolding do_connect teardown
connect m = if is_connected m.connection m || m.inflight then m else reconnect m.connection m

unfoldable pub disconnect : Manager → Manager
unfolding teardown
disconnect m = elim m.connection [ none ↦ m | some ref ↦ emit disconnected (teardown ref m) ]

-- A promise that `connect` awaits settles once, and `finally` forgets it.
abbrev pub settle : ℕ → Manager → Manager
settle ref m =
    let e = m.entries ref in
    if e.awaited
    then record (update ref (record e { awaited = false }) m) { inflight = false }
    else m

-- `client.on('ready')`.
unfoldable pub on_ready : ℕ → Manager → Manager
unfolding update
on_ready ref m =
    let e = m.entries ref in
    settle ref (
      emit connected
        (update ref (record e { status = connected; retry_count = 0; health_timer = true }) m))

-- `client.on('error')`.
unfoldable pub on_error : ℕ → Manager → Manager
unfolding update schedule_reconnect
on_error ref m =
    let e = m.entries ref in
    let drained = record e { status = failed; channels = drain_queue_with_error e.channels } in
    settle ref (schedule_reconnect ref e.attempt (emit failed (update ref drained m)))

-- `client.on('close')`.
unfoldable pub on_close : ℕ → Manager → Manager
unfolding update schedule_reconnect
on_close ref m =
    let e = m.entries ref in
    let lost = record e {
      status = reconnecting;
      health_timer = false;
      channels = drain_queue_with_error e.channels;
    } in
    let quiet = schedule_reconnect ref e.retry_count (update ref lost m) in
    let told = schedule_reconnect ref e.retry_count (emit reconnecting (update ref lost m)) in
    if e.intentional then m else elim e.status [ connected ↦ told | reconnecting ↦ quiet | _ ↦ m ]

-- A health check that failed or timed out.
unfoldable pub on_health_failed : ℕ → Manager → Manager
unfolding update schedule_reconnect
on_health_failed ref m =
    let e = m.entries ref in
    let lost = record e { status = reconnecting; health_timer = false } in
    let told = schedule_reconnect ref e.retry_count (emit reconnecting (update ref lost m)) in
    elim e.status [ connected ↦ told | _ ↦ m ]

-- The callback of a timer of `_scheduleReconnect`.
unfoldable pub on_retry : ℕ → Manager → Manager
unfolding do_connect
on_retry handle m =
    let rest = record m { timers = select (λ t. not (t.handle == handle)) m.timers } in
    elim (find (λ t. t.handle == handle) m.timers) [
      | none ↦ m
      | some t ↦
          if (m.entries t.entry).intentional
          then rest
          else do_connect (t.retry_count + 1) false rest
    ]

-- `execCommand` and `withSftp`: the refusal, or the job in the channels of the connection.
unfoldable pub exec_command : ℕ → Manager → Manager × Bool
unfolding update
exec_command job m = elim m.connection [
  | none ↦ (m, false)
  | some ref ↦
      let e = m.entries ref in
      if is_connected (some ref) m
      then (update ref (record e { channels = acquire_channel job e.channels }) m, true)
      else (m, false)
]

-- The function of a job that runs on the client of an entry ends.
unfoldable pub job_ends : ℕ → ℕ → Manager → Manager
unfolding update
job_ends ref job m =
    let e = m.entries ref in update ref (record e { channels = finish job e.channels }) m

pub data Event : Type 0 where
  ask_connect ask_disconnect : Event
  ready error close health_failed : (ref : ℕ) → Event
  retry : (handle : ℕ) → Event
  exec : (job : ℕ) → Event
  ended : (ref job : ℕ) → Event

unfoldable pub step : Event → Manager → Manager
unfolding connect disconnect on_ready on_error on_close on_health_failed on_retry exec_command
    job_ends
step ask_connect m = connect m
step ask_disconnect m = disconnect m
step (ready ref) m = on_ready ref m
step (error ref) m = on_error ref m
step (close ref) m = on_close ref m
step (health_failed ref) m = on_health_failed ref m
step (retry handle) m = on_retry handle m
step (exec job) m = (exec_command job m).0
step (ended ref job) m = job_ends ref job m

unfoldable pub run : List Event → Manager → Manager
run [] m = m
run (e ∷ es) m = run es (step e m)

abbrev pub new_manager : Manager
new_manager = record {
  entries = λ _. fresh_entry 0 false;
  next_entry = 0;
  connection = none;
  inflight = false;
  timers = [];
  next_timer = 0;
  emitted = [];
}
