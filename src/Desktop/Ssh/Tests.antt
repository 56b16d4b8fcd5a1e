-- ===== src/Desktop/Ssh/Tests.antt =====
-- The SSH manager's theorems at concrete inputs.
use monitc.Prelude.{◌+◌, false, some, List, [], ◌∷◌, ◌≡◌, refl, arith}
use monitc.Desktop.Connectivity.{connecting, reconnecting, disconnected}
use monitc.Desktop.Ssh.{
  Manager, Event, ask_connect, ask_disconnect, ready, close, health_failed, retry, exec, step, run,
  new_manager, fresh_entry,
}
use monitc.Desktop.Ssh.Pool
use monitc.Desktop.Ssh.Pool.{Channels, no_channels, acquire, ends, drain, drain_queue_with_error}
use monitc.Desktop.Ssh.Slots.{IsSound, run-IsSound_new, asked, given_order, run-given_order_new}
use monitc.Desktop.Ssh.Drained.{IsLost, drained_forever}
use monitc.Desktop.Ssh.Stale.{disconnect_stops, health_failed-undoes_disconnect}

abbrev eight : List Pool.Event
eight =
    acquire 1
    ∷ acquire 2
    ∷ acquire 3
    ∷ acquire 4
    ∷ acquire 5
    ∷ acquire 6
    ∷ acquire 7
    ∷ acquire 8
    ∷ ends 3
    ∷ []

queue_waits : (Pool.run eight no_channels).channel_queue ≡ 8 ∷ []
unfolding Pool.run Pool.step
queue_waits = refl

run-given_order_new_example : given_order (Pool.run eight no_channels) ≡ asked eight
run-given_order_new_example = run-given_order_new eight (ground arith)

run-IsSound_new_example : IsSound (Pool.run eight no_channels)
run-IsSound_new_example = run-IsSound_new eight

drained_forever_example :
    IsLost 8
      (Pool.run (ends 1 ∷ acquire 9 ∷ []) (drain_queue_with_error (Pool.run eight no_channels)))
unfolding Pool.run Pool.step
drained_forever_example =
    drained_forever 8 (ends 1 ∷ acquire 9 ∷ []) (Pool.run eight no_channels) refl refl refl refl
      (ground arith)

abbrev session : List Event
session = ask_connect ∷ ready 0 ∷ exec 5 ∷ []

health_failed-undoes_disconnect_example :
    let m = run session new_manager in
    let later =
      run
        (health_failed 0
          ∷ close 0
          ∷ retry m.next_timer
          ∷ ask_disconnect
          ∷ retry (m.next_timer + 1)
          ∷ [])
        m in
    (later.connection ≡ some (m.next_entry + 1))
    × (later.emitted ≡ connecting ∷ disconnected ∷ connecting ∷ reconnecting ∷ m.emitted)
unfolding run step
health_failed-undoes_disconnect_example =
    health_failed-undoes_disconnect (run session new_manager) 0 refl (omega arith) refl refl
      (omega arith)

abbrev lost : List Event
lost = ask_connect ∷ ready 0 ∷ health_failed 0 ∷ close 0 ∷ []

disconnect_stops_example :
    let later = run (ask_connect ∷ []) (step ask_disconnect (run lost new_manager)) in
    ((step (retry 0) later).next_entry ≡ later.next_entry)
    × ((step (retry 0) later).connection ≡ later.connection)
    × ((step (retry 0) later).emitted ≡ later.emitted)
unfolding run step
disconnect_stops_example =
    disconnect_stops (run lost new_manager) 0 (ask_connect ∷ [])
      (record { handle = 0; entry = 0; retry_count = 0 }) 0 refl (omega arith) refl refl

-- An entry that the twelfth reconnection opened.
abbrev last_attempt : Manager
last_attempt = record new_manager {
  entries = λ _. fresh_entry 12 false;
  next_entry = 1;
  connection = some 0;
}
