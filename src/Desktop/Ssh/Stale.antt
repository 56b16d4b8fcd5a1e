-- ===== src/Desktop/Ssh/Stale.antt =====
-- What a disconnect stops, and what it does not.
use monitc.Prelude.{ℕ, ◌+◌, ◌<◌, ◌≤◌, true, false, some, List, [], ◌∷◌, ◌≡◌, arith, find, ◌==◌}
use monitc.Desktop.Connectivity.{reconnecting, connecting, connected, disconnected, failed}
use monitc.Desktop.Ssh.{
  Manager, Retry, Event, ask_connect, ask_disconnect, ready, error, close, health_failed, retry,
  step, run, max_retries,
}

step-next_entry : (e : Event) (m : Manager) → m.next_entry ≤ (step e m).next_entry
unfolding step
step-next_entry ask_connect m = ground arith
step-next_entry e m = ground arith

step-intentional :
    (e : Event) (m : Manager) (ref : ℕ)
    → ref < m.next_entry
    → (m.entries ref).intentional ≡ true
    → ((step e m).entries ref).intentional ≡ true
unfolding step
step-intentional ask_connect m ref l h = ground arith
step-intentional e m ref l h = ground arith

-- An entry that was disconnected on purpose stays so, whatever follows.
run-intentional :
    (es : List Event) (m : Manager) (ref : ℕ)
    → ref < m.next_entry
    → (m.entries ref).intentional ≡ true
    → ((run es m).entries ref).intentional ≡ true
unfolding run
run-intentional [] m ref l h = h
run-intentional (e ∷ es) m ref l h =
    run-intentional es (step e m) ref (omega (arith, step-next_entry e m))
      (step-intentional e m ref l h)

retry_of_intentional :
    (m : Manager) (t : Retry) (handle : ℕ)
    → find (λ u. u.handle == handle) m.timers ≡ some t
    → (m.entries t.entry).intentional ≡ true
    → ((step (retry handle) m).next_entry ≡ m.next_entry)
      × ((step (retry handle) m).connection ≡ m.connection)
      × ((step (retry handle) m).emitted ≡ m.emitted)
unfolding step
retry_of_intentional m t handle f h = ground arith

disconnect-intentional :
    (m : Manager) (ref : ℕ)
    → m.connection ≡ some ref
    → ((step ask_disconnect m).entries ref).intentional ≡ true
unfolding step
disconnect-intentional m ref h = ground arith

-- After a disconnect, whatever follows, no timer of the entry that was disconnected opens a
-- connection or reports a status.
pub disconnect_stops :
    (m : Manager) (ref : ℕ) (es : List Event) (t : Retry) (handle : ℕ)
    → m.connection ≡ some ref
    → ref < m.next_entry
    → find (λ u. u.handle == handle) (run es (step ask_disconnect m)).timers ≡ some t
    → t.entry ≡ ref
    → let later = run es (step ask_disconnect m) in
      ((step (retry handle) later).next_entry ≡ later.next_entry)
      × ((step (retry handle) later).connection ≡ later.connection)
      × ((step (retry handle) later).emitted ≡ later.emitted)
disconnect_stops m ref es t handle c l f o =
    retry_of_intentional (run es (step ask_disconnect m)) t handle f (
      rw o (
        run-intentional es (step ask_disconnect m) ref
          (omega (arith, step-next_entry ask_disconnect m)) (disconnect-intentional m ref c)))

-- A failed health check of a connected entry, and the `close` of the client that it destroys, set two
-- timers. The first reconnects; the user then disconnects; the second connects all the same.
pub health_failed-undoes_disconnect :
    (m : Manager) (ref : ℕ)
    → m.connection ≡ some ref
    → ref < m.next_entry
    → (m.entries ref).status ≡ connected
    → (m.entries ref).intentional ≡ false
    → (m.entries ref).retry_count < max_retries
    → let first = retry m.next_timer in
      let second = retry (m.next_timer + 1) in
      let later = run (health_failed ref ∷ close ref ∷ first ∷ ask_disconnect ∷ second ∷ []) m in
      (later.connection ≡ some (m.next_entry + 1))
      × (later.emitted ≡ connecting ∷ disconnected ∷ connecting ∷ reconnecting ∷ m.emitted)
unfolding run step
health_failed-undoes_disconnect m ref c l s i r = ground arith

-- An entry that the last allowed attempt opened and that became ready is not reconnected after an
-- error: the handler uses the count of its attempt and not the one that `ready` reset.
pub ready-error_gives_up :
    (m : Manager) (ref : ℕ)
    → (m.entries ref).attempt ≡ max_retries
    → let later = run (ready ref ∷ error ref ∷ []) m in
      ((later.entries ref).status ≡ failed)
      × ((later.entries ref).retry_count ≡ 0)
      × (later.timers ≡ m.timers)
unfolding run step
ready-error_gives_up m ref a = ground arith
