-- ===== src/Desktop/Alerts/Reactions.antt =====
-- The connection rules under any sequence of statuses, timers and removals.
use monitc.Prelude.{
  ℕ, String, true, false, ◌&&◌, not, none, some, List, [], ◌∷◌, ◌≡◌, arith, if◌then◌else◌, str_eq,
  any, find, select, All, is_some,
}
use monitc.Number.{Number}
use monitc.Desktop.Connectivity.{Connectivity, connected}
use monitc.Desktop.Alerts.{AlertRule, is_connection_lost, in_cooldown}
use monitc.Desktop.Alerts.Connection.{
  Timer, ConnectionStatus, is_down, is_back, timer_of, clear_connection_timer, clear_timers,
  set_timers, Engine, connection_rule_of, evaluate_connection_status, timer_fires,
  clear_connection_alerts_for_server,
}
use monitc.Desktop.Alerts.Timers.{
  Unique, Unique-select, cleared_gone, clear_timers-Unique, set_timers-Unique, clear_timers-none,
  set_timers-any,
}

module _ (𝓷 : Number) where
  abbrev pub own : String → Engine 𝓷 → List (AlertRule 𝓷)
  own server_id e = select (connection_rule_of 𝓷 server_id) e.app_data.alert_rules

  abbrev pub watched : String → Engine 𝓷 → List (AlertRule 𝓷)
  watched server_id e =
      select (λ r. r.enabled && connection_rule_of 𝓷 server_id r) e.app_data.alert_rules

  -- What arrives at the connection part of the engine.
  pub data Input : Type 0 where
    status : ConnectionStatus → Input
    fires : (now : ℕ) → Connectivity → Timer → Input
    forget : (server_id : String) → Input

  pub react : Input → Engine 𝓷 → Engine 𝓷
  react (status s) e = evaluate_connection_status 𝓷 s e
  react (fires now current t) e = (timer_fires 𝓷 now current t e).engine
  react (forget server_id) e = clear_connection_alerts_for_server 𝓷 server_id e

  pub react_all : List Input → Engine 𝓷 → Engine 𝓷
  react_all [] e = e
  react_all (i ∷ is) e = react_all is (react i e)

  timer_fires-timers :
      (now : ℕ) (current : Connectivity) (t : Timer) (e : Engine 𝓷)
      → (timer_fires 𝓷 now current t e).engine.connection_timers
        ≡ clear_connection_timer t.rule_id e.connection_timers
  unfolding timer_fires
  timer_fires-timers now current t e = ground arith

  react-Unique :
      (i : Input) (e : Engine 𝓷) → Unique e.connection_timers → Unique (react i e).connection_timers
  unfolding react evaluate_connection_status clear_connection_alerts_for_server
      clear_connection_timer
  react-Unique (status s) e h = ground (
    arith,
    clear_timers-Unique 𝓷 (own s.server_id e) e.connection_timers h,
    set_timers-Unique 𝓷 s (watched s.server_id e) e.connection_timers h,
  )
  react-Unique (fires now current t) e h =
      rw (timer_fires-timers now current t e) (Unique-select _ e.connection_timers h)
  react-Unique (forget server_id) e h =
      clear_timers-Unique 𝓷 (own server_id e) e.connection_timers h

  -- However statuses arrive, timers fire and servers are removed, no rule ever has two timers.
  pub react_all-Unique :
      (is : List Input) (e : Engine 𝓷)
      → Unique e.connection_timers
      → Unique (react_all is e).connection_timers
  unfolding react_all
  react_all-Unique [] e h = h
  react_all-Unique (i ∷ is) e h = react_all-Unique is (react i e) (react-Unique i e h)

  connected-timers :
      (s : ConnectionStatus) (e : Engine 𝓷)
      → s.status ≡ connected
      → (evaluate_connection_status 𝓷 s e).connection_timers
        ≡ clear_timers 𝓷 (own s.server_id e) e.connection_timers
  unfolding evaluate_connection_status
  connected-timers s e h = ground arith

  down-timers :
      (s : ConnectionStatus) (e : Engine 𝓷)
      → is_down s.status ≡ true
      → (evaluate_connection_status 𝓷 s e).connection_timers
        ≡ set_timers 𝓷 s (watched s.server_id e) e.connection_timers
  unfolding evaluate_connection_status
  down-timers s e h = ground arith

  -- A server that is connected leaves no timer for any of its connection rules.
  pub evaluate_connection_status-none :
      (s : ConnectionStatus) (e : Engine 𝓷)
      → s.status ≡ connected
      → All
          (λ r. any (timer_of r.id) (evaluate_connection_status 𝓷 s e).connection_timers ≡ false)
          (own s.server_id e)
  evaluate_connection_status-none s e h =
      rw (connected-timers s e h) (clear_timers-none 𝓷 (own s.server_id e) e.connection_timers)

  -- A server that is disconnected or in error leaves a timer for each of its enabled connection
  -- rules.
  pub evaluate_connection_status-any :
      (s : ConnectionStatus) (e : Engine 𝓷)
      → is_down s.status ≡ true
      → All
          (λ r. any (timer_of r.id) (evaluate_connection_status 𝓷 s e).connection_timers ≡ true)
          (watched s.server_id e)
  evaluate_connection_status-any s e h =
      rw (down-timers s e h) (set_timers-any 𝓷 s (watched s.server_id e) e.connection_timers)

  -- A timer that fires raises an alert exactly when the server is neither connected nor connecting
  -- and the timer's rule still exists, is enabled, is a connection rule and is not cooling down; it
  -- changes the rules only then, and afterwards the rule has no timer.
  pub timer_fires_outcome :
      (now : ℕ) (current : Connectivity) (t : Timer) (e : Engine 𝓷)
      → let found = find (λ r. str_eq r.id t.rule_id) e.app_data.alert_rules in
        let done = timer_fires 𝓷 now current t e in
        (is_some done.alert ≡ (
          not (is_back current) && elim found [
            | none ↦ false
            | some r ↦ r.enabled && is_connection_lost r.metric && not (in_cooldown 𝓷 now r)
          ]))
        × (done.engine.app_data ≡ (if is_some done.alert then done.engine.app_data else e.app_data))
        × (any (timer_of t.rule_id) done.engine.connection_timers ≡ false)
  unfolding timer_fires
  timer_fires_outcome now current t e = (
    ground arith,
    ground arith,
    rw (timer_fires-timers now current t e) (cleared_gone t.rule_id e.connection_timers),
  )
