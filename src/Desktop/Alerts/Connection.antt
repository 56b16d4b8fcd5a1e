-- ===== src/Desktop/Alerts/Connection.antt =====
-- The connection rules of src/main/alerts/alert-engine.ts: a timer for each rule whose server is
-- down, kept in the map `connectionTimers` by the rule's id. The status of a server, which the SSH
-- manager answers when a timer fires, is an argument.
use monitc.Prelude.{
  ℕ, String, Bool, true, false, ◌||◌, ◌&&◌, not, Option, none, some, List, [], ◌∷◌, ◌++◌,
  if◌then◌else◌, str_eq, any, find, select, map, ◌==◌,
}
use monitc.Number.{Number}
use monitc.Desktop.Connectivity.{Connectivity, connecting, connected, disconnected, failed}
use monitc.Desktop.Alerts.{
  AlertRule, AppData, TriggeredAlert, Channel, is_connection_lost, in_cooldown, dispatch,
  persist_rules,
}

-- The argument of `evaluateConnectionStatus`.
pub record ConnectionStatus : Type 0 where
  pub server_id : String
  pub status : Connectivity

-- A pending `setTimeout`: the rule it is for, and the status that its callback holds.
pub record Timer : Type 0 where
  pub rule_id : String
  pub status : ConnectionStatus

abbrev pub timer_of : String → Timer → Bool
timer_of id t = str_eq t.rule_id id

-- `clearConnectionTimer`, and `connectionTimers.delete`.
unfoldable pub clear_connection_timer : String → List Timer → List Timer
clear_connection_timer id timers = select (λ t. not (timer_of id t)) timers

-- Whether a timer is set on this status, cleared by it, or left.
abbrev pub is_down : Connectivity → Bool
is_down disconnected = true
is_down failed = true
is_down _ = false

-- The statuses at which a timer that fires does nothing.
abbrev pub is_back : Connectivity → Bool
is_back connected = true
is_back connecting = true
is_back _ = false

module _ (𝓷 : Number) where
  open 𝓷 use {zero, one}

  pub record Engine : Type 0 where
    pub app_data : AppData 𝓷
    pub connection_timers : List Timer

  abbrev pub connection_rule_of : String → AlertRule 𝓷 → Bool
  connection_rule_of server_id r = str_eq r.server_id server_id && is_connection_lost r.metric

  -- The loop that clears the timers of some rules.
  unfoldable pub clear_timers : List (AlertRule 𝓷) → List Timer → List Timer
  unfolding clear_connection_timer
  clear_timers [] timers = timers
  clear_timers (r ∷ rules) timers = clear_timers rules (clear_connection_timer r.id timers)

  unfoldable pub clear_connection_alerts_for_server : String → Engine → Engine
  clear_connection_alerts_for_server server_id e =
      let rules = select (connection_rule_of server_id) e.app_data.alert_rules in
      record e { connection_timers = clear_timers rules e.connection_timers }

  abbrev calmed : AlertRule 𝓷 → AlertRule 𝓷
  calmed r = record r { consecutive_breaches = 0 }

  unfoldable pub reset_connection_rules : String → Engine → Engine
  unfolding persist_rules
  reset_connection_rules server_id e =
      let rules = select (connection_rule_of server_id) e.app_data.alert_rules in
      let cleared = record e { connection_timers = clear_timers rules e.connection_timers } in
      if any (λ r. not (r.consecutive_breaches == 0)) rules
      then record cleared { app_data = persist_rules 𝓷 e.app_data (map calmed rules) }
      else cleared

  -- The loop that sets a timer for each rule that has none.
  unfoldable pub set_timers : ConnectionStatus → List (AlertRule 𝓷) → List Timer → List Timer
  set_timers s [] timers = timers
  set_timers s (r ∷ rules) timers = set_timers s rules (
      if any (timer_of r.id) timers
      then timers
      else timers ++ record { rule_id = r.id; status = s } ∷ [])

  unfoldable pub evaluate_connection_status : ConnectionStatus → Engine → Engine
  unfolding reset_connection_rules
  evaluate_connection_status s e =
      let down = record e {
        connection_timers =
            set_timers s
              (select (λ r. r.enabled && connection_rule_of s.server_id r) e.app_data.alert_rules)
              e.connection_timers;
      } in
      elim s.status [
        | connected ↦ reset_connection_rules s.server_id e
        | disconnected ↦ down
        | failed ↦ down
        | _ ↦ e
      ]

  -- What a timer that fires does: the engine after it, the alert and the channels.
  pub record Fired : Type 0 where
    pub engine : Engine
    pub alert : Option (TriggeredAlert 𝓷)
    pub sent : List Channel

  abbrev silent : Engine → Fired
  silent e = record { engine = e; alert = none; sent = [] }

  abbrev sound : ℕ → AlertRule 𝓷 → Engine → Fired
  sound now rule e =
      let fired = record rule { last_triggered_at = some now; consecutive_breaches = 1 } in
      let alert : TriggeredAlert 𝓷 = record {
        rule_id = rule.id;
        rule_name = rule.name;
        server_id = rule.server_id;
        metric = rule.metric;
        value = one;
        threshold = zero;
        timestamp = now;
      } in
      record {
        engine = record e { app_data = persist_rules 𝓷 e.app_data (fired ∷ []) };
        alert = some alert;
        sent = dispatch 𝓷 fired e.app_data.integrations;
      }

  unfoldable pub fire_connection_alert_if_still_down : ℕ → Connectivity → String → Engine → Fired
  unfolding in_cooldown
  fire_connection_alert_if_still_down now current rule_id e =
      if is_back current
      then silent e
      else elim (find (λ r. str_eq r.id rule_id) e.app_data.alert_rules) [
        | none ↦ silent e
        | some rule ↦
            if not rule.enabled || not (is_connection_lost rule.metric) || in_cooldown 𝓷 now rule
            then silent e
            else sound now rule e
      ]

  -- The callback of the timer.
  unfoldable pub timer_fires : ℕ → Connectivity → Timer → Engine → Fired
  unfolding clear_connection_timer fire_connection_alert_if_still_down
  timer_fires now current t e =
      fire_connection_alert_if_still_down now current t.rule_id
        (record e { connection_timers = clear_connection_timer t.rule_id e.connection_timers })
