-- ===== src/Desktop/Alerts.antt =====
-- The alert engine of the desktop client, src/main/alerts/alert-engine.ts, and the types of
-- src/main/store/types.ts that it uses. The clock is an argument `now`, in milliseconds. An alert is
-- modelled without its message, and the sending of a message as the channel that it is sent to.
-- A call of `evaluate` runs to its end before another handler changes the data.
pub mod Connection
pub mod Evaluation
pub mod Cooldown
pub mod Frame
pub mod Timers
pub mod Reactions
mod Tests
use monitc.Prelude.{
  ℕ, suc, ◌+◌, ◌*◌, ◌/◌, String, Bool, true, false, ◌||◌, ◌&&◌, not, Option, none, some, List, [],
  ◌∷◌, ◌++◌, if◌then◌else◌, ltb, str_eq, any, find, select, map,
}
use monitc.Number.{Number}

pub data MetricType : Type 0 where
  cpu_percent memory_percent disk_percent network_rx_bytes network_tx_bytes : MetricType
  k8s_pod_restarts k8s_pod_crash_loop k8s_pod_oom_killed k8s_pod_image_pull_error : MetricType
  k8s_node_not_ready k8s_deployment_unavailable : MetricType
  docker_container_exited docker_container_restarting : MetricType
  connection_lost : MetricType

pub data Operator : Type 0 where
  gt lt eq : Operator

pub data Channel : Type 0 where
  smtp whatsapp telegram : Channel

abbrev pub is_connection_lost : MetricType → Bool
is_connection_lost connection_lost = true
is_connection_lost _ = false

abbrev pub channel_eq : Channel → Channel → Bool
channel_eq smtp smtp = true
channel_eq whatsapp whatsapp = true
channel_eq telegram telegram = true
channel_eq _ _ = false

-- `data.integrations`, as far as the engine reads it: whether a channel is configured and enabled.
pub record Integrations : Type 0 where
  pub smtp_enabled : Option Bool
  pub whatsapp_enabled : Option Bool
  pub telegram_enabled : Option Bool

module _ (𝓷 : Number) where
  open 𝓷 use {Num, zero, add, greater, equal}

  pub record AlertRule : Type 0 where
    pub id : String
    pub name : String
    pub server_id : String
    pub metric : MetricType
    pub operator : Operator
    pub threshold : Num
    pub duration_seconds : ℕ
    pub channels : List Channel
    pub cooldown_minutes : ℕ
    pub enabled : Bool
    pub last_triggered_at : Option ℕ
    pub consecutive_breaches : ℕ

  pub record DiskPartition : Type 0 where
    pub mountpoint : String
    pub percent : Num

  pub record NetworkInterface : Type 0 where
    pub rx_bytes : Num
    pub tx_bytes : Num

  pub record SystemMetrics : Type 0 where
    pub server_id : String
    pub cpu : Num
    pub memory : Num
    pub disk : List DiskPartition
    pub network : List NetworkInterface

  pub record AppData : Type 0 where
    pub alert_rules : List AlertRule
    pub integrations : Integrations

  pub record TriggeredAlert : Type 0 where
    pub rule_id : String
    pub rule_name : String
    pub server_id : String
    pub metric : MetricType
    pub value : Num
    pub threshold : Num
    pub timestamp : ℕ

  abbrev pub head_disk : List DiskPartition → Option DiskPartition
  head_disk [] = none
  head_disk (d ∷ _) = some d

  -- `find(…) || metrics.disk[0]`.
  abbrev pub primary_disk : List DiskPartition → Option DiskPartition
  primary_disk disks = elim (find (λ d. str_eq d.mountpoint "/") disks) [
    | some d ↦ some d
    | none ↦ head_disk disks
  ]

  abbrev pub sum_rx : Num → List NetworkInterface → Num
  sum_rx s [] = s
  sum_rx s (n ∷ ns) = sum_rx (add s n.rx_bytes) ns

  abbrev pub sum_tx : Num → List NetworkInterface → Num
  sum_tx s [] = s
  sum_tx s (n ∷ ns) = sum_tx (add s n.tx_bytes) ns

  unfoldable pub extract_metric_value : SystemMetrics → MetricType → Option Num
  extract_metric_value m cpu_percent = some m.cpu
  extract_metric_value m memory_percent = some m.memory
  extract_metric_value m disk_percent = elim (primary_disk m.disk) [
    | some d ↦ some d.percent
    | none ↦ none
  ]
  extract_metric_value m network_rx_bytes = some (sum_rx zero m.network)
  extract_metric_value m network_tx_bytes = some (sum_tx zero m.network)
  extract_metric_value m _ = none

  unfoldable pub check_operator : Num → Operator → Num → Bool
  check_operator value gt threshold = greater value threshold
  check_operator value lt threshold = greater threshold value
  check_operator value eq threshold = equal value threshold

  -- `Math.ceil(rule.durationSeconds / 5)`.
  unfoldable pub required_breaches : AlertRule → ℕ
  required_breaches rule = (rule.duration_seconds + 4) / 5

  -- `rule.lastTriggeredAt && now - rule.lastTriggeredAt < rule.cooldownMinutes * 60 * 1000`; the
  -- time 0 counts as never, and a clock that went back as recent.
  unfoldable pub in_cooldown : ℕ → AlertRule → Bool
  in_cooldown now rule = elim rule.last_triggered_at [
    | none ↦ false
    | some t ↦ ltb 0 t && ltb now (t + rule.cooldown_minutes * 60 * 1000)
  ]

  -- The branches of `dispatch`.
  abbrev pub sends : List Channel → Channel → Option Bool → List Channel
  sends channels c none = []
  sends channels c (some enabled) = if any (channel_eq c) channels && enabled then c ∷ [] else []

  unfoldable pub dispatch : AlertRule → Integrations → List Channel
  dispatch rule i =
      sends rule.channels smtp i.smtp_enabled
      ++ (sends rule.channels whatsapp i.whatsapp_enabled
          ++ sends rule.channels telegram i.telegram_enabled)

  -- What one turn of the loop of `evaluate` does to its rule.
  pub record Outcome : Type 0 where
    pub rule : AlertRule
    pub changed : Bool
    pub alert : Option TriggeredAlert
    pub sent : List Channel

  abbrev pub quiet : AlertRule → Bool → Outcome
  quiet rule changed = record { rule = rule; changed = changed; alert = none; sent = [] }

  abbrev pub raise : ℕ → Num → Integrations → AlertRule → Outcome
  raise now value i rule =
      let fired = record rule { last_triggered_at = some now } in
      let alert : TriggeredAlert = record {
        rule_id = rule.id;
        rule_name = rule.name;
        server_id = rule.server_id;
        metric = rule.metric;
        value = value;
        threshold = rule.threshold;
        timestamp = now;
      } in
      record { rule = fired; changed = true; alert = some alert; sent = dispatch fired i }

  unfoldable pub evaluate_value : ℕ → Num → Integrations → AlertRule → Outcome
  unfolding check_operator required_breaches in_cooldown dispatch
  evaluate_value now value i rule =
      let counted = record rule { consecutive_breaches = rule.consecutive_breaches + 1 } in
      if not (check_operator value rule.operator rule.threshold)
      then quiet (record rule { consecutive_breaches = 0 }) true
      else (if ltb counted.consecutive_breaches (required_breaches rule)
          then quiet counted true
          else (if in_cooldown now rule then quiet counted true else raise now value i counted))

  unfoldable pub evaluate_rule : ℕ → SystemMetrics → Integrations → AlertRule → Outcome
  unfolding evaluate_value extract_metric_value
  evaluate_rule now m i rule = elim (extract_metric_value m rule.metric) [
    | none ↦ quiet rule false
    | some value ↦ evaluate_value now value i rule
  ]

  -- The filter of `evaluate`.
  abbrev pub applies : SystemMetrics → AlertRule → Bool
  applies m rule =
      rule.enabled && (str_eq rule.server_id m.server_id && not (is_connection_lost rule.metric))

  -- `updatedRules.find((u) => u.id === r.id) ?? r`.
  abbrev pub updated : List AlertRule → AlertRule → AlertRule
  updated rules r = elim (find (λ u. str_eq u.id r.id) rules) [ some u ↦ u | none ↦ r ]

  unfoldable pub persist_rules : AppData → List AlertRule → AppData
  persist_rules d rules = record d { alert_rules = map (updated rules) d.alert_rules }

  -- The loop of `evaluate`.
  unfoldable pub outcomes : ℕ → SystemMetrics → Integrations → List AlertRule → List Outcome
  outcomes now m i [] = []
  outcomes now m i (rule ∷ more) = evaluate_rule now m i rule ∷ outcomes now m i more

  unfoldable pub evaluate : ℕ → SystemMetrics → AppData → AppData × List Outcome
  unfolding outcomes persist_rules
  evaluate now m d =
      let done = outcomes now m d.integrations (select (applies m) d.alert_rules) in
      (if any (λ o. o.changed) done then persist_rules d (map (λ o. o.rule) done) else d, done)
