-- ===== src/Platform/Evaluator.antt =====
-- The alert rules of the platform, platform/apps/api/src/services/alert-evaluator.ts, over the tables
-- `alert_rules`, `alert_events` and `system_metric_samples`. Identifiers are numbers; the least time
-- between two samples is in whole milliseconds.
pub mod Opened
pub mod Cooldown
pub mod Sustained
mod Tests
use monitc.Prelude.{
  ℕ, ◌+◌, ◌*◌, ◌/◌, min, max, Bool, true, false, ◌||◌, ◌&&◌, not, Option, none, some, List, [], ◌∷◌,
  ◌++◌, map, any, all, select, if◌then◌else◌, ◌==◌, leb,
}
use monitc.Number.{Number}

pub data Metric : Type 0 where
  cpu memory disk network_rx network_tx : Metric

pub data Operator : Type 0 where
  gt gte lt lte eq : Operator

pub data EventStatus : Type 0 where
  opened resolved : EventStatus

-- The rule and the server that an event belongs to, with their workspace.
pub record Key : Type 0 where
  pub workspace_id : ℕ
  pub rule_id : ℕ
  pub server_id : ℕ

abbrev pub key_eq : Key → Key → Bool
key_eq a b =
    a.workspace_id == b.workspace_id && (a.rule_id == b.rule_id && a.server_id == b.server_id)

abbrev pub is_open : EventStatus → Bool
is_open opened = true
is_open resolved = false

module _ (𝓷 : Number) where
  open 𝓷 use {Num, greater, equal, is_finite}

  pub record MetricValues : Type 0 where
    pub cpu : Num
    pub memory : Num
    pub disk : Num
    pub network_rx : Num
    pub network_tx : Num

  pub record AlertRuleRow : Type 0 where
    pub id : ℕ
    pub workspace_id : ℕ
    pub server_id : Option ℕ
    pub enabled : Bool
    pub metric : Metric
    pub operator : Operator
    pub threshold : Num
    pub duration_seconds : ℕ
    pub cooldown_seconds : ℕ

  pub record AlertEvent : Type 0 where
    pub key : Key
    pub value : Num
    pub status : EventStatus
    pub triggered_at : ℕ
    pub resolved_at : Option ℕ

  pub record Sample : Type 0 where
    pub workspace_id : ℕ
    pub server_id : ℕ
    pub sampled_at : ℕ
    pub values : MetricValues

  -- The argument of `evaluateSystemAlerts`.
  pub record Input : Type 0 where
    pub workspace_id : ℕ
    pub server_id : ℕ
    pub sampled_at : ℕ
    pub minimum_poll : ℕ
    pub values : MetricValues

  -- `input.values[rule.metric]`, and the column of the metric.
  abbrev pub value_of : MetricValues → Metric → Num
  value_of v cpu = v.cpu
  value_of v memory = v.memory
  value_of v disk = v.disk
  value_of v network_rx = v.network_rx
  value_of v network_tx = v.network_tx

  unfoldable pub matches : Num → Operator → Num → Bool
  matches value gt threshold = greater value threshold
  matches value gte threshold = greater value threshold || equal value threshold
  matches value lt threshold = greater threshold value
  matches value lte threshold = greater threshold value || equal value threshold
  matches value eq threshold = equal value threshold

  -- The WHERE clause of the first query.
  abbrev pub for_server : ℕ → Option ℕ → Bool
  for_server server none = true
  for_server server (some s) = s == server

  abbrev pub applies : Input → AlertRuleRow → Bool
  applies i r =
      r.workspace_id == i.workspace_id && (r.enabled && for_server i.server_id r.server_id)

  abbrev pub key_of : Input → AlertRuleRow → Key
  key_of i r = record { workspace_id = i.workspace_id; rule_id = r.id; server_id = i.server_id }

  -- The samples of the duration: `sampled_at >= $4 - duration`.
  abbrev pub in_window : Input → AlertRuleRow → Sample → Bool
  in_window i r s =
      s.workspace_id == i.workspace_id
      && (s.server_id == i.server_id && leb i.sampled_at (s.sampled_at + r.duration_seconds * 1000))

  -- `min(sampled_at)`.
  unfoldable pub earliest : List Sample → Option ℕ
  earliest [] = none
  earliest (s ∷ more) = elim (earliest more) [
    | none ↦ some s.sampled_at
    | some t ↦ some (min s.sampled_at t)
  ]

  unfoldable pub tolerance : ℕ → ℕ
  tolerance minimum_poll = max 2000 (min 5000 (minimum_poll / 4))

  -- `oldest <= coverageStart + tolerance`.
  abbrev pub covers : Input → AlertRuleRow → Option ℕ → Bool
  covers i r none = false
  covers i r (some oldest) =
      leb (oldest + r.duration_seconds * 1000) (i.sampled_at + tolerance i.minimum_poll)

  unfoldable pub is_sustained : Input → AlertRuleRow → List Sample → Bool
  unfolding earliest tolerance
  is_sustained i r samples =
      let window = select (in_window i r) samples in
      r.duration_seconds == 0
      || all (λ s. matches (value_of s.values r.metric) r.operator r.threshold) window
        && covers i r (earliest window)

  -- `UPDATE alert_events SET status = 'resolved' … WHERE … status = 'open'`.
  abbrev pub resolve : Input → Key → AlertEvent → AlertEvent
  resolve i k e =
      if key_eq e.key k && is_open e.status
      then record e { status = resolved; resolved_at = some i.sampled_at }
      else e

  -- An event that is open or within the cooldown.
  abbrev pub is_recent : Input → AlertRuleRow → AlertEvent → Bool
  is_recent i r e =
      key_eq e.key (key_of i r)
      && (is_open e.status || leb i.sampled_at (e.triggered_at + r.cooldown_seconds * 1000))

  abbrev pub new_event : Input → AlertRuleRow → AlertEvent
  new_event i r = record {
    key = key_of i r;
    value = value_of i.values r.metric;
    status = opened;
    triggered_at = i.sampled_at;
    resolved_at = none;
  }

  abbrev pub breaches : Input → AlertRuleRow → Bool
  breaches i r =
      is_finite (value_of i.values r.metric)
      && matches (value_of i.values r.metric) r.operator r.threshold

  -- One turn of the loop.
  unfoldable pub evaluate_rule :
      Input → List Sample → AlertRuleRow → List AlertEvent → List AlertEvent
  evaluate_rule i samples r events =
      if not (breaches i r)
      then map (resolve i (key_of i r)) events
      else (if not (is_sustained i r samples)
          then events
          else (if any (is_recent i r) events then events else events ++ new_event i r ∷ []))

  unfoldable pub evaluate_rules :
      Input → List Sample → List AlertRuleRow → List AlertEvent → List AlertEvent
  evaluate_rules i samples [] events = events
  evaluate_rules i samples (r ∷ rules) events =
      evaluate_rules i samples rules (evaluate_rule i samples r events)

  unfoldable pub evaluate_system_alerts :
      Input → List Sample → List AlertRuleRow → List AlertEvent → List AlertEvent
  unfolding evaluate_rules
  evaluate_system_alerts i samples rules events =
      evaluate_rules i samples (select (applies i) rules) events
