-- ===== src/Platform/Collector/Retention.antt =====
-- The deletion of old rows (`cleanRetention`). The plan of a workspace enters as its days of retention,
-- which the query takes as 1 where the plan does not say; a workspace without a subscription has none.
use monitc.Prelude.{
  ℕ, ◌+◌, ◌*◌, Bool, true, false, ◌||◌, ◌&&◌, not, Option, none, some, List, [], ◌∷◌, ◌≡◌, refl,
  arith, map, select, any, all, if◌then◌else◌, ◌==◌, ltb,
}
use monitc.Platform.Collector.{ConnectionStatus, connected, offline}

pub data Source : Type 0 where
  agent ssh : Source

-- A row of `system_metric_samples` or `kubernetes_pod_samples`.
pub record Sample : Type 0 where
  pub workspace_id : ℕ
  pub source : Source
  pub sampled_at : ℕ

-- A row of `system_metric_rollups_1m`.
pub record Rollup : Type 0 where
  pub workspace_id : ℕ
  pub bucket_at : ℕ

pub record Plan : Type 0 where
  pub workspace_id : ℕ
  pub retention_days : Option ℕ

pub data AgentStatus : Type 0 where
  agent_paired agent_connected agent_degraded agent_offline agent_revoked : AgentStatus

pub record AgentRow : Type 0 where
  pub server_id : ℕ
  pub status : AgentStatus
  pub last_seen_at : Option ℕ

pub record Server : Type 0 where
  pub id : ℕ
  pub status : ConnectionStatus

pub record Tables : Type 0 where
  pub plans : List Plan
  pub samples : List Sample
  pub pods : List Sample
  pub rollups : List Rollup
  pub containers : List ℕ
  pub pairing_tokens : List ℕ
  pub refresh_sessions : List ℕ
  pub agents : List AgentRow
  pub servers : List Server

abbrev pub day : ℕ
day = 86400000

abbrev pub days_of : Plan → ℕ
days_of p = elim p.retention_days [ none ↦ 1 | some d ↦ d ]

-- `t < now() - ms`.
abbrev pub is_older : ℕ → ℕ → ℕ → Bool
is_older now ms t = ltb (t + ms) now

abbrev pub age_limit : Source → Plan → ℕ
age_limit agent p = day
age_limit ssh p = days_of p * day

abbrev pub expires_sample : ℕ → Plan → Sample → Bool
expires_sample now p s =
    p.workspace_id == s.workspace_id && is_older now (age_limit s.source p) s.sampled_at

abbrev pub expires_rollup : ℕ → Plan → Rollup → Bool
expires_rollup now p r =
    p.workspace_id == r.workspace_id && is_older now (days_of p * day) r.bucket_at

-- `DELETE … USING plans WHERE …`.
abbrev pub keeps_sample : ℕ → List Plan → Sample → Bool
keeps_sample now plans s = not (any (λ p. expires_sample now p s) plans)

abbrev pub keeps_rollup : ℕ → List Plan → Rollup → Bool
keeps_rollup now plans r = not (any (λ p. expires_rollup now p r) plans)

abbrev pub is_silent : ℕ → AgentRow → Bool
is_silent now a = elim a.status [
  | agent_connected ↦ elim a.last_seen_at [ none ↦ false | some t ↦ is_older now 90000 t ]
  | _ ↦ false
]

abbrev pub set_silent : ℕ → AgentRow → AgentRow
set_silent now a = if is_silent now a then record a { status = agent_offline } else a

abbrev pub is_offline_at : ℕ → AgentRow → Bool
is_offline_at server a = a.server_id == server && elim a.status [ agent_offline ↦ true | _ ↦ false ]

abbrev pub is_connected : ConnectionStatus → Bool
is_connected connected = true
is_connected _ = false

abbrev pub set_offline : List AgentRow → Server → Server
set_offline agents s =
    if is_connected s.status && any (is_offline_at s.id) agents
    then record s { status = offline }
    else s

unfoldable pub clean_retention : ℕ → Tables → Tables
clean_retention now t =
    let agents = map (set_silent now) t.agents in
    record t {
      samples = select (keeps_sample now t.plans) t.samples;
      pods = select (keeps_sample now t.plans) t.pods;
      rollups = select (keeps_rollup now t.plans) t.rollups;
      containers = select (λ at. not (is_older now day at)) t.containers;
      pairing_tokens = select (λ at. not (is_older now (7 * day) at)) t.pairing_tokens;
      agents = agents;
      servers = map (set_offline agents) t.servers;
      refresh_sessions = select (λ at. not (is_older now (7 * day) at)) t.refresh_sessions;
    }

-- No server is connected whose agent is offline or silent for a minute and a half.
abbrev pub is_right : ℕ → List AgentRow → Server → Bool
is_right now agents s =
    not (is_connected s.status)
    || all (λ a. not (a.server_id == s.id) || not (is_silent now a) && not (is_offline_at s.id a))
        agents

set_offline-any :
    (now server : ℕ) (agents : List AgentRow)
    → any (is_offline_at server) (map (set_silent now) agents) ≡ false
    → all
        (λ a. not (a.server_id == server) || not (is_silent now a) && not (is_offline_at server a))
        (map (set_silent now) agents)
      ≡ true
set_offline-any now server [] h = refl
set_offline-any now server (a ∷ agents) h = ground (arith, set_offline-any now server agents)

servers_right :
    (now : ℕ) (agents : List AgentRow) (servers : List Server)
    → all
        (is_right now (map (set_silent now) agents))
        (map (set_offline (map (set_silent now) agents)) servers)
      ≡ true
servers_right now agents [] = refl
servers_right now agents (s ∷ servers) =
    ground (arith, set_offline-any now s.id agents, servers_right now agents servers)

-- After a cleaning no server is shown as connected that has an agent which is offline, or which was last
-- heard of more than a minute and a half ago.
pub clean_retention-servers :
    (now : ℕ) (t : Tables)
    → all (is_right now (clean_retention now t).agents) (clean_retention now t).servers ≡ true
unfolding clean_retention
clean_retention-servers now t = servers_right now t.agents t.servers
