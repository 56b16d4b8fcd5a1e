-- ===== src/Desktop/Alerts/Tests.antt =====
-- The alert engine on one server, and its theorems at concrete inputs.
use monitc.Prelude.{
  ℕ, ◌*◌, ◌≤◌, String, true, false, none, some, List, [], ◌∷◌, ◌≡◌, ◌↔◌, refl, arith, is_some, map,
}
use monitc.Number.{naturals}
use monitc.Desktop.Connectivity.{connected, disconnected}
use monitc.Desktop.Alerts.{
  AlertRule, SystemMetrics, AppData, Integrations, MetricType, cpu_percent, connection_lost, gt,
  smtp, telegram, evaluate, evaluate_value, required_breaches, in_cooldown,
}
use monitc.Desktop.Alerts.Connection.{Engine, Timer, ConnectionStatus, timer_fires}
use monitc.Desktop.Alerts.Evaluation.{after, breaches, streak, evaluate_value-alert_iff}
use monitc.Desktop.Alerts.Cooldown.{Spaced, alert_times, alert_times-Spaced}
use monitc.Desktop.Alerts.Frame.{in_place, evaluate-in_place}

abbrev rule : String → MetricType → AlertRule naturals
rule id metric = record {
  id = id;
  name = "rule";
  server_id = "a";
  metric = metric;
  operator = gt;
  threshold = 80;
  duration_seconds = 10;
  channels = smtp ∷ telegram ∷ [];
  cooldown_minutes = 1;
  enabled = true;
  last_triggered_at = none;
  consecutive_breaches = 0;
}

abbrev channels : Integrations
channels = record {
  smtp_enabled = some true;
  whatsapp_enabled = none;
  telegram_enabled = some false;
}

abbrev data_of_user : AppData naturals
data_of_user = record {
  alert_rules = rule "1" cpu_percent ∷ rule "2" connection_lost ∷ [];
  integrations = channels;
}

abbrev metrics : SystemMetrics naturals
metrics = record { server_id = "a"; cpu = 91; memory = 10; disk = []; network = [] }

abbrev history : List (ℕ × ℕ)
history = (70000, 95) ∷ (65000, 94) ∷ (10000, 92) ∷ (5000, 90) ∷ []

alerts_raised : alert_times naturals channels history (rule "1" cpu_percent) ≡ 70000 ∷ 10000 ∷ []
unfolding alert_times after evaluate_value
alerts_raised = refl

evaluate_value-alert_iff_example :
    let r = rule "1" cpu_percent in
    let h : List (ℕ × ℕ) = (5000, 90) ∷ [] in
    (is_some (evaluate_value naturals 10000 92 channels (after naturals channels h r)).alert ≡ true)
    ↔ ((breaches naturals channels r (10000, 92) ≡ true)
        × (required_breaches naturals r ≤ streak naturals channels r ((10000, 92) ∷ h))
        × (in_cooldown naturals 10000 (after naturals channels h r) ≡ false))
evaluate_value-alert_iff_example =
    evaluate_value-alert_iff naturals channels 10000 92 ((5000, 90) ∷ []) (rule "1" cpu_percent)
      refl

alert_times-Spaced_example :
    Spaced (1 * 60 * 1000) (alert_times naturals channels history (rule "1" cpu_percent))
alert_times-Spaced_example =
    alert_times-Spaced naturals channels history (rule "1" cpu_percent) refl (omega arith)

evaluate-in_place_example : (evaluate naturals 5000 metrics data_of_user).0 ≡ record data_of_user {
  alert_rules = map (in_place naturals 5000 metrics channels) data_of_user.alert_rules;
}
evaluate-in_place_example = evaluate-in_place naturals 5000 metrics data_of_user (ground arith)

abbrev down : ConnectionStatus
down = record { server_id = "a"; status = disconnected }

abbrev engine : Engine naturals
engine = record { app_data = data_of_user; connection_timers = [] }

abbrev up : ConnectionStatus
up = record { server_id = "a"; status = connected }

abbrev timer : Timer
timer = record { rule_id = "2"; status = down }

fired : is_some (timer_fires naturals 9000 disconnected timer engine).alert ≡ true
unfolding timer_fires
fired = refl
