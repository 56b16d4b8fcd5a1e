-- ===== src/Platform/Evaluator/Tests.antt =====
-- A rule with a duration and a cooldown, and the theorems at concrete inputs.
use monitc.Prelude.{length, ℕ, ◌≤◌, true, some, List, [], ◌∷◌, ◌≡◌, refl, arith}
use monitc.Number.{naturals}
use monitc.Platform.Evaluator.{
  evaluate_system_alerts, evaluate_rules, AlertEvent, AlertRuleRow, Sample, Input, MetricValues,
  Metric, gt, key_of, new_event, is_sustained, evaluate_rule, matches, earliest, tolerance,
}
use monitc.Platform.Evaluator.Cooldown.{is_spaced, run-spaced}
use monitc.Platform.Evaluator.Opened.{Call, run, run-open_events, open_events}

abbrev values : ℕ → MetricValues naturals
values c = record { cpu = c; memory = 10; disk = 20; network_rx = 0; network_tx = 0 }

abbrev rule : AlertRuleRow naturals
rule = record {
  id = 4;
  workspace_id = 1;
  server_id = some 2;
  enabled = true;
  metric = Metric.cpu;
  operator = gt;
  threshold = 80;
  duration_seconds = 60;
  cooldown_seconds = 300;
}

abbrev input : ℕ → ℕ → Input naturals
input t c = record {
  workspace_id = 1;
  server_id = 2;
  sampled_at = t;
  minimum_poll = 10000;
  values = values c;
}

abbrev sample : ℕ → ℕ → Sample naturals
sample t c = record { workspace_id = 1; server_id = 2; sampled_at = t; values = values c }

abbrev samples : List (Sample naturals)
samples = sample 100000 90 ∷ sample 130000 95 ∷ sample 160000 91 ∷ []

abbrev event : AlertEvent naturals
event = new_event naturals (input 160000 91) rule

opens_one : evaluate_rule naturals (input 160000 91) samples rule [] ≡ event ∷ []
unfolding evaluate_rule is_sustained matches earliest tolerance
opens_one = refl

run-open_events_example :
    let k = key_of naturals (input 0 0) rule in
    let cs : List (Call naturals) =
      record { input = input 160000 91; samples = samples; rules = rule ∷ [] }
      ∷ record { input = input 170000 91; samples = samples; rules = rule ∷ rule ∷ [] }
      ∷ [] in
    open_events naturals k (run naturals cs []) ≤ 1
run-open_events_example =
    run-open_events naturals (key_of naturals (input 0 0) rule)
      (record { input = input 160000 91; samples = samples; rules = rule ∷ [] }
        ∷ record { input = input 170000 91; samples = samples; rules = rule ∷ rule ∷ [] }
        ∷ [])
      [] (omega arith)

-- After the cooldown.
abbrev later_samples : List (Sample naturals)
later_samples = sample 460500 90 ∷ sample 500500 95 ∷ sample 520500 91 ∷ []

abbrev evaluations : List (Call naturals)
evaluations =
    record { input = input 160000 91; samples = samples; rules = rule ∷ [] }
    ∷ record { input = input 170000 50; samples = samples; rules = rule ∷ rule ∷ [] }
    ∷ record { input = input 520500 91; samples = later_samples; rules = rule ∷ [] }
    ∷ []

two_events : length (run naturals evaluations []) ≡ 2
unfolding run evaluate_system_alerts evaluate_rules evaluate_rule is_sustained matches earliest
    tolerance
two_events = refl

run-spaced_example :
    is_spaced naturals (key_of naturals (input 0 0) rule) 300 (run naturals evaluations []) ≡ true
run-spaced_example =
    run-spaced naturals (key_of naturals (input 0 0) rule) 300 evaluations [] refl refl
