-- ===== src/Desktop/Alerts/Evaluation.antt =====
-- A metric rule over the history of its samples, newest first.
use monitc.Prelude.{
  ℕ, suc, ◌≤◌, Bool, true, false, List, [], ◌∷◌, ◌≡◌, ◌↔◌, refl, arith, if◌then◌else◌, is_some,
}
use monitc.Number.{Number}
use monitc.Desktop.Alerts.{
  AlertRule, Integrations, check_operator, required_breaches, in_cooldown, evaluate_value,
}

module _ (𝓷 : Number) (i : Integrations) where
  open 𝓷 use {Num}

  -- A sample: its time and its value.
  abbrev pub Sample : Type 0
  Sample = ℕ × Num

  unfoldable pub after : List Sample → AlertRule 𝓷 → AlertRule 𝓷
  after [] rule = rule
  after ((now, value) ∷ older) rule = (evaluate_value 𝓷 now value i (after older rule)).rule

  pub breaches : AlertRule 𝓷 → Sample → Bool
  breaches rule s = check_operator 𝓷 s.1 rule.operator rule.threshold

  -- How many of the latest samples breach, without a gap.
  pub streak : AlertRule 𝓷 → List Sample → ℕ
  unfolding breaches
  streak rule [] = 0
  streak rule (s ∷ older) = let rest = streak rule older in if breaches rule s then suc rest else 0

  -- What no evaluation changes.
  pub record SameRule (r t : AlertRule 𝓷) : Type 0 where
    pub operator : t.operator ≡ r.operator
    pub threshold : t.threshold ≡ r.threshold
    pub duration : t.duration_seconds ≡ r.duration_seconds
    pub cooldown : t.cooldown_minutes ≡ r.cooldown_minutes

  pub after-SameRule : (h : List Sample) (rule : AlertRule 𝓷) → SameRule rule (after h rule)
  unfolding after evaluate_value
  after-SameRule [] rule = record {
    operator = refl;
    threshold = refl;
    duration = refl;
    cooldown = refl;
  }
  after-SameRule ((now, value) ∷ older) rule = ground (arith, after-SameRule older rule)

  pub after-streak :
      (h : List Sample) (rule : AlertRule 𝓷)
      → rule.consecutive_breaches ≡ 0
      → (after h rule).consecutive_breaches ≡ streak rule h
  unfolding after evaluate_value streak
  after-streak [] rule z = z
  after-streak ((now, value) ∷ older) rule z =
      ground (arith, after-streak older rule z, after-SameRule older rule)

  -- A rule that starts with no breach counted raises an alert at a sample exactly when that sample
  -- breaches, the latest samples up to it breach without a gap at least as often as the duration
  -- requires, and the rule is not cooling down.
  pub evaluate_value-alert_iff :
      (now : ℕ) (value : Num) (h : List Sample) (rule : AlertRule 𝓷)
      → rule.consecutive_breaches ≡ 0
      → (is_some (evaluate_value 𝓷 now value i (after h rule)).alert ≡ true) ↔ (
          (breaches rule (now, value) ≡ true)
          × (required_breaches 𝓷 rule ≤ streak rule ((now, value) ∷ h))
          × (in_cooldown 𝓷 now (after h rule) ≡ false))
  unfolding evaluate_value streak
  evaluate_value-alert_iff now value h rule z =
      ground (arith, after-streak h rule z, after-SameRule h rule)
