-- ===== src/Desktop/Alerts/Cooldown.antt =====
-- Alerts of one rule keep its cooldown apart.
use monitc.Prelude.{ℕ, ◌+◌, ◌*◌, ◌≤◌, ◌<◌, Option, none, some, List, [], ◌∷◌, ◌≡◌, arith, All}
use monitc.Number.{Number}
use monitc.Desktop.Alerts.{AlertRule, Integrations, TriggeredAlert, evaluate_value}
use monitc.Desktop.Alerts.Evaluation.{Sample, after, after-SameRule}

-- Times, newest first, each at least `gap` after the one before it.
abbrev pub Spaced : ℕ → List ℕ → Type 0
Spaced gap [] = Unit
Spaced gap (t ∷ []) = Unit
Spaced gap (t ∷ u ∷ older) = (u + gap ≤ t) × Spaced gap (u ∷ older)

abbrev pub head_time : List ℕ → Option ℕ
head_time [] = none
head_time (t ∷ _) = some t

module _ (𝓷 : Number) (i : Integrations) where
  open 𝓷 use {Num}

  abbrev noted : Option (TriggeredAlert 𝓷) → List ℕ → List ℕ
  noted none older = older
  noted (some a) older = a.timestamp ∷ older

  -- The times of the alerts that a history raises, newest first.
  unfoldable pub alert_times : List (Sample 𝓷 i) → AlertRule 𝓷 → List ℕ
  alert_times [] rule = []
  alert_times ((now, value) ∷ older) rule =
      noted (evaluate_value 𝓷 now value i (after 𝓷 i older rule)).alert (alert_times older rule)

  record IsSpaced (rule : AlertRule 𝓷) (h : List (Sample 𝓷 i)) : Type 0 where
    latest : (after 𝓷 i h rule).last_triggered_at ≡ head_time (alert_times h rule)
    positive : All (λ t. 0 < t) (alert_times h rule)
    spaced : Spaced (rule.cooldown_minutes * 60 * 1000) (alert_times h rule)

  step-IsSpaced :
      (now : ℕ) (value : Num) (h : List (Sample 𝓷 i)) (rule : AlertRule 𝓷) (ts : List ℕ)
      → 0 < now
      → (after 𝓷 i h rule).last_triggered_at ≡ head_time ts
      → All (λ t. 0 < t) ts
      → Spaced (rule.cooldown_minutes * 60 * 1000) ts
      → let done = evaluate_value 𝓷 now value i (after 𝓷 i h rule) in
        (done.rule.last_triggered_at ≡ head_time (noted done.alert ts))
        × All (λ t. 0 < t) (noted done.alert ts)
        × Spaced (rule.cooldown_minutes * 60 * 1000) (noted done.alert ts)
  unfolding evaluate_value
  step-IsSpaced now value h rule [] p l q s = ground (arith, after-SameRule 𝓷 i h rule)
  step-IsSpaced now value h rule (t ∷ ts) p l q s = ground (arith, after-SameRule 𝓷 i h rule)

  history-IsSpaced :
      (h : List (Sample 𝓷 i)) (rule : AlertRule 𝓷)
      → rule.last_triggered_at ≡ none
      → All (λ s. 0 < s.0) h
      → IsSpaced rule h
  unfolding alert_times after
  history-IsSpaced [] rule n p = record { latest = n; positive = tt; spaced = tt }
  history-IsSpaced ((now, value) ∷ older) rule n (p, ps) =
      let ih = history-IsSpaced older rule n ps in
      let (l, q, s) =
        step-IsSpaced now value older rule (alert_times older rule) p ih.latest ih.positive
          ih.spaced in
      record { latest = l; positive = q; spaced = s }

  -- Over any history of samples taken at positive times, a rule that has not been triggered before
  -- raises alerts whose times are at least its cooldown apart.
  pub alert_times-Spaced :
      (h : List (Sample 𝓷 i)) (rule : AlertRule 𝓷)
      → rule.last_triggered_at ≡ none
      → All (λ s. 0 < s.0) h
      → Spaced (rule.cooldown_minutes * 60 * 1000) (alert_times h rule)
  alert_times-Spaced h rule n p = (history-IsSpaced h rule n p).spaced
