-- ===== src/Desktop/Alerts/Frame.antt =====
-- Which rules one evaluation changes. The engine writes rules back by their ids; where the ids are
-- distinct, that is the evaluation of each rule in its place.
use monitc.Prelude.{
  ◌||◌, inr, inl, Bool, ◌∙◌, str_eq_iff, Bool-cases, true, any, ℕ, String, false, List, [], ◌∷◌,
  ◌≡◌, refl, arith, if◌then◌else◌, str_eq, select, map, All,
}
use monitc.Number.{Number}
use monitc.Desktop.Alerts.{
  persist_rules, AppData, evaluate, AlertRule, SystemMetrics, Integrations, evaluate_rule, applies,
  updated, outcomes,
}

or_false : (a b : Bool) → (a || b) ≡ false → (a ≡ false) × (b ≡ false)
or_false a b h = ground arith

module _ (𝓷 : Number) where
  abbrev pub Fresh : String → List (AlertRule 𝓷) → Type 0
  Fresh id rules = All (λ u. str_eq id u.id ≡ false) rules

  abbrev pub Distinct : List (AlertRule 𝓷) → Type 0
  Distinct [] = Unit
  Distinct (r ∷ rules) = Fresh r.id rules × Distinct rules

  updated_other :
      (x r : AlertRule 𝓷) (rules : List (AlertRule 𝓷))
      → str_eq x.id r.id ≡ false
      → updated 𝓷 (x ∷ rules) r ≡ updated 𝓷 rules r
  updated_other x r rules h = rw (h, updated)

  updated_same :
      (x r : AlertRule 𝓷) (rules : List (AlertRule 𝓷))
      → str_eq x.id r.id ≡ true
      → updated 𝓷 (x ∷ rules) r ≡ x
  updated_same x r rules h = rw (h, updated)

  evaluate_rule-id :
      (now : ℕ) (m : SystemMetrics 𝓷) (i : Integrations) (r : AlertRule 𝓷)
      → (evaluate_rule 𝓷 now m i r).rule.id ≡ r.id
  unfolding evaluate_rule
  evaluate_rule-id now m i r = ground arith

  evaluate_rule_unchanged :
      (now : ℕ) (m : SystemMetrics 𝓷) (i : Integrations) (r : AlertRule 𝓷)
      → (evaluate_rule 𝓷 now m i r).changed ≡ false
      → (evaluate_rule 𝓷 now m i r).rule ≡ r
  unfolding evaluate_rule
  evaluate_rule_unchanged now m i r h = ground arith

  module _ (now : ℕ) (m : SystemMetrics 𝓷) (i : Integrations) where
    -- One rule evaluated in its place.
    pub in_place : AlertRule 𝓷 → AlertRule 𝓷
    in_place r = if applies 𝓷 m r then (evaluate_rule 𝓷 now m i r).rule else r

    abbrev written : List (AlertRule 𝓷) → List (AlertRule 𝓷)
    written rules = map (λ o. o.rule) (outcomes 𝓷 now m i (select (applies 𝓷 m) rules))

    written_skip :
        (u : AlertRule 𝓷) (rules : List (AlertRule 𝓷))
        → applies 𝓷 m u ≡ false
        → written (u ∷ rules) ≡ written rules
    written_skip u rules e = rw e

    written_hit :
        (u : AlertRule 𝓷) (rules : List (AlertRule 𝓷))
        → applies 𝓷 m u ≡ true
        → written (u ∷ rules) ≡ (evaluate_rule 𝓷 now m i u).rule ∷ written rules
    unfolding outcomes
    written_hit u rules e = rw e

    -- What is written for other rules does not reach a rule.
    updated_skip :
        (u r : AlertRule 𝓷) (rules : List (AlertRule 𝓷))
        → str_eq u.id r.id ≡ false
        → updated 𝓷 (written (u ∷ rules)) r ≡ updated 𝓷 (written rules) r
    updated_skip u r rules f = elim (Bool-cases (applies 𝓷 m u)) [
      | inl e ↦
          rw (written_hit u rules e)
            (updated_other _ r (written rules) (rw (evaluate_rule-id now m i u) f))
      | inr e ↦ rw (written_skip u rules e)
    ]

    updated_fresh :
        (rules : List (AlertRule 𝓷)) (r : AlertRule 𝓷)
        → All (λ u. str_eq u.id r.id ≡ false) rules
        → updated 𝓷 (written rules) r ≡ r
    unfolding outcomes
    updated_fresh [] r f = refl
    updated_fresh (u ∷ rules) r (f, fs) = updated_skip u r rules f ∙ updated_fresh rules r fs

    updated_self :
        (r : AlertRule 𝓷) (rules : List (AlertRule 𝓷))
        → All (λ u. str_eq u.id r.id ≡ false) rules
        → updated 𝓷 (written (r ∷ rules)) r ≡ in_place r
    unfolding in_place
    updated_self r rules f = elim (Bool-cases (applies 𝓷 m r)) [
      | inl e ↦
          rw (written_hit r rules e, e)
            (updated_same _ r (written rules)
              (rw (evaluate_rule-id now m i r) ((str_eq_iff r.id r.id).1 refl)))
      | inr e ↦ rw (written_skip r rules e, e) (updated_fresh rules r f)
    ]

    updated_tail :
        (r : AlertRule 𝓷) (rules rest : List (AlertRule 𝓷))
        → All (λ u. str_eq r.id u.id ≡ false) rest
        → map (updated 𝓷 (written (r ∷ rules))) rest ≡ map (updated 𝓷 (written rules)) rest
    updated_tail r rules [] f = refl
    updated_tail r rules (u ∷ rest) (f, fs) =
        rw (updated_skip r u rules f, updated_tail r rules rest fs)

    Fresh-turned :
        (id : String) (rules : List (AlertRule 𝓷))
        → Fresh id rules
        → All (λ u. str_eq u.id id ≡ false) rules
    Fresh-turned id [] f = tt
    Fresh-turned id (u ∷ rules) (f, fs) =
        (ground (arith, str_eq_iff id u.id, str_eq_iff u.id id), Fresh-turned id rules fs)

    written-in_place :
        (rules : List (AlertRule 𝓷))
        → Distinct rules
        → map (updated 𝓷 (written rules)) rules ≡ map in_place rules
    written-in_place [] d = refl
    written-in_place (r ∷ rules) (f, d) = rw (
      updated_self r rules (Fresh-turned r.id rules f),
      updated_tail r rules rules f,
      written-in_place rules d,
    )

    unchanged-in_place :
        (rules : List (AlertRule 𝓷))
        → any (λ o. o.changed) (outcomes 𝓷 now m i (select (applies 𝓷 m) rules)) ≡ false
        → map in_place rules ≡ rules
    unfolding in_place outcomes
    unchanged-in_place [] h = refl
    unchanged-in_place (r ∷ rules) h = elim (Bool-cases (applies 𝓷 m r)) [
      | inl e ↦
          (let (c, cs) = or_false _ _ (rw e at h) in
            rw e (rw (evaluate_rule_unchanged now m i r c, unchanged-in_place rules cs)))
      | inr e ↦ rw e (rw (unchanged-in_place rules (rw e at h)))
    ]

  -- Where the rules have distinct ids, one evaluation of the metrics of a server is the evaluation,
  -- in its place, of each enabled metric rule of that server; every other rule stays as it is, and
  -- so do the order of the rules and the rest of the data.
  pub evaluate-in_place :
      (now : ℕ) (m : SystemMetrics 𝓷) (d : AppData 𝓷)
      → Distinct d.alert_rules
      → (evaluate 𝓷 now m d).0
        ≡ record d { alert_rules = map (in_place now m d.integrations) d.alert_rules }
  unfolding evaluate persist_rules
  evaluate-in_place now m d h =
      elim (Bool-cases (
        any (λ o. o.changed)
          (outcomes 𝓷 now m d.integrations (select (applies 𝓷 m) d.alert_rules)))) [
            | inl e ↦ rw e (rw (written-in_place now m d.integrations d.alert_rules h))
            | inr e ↦ rw e (rw (unchanged-in_place now m d.integrations d.alert_rules e))
          ]
