-- ===== src/Platform/Evaluator/Opened.antt =====
-- How many events of a rule and a server are open.
use monitc.Prelude.{
  ℕ, ◌≤◌, Bool, true, false, ◌&&◌, List, [], ◌∷◌, ◌≡◌, refl, arith, map, any, select, count_if,
  count_if-append,
}
use monitc.Number.{Number}
use monitc.Platform.Evaluator.{
  Key, key_eq, is_open, AlertEvent, AlertRuleRow, Sample, Input, key_of, resolve, is_recent,
  new_event, breaches, evaluate_rule, evaluate_rules, evaluate_system_alerts, applies,
}

module _ (𝓷 : Number) where
  abbrev pub is_open_of : Key → AlertEvent 𝓷 → Bool
  is_open_of k e = key_eq e.key k && is_open e.status

  abbrev pub open_events : Key → List (AlertEvent 𝓷) → ℕ
  open_events k es = count_if (is_open_of k) es

  open_events-map :
      (k : Key) (i : Input 𝓷) (own : Key) (es : List (AlertEvent 𝓷))
      → open_events k (map (resolve 𝓷 i own) es) ≤ open_events k es
  open_events-map k i own [] = omega arith
  open_events-map k i own (e ∷ es) = ground (arith, open_events-map k i own es)

  open_events-resolve :
      (i : Input 𝓷) (k : Key) (es : List (AlertEvent 𝓷))
      → open_events k (map (resolve 𝓷 i k) es) ≡ 0
  open_events-resolve i k [] = refl
  open_events-resolve i k (e ∷ es) = ground (arith, open_events-resolve i k es)

  -- No event of another key, and no recent one of the own key, is open.
  open_events-not_recent :
      (k : Key) (i : Input 𝓷) (r : AlertRuleRow 𝓷) (es : List (AlertEvent 𝓷))
      → any (is_recent 𝓷 i r) es ≡ false
      → key_eq (key_of 𝓷 i r) k ≡ true
      → open_events k es ≡ 0
  open_events-not_recent k i r [] h e = refl
  open_events-not_recent k i r (x ∷ es) h e = ground (arith, open_events-not_recent k i r es)

  evaluate_rule-open_events :
      (k : Key) (i : Input 𝓷) (samples : List (Sample 𝓷)) (r : AlertRuleRow 𝓷)
      (es : List (AlertEvent 𝓷))
      → open_events k es ≤ 1
      → open_events k (evaluate_rule 𝓷 i samples r es) ≤ 1
  unfolding evaluate_rule
  evaluate_rule-open_events k i samples r es h = ground (
    arith,
    open_events-map k i (key_of 𝓷 i r) es,
    open_events-not_recent k i r es,
    count_if-append (is_open_of k) es (new_event 𝓷 i r ∷ []),
  )

  evaluate_rules-open_events :
      (k : Key) (i : Input 𝓷) (samples : List (Sample 𝓷)) (rules : List (AlertRuleRow 𝓷))
      (es : List (AlertEvent 𝓷))
      → open_events k es ≤ 1
      → open_events k (evaluate_rules 𝓷 i samples rules es) ≤ 1
  unfolding evaluate_rules
  evaluate_rules-open_events k i samples [] es h = h
  evaluate_rules-open_events k i samples (r ∷ rules) es h =
      evaluate_rules-open_events k i samples rules (evaluate_rule 𝓷 i samples r es)
        (evaluate_rule-open_events k i samples r es h)

  -- One call of `evaluateSystemAlerts`, with the samples and rules that its queries read.
  pub record Call : Type 0 where
    pub input : Input 𝓷
    pub samples : List (Sample 𝓷)
    pub rules : List (AlertRuleRow 𝓷)

  unfoldable pub run : List Call → List (AlertEvent 𝓷) → List (AlertEvent 𝓷)
  run [] es = es
  run (c ∷ cs) es = run cs (evaluate_system_alerts 𝓷 c.input c.samples c.rules es)

  -- Over any sequence of evaluations, with any samples and changing rules, a rule never has two open
  -- events for one server, if it had at most one before.
  pub run-open_events :
      (k : Key) (cs : List Call) (es : List (AlertEvent 𝓷))
      → open_events k es ≤ 1
      → open_events k (run cs es) ≤ 1
  unfolding run evaluate_system_alerts
  run-open_events k [] es h = h
  run-open_events k (c ∷ cs) es h =
      run-open_events k cs (evaluate_system_alerts 𝓷 c.input c.samples c.rules es)
        (evaluate_rules-open_events k c.input c.samples (select (applies 𝓷 c.input) c.rules) es h)

  -- A rule whose value does not breach, or is no finite number, has no open event for the server
  -- afterwards.
  pub quiet_value_resolves :
      (i : Input 𝓷) (samples : List (Sample 𝓷)) (r : AlertRuleRow 𝓷) (es : List (AlertEvent 𝓷))
      → breaches 𝓷 i r ≡ false
      → open_events (key_of 𝓷 i r) (evaluate_rule 𝓷 i samples r es) ≡ 0
  unfolding evaluate_rule
  quiet_value_resolves i samples r es h = rw h (open_events-resolve i (key_of 𝓷 i r) es)
