-- ===== src/Platform/Evaluator/Cooldown.antt =====
-- How far apart the events of a rule and a server are triggered.
use monitc.Prelude.{
  ◌∙◌, ap, ltb, leb, ℕ, ◌+◌, ◌*◌, ◌≤◌, Bool, true, false, ◌||◌, ◌&&◌, not, List, [], ◌∷◌, ◌++◌, ◌≡◌,
  refl, arith, map, any, all, select, Bool-cases, inl, inr,
}
use monitc.Number.{Number}
use monitc.Platform.Evaluator.{
  Key, key_eq, AlertEvent, AlertRuleRow, Sample, Input, key_of, resolve, is_recent, new_event,
  breaches, is_sustained, evaluate_rule, evaluate_rules, evaluate_system_alerts, applies,
}
use monitc.Platform.Evaluator.Opened.{Call, run}

module _ (𝓷 : Number) where
  -- An event of another key, or one that is triggered more than so many seconds before the time.
  abbrev pub is_past : Key → ℕ → ℕ → AlertEvent 𝓷 → Bool
  is_past k seconds time e = not (key_eq e.key k) || ltb (e.triggered_at + seconds * 1000) time

  -- Each two events of the key, in their order, are triggered more than so many seconds apart.
  abbrev pub is_spaced : Key → ℕ → List (AlertEvent 𝓷) → Bool
  is_spaced k seconds [] = true
  is_spaced k seconds (e ∷ es) =
      all (λ x. not (key_eq x.key k) || is_past k seconds x.triggered_at e) es
      && is_spaced k seconds es

  -- The rule, if it is that of the key, has at least so long a cooldown.
  abbrev pub is_slow : Key → ℕ → Input 𝓷 → AlertRuleRow 𝓷 → Bool
  is_slow k seconds i r = not (key_eq (key_of 𝓷 i r) k) || leb seconds r.cooldown_seconds

  abbrev pub is_slow_call : Key → ℕ → Call 𝓷 → Bool
  is_slow_call k seconds c = all (is_slow k seconds c.input) c.rules

  later-resolve :
      (k : Key) (seconds : ℕ) (i : Input 𝓷) (own : Key) (e f : AlertEvent 𝓷)
      (es : List (AlertEvent 𝓷))
      → f.key ≡ e.key
      → f.triggered_at ≡ e.triggered_at
      → all
          (λ x. not (key_eq x.key k) || is_past k seconds x.triggered_at f)
          (map (resolve 𝓷 i own) es)
        ≡ all (λ x. not (key_eq x.key k) || is_past k seconds x.triggered_at e) es
  later-resolve k seconds i own e f [] p q = refl
  later-resolve k seconds i own e f (x ∷ es) p q =
      ground (arith, p, q, later-resolve k seconds i own e f es p q)

  is_spaced-resolve :
      (k : Key) (seconds : ℕ) (i : Input 𝓷) (own : Key) (es : List (AlertEvent 𝓷))
      → is_spaced k seconds (map (resolve 𝓷 i own) es) ≡ is_spaced k seconds es
  is_spaced-resolve k seconds i own [] = refl
  is_spaced-resolve k seconds i own (e ∷ es) =
      let rest = is_spaced-resolve k seconds i own es in
      ap (λ (b : Bool). b && is_spaced k seconds (map (resolve 𝓷 i own) es))
        (later-resolve k seconds i own e (resolve 𝓷 i own e) es (ground arith) (ground arith))
      ∙ ap
          (λ (b : Bool).
            all (λ x. not (key_eq x.key k) || is_past k seconds x.triggered_at e) es && b)
          rest

  later-append :
      (k : Key) (seconds : ℕ) (e x : AlertEvent 𝓷) (es : List (AlertEvent 𝓷))
      → all (λ y. not (key_eq y.key k) || is_past k seconds y.triggered_at e) es ≡ true
      → (not (key_eq x.key k) || is_past k seconds x.triggered_at e) ≡ true
      → all (λ y. not (key_eq y.key k) || is_past k seconds y.triggered_at e) (es ++ x ∷ []) ≡ true
  later-append k seconds e x [] h p = ground (arith, p)
  later-append k seconds e x (y ∷ es) h p = ground (arith, h, p, later-append k seconds e x es)

  is_spaced-append :
      (k : Key) (seconds : ℕ) (x : AlertEvent 𝓷) (es : List (AlertEvent 𝓷))
      → is_spaced k seconds es ≡ true
      → (not (key_eq x.key k) || all (is_past k seconds x.triggered_at) es) ≡ true
      → is_spaced k seconds (es ++ x ∷ []) ≡ true
  is_spaced-append k seconds x [] h p = refl
  is_spaced-append k seconds x (e ∷ es) h p =
      ground (arith, h, p, later-append k seconds e x es, is_spaced-append k seconds x es)

  not_recent-past :
      (k : Key) (seconds : ℕ) (i : Input 𝓷) (r : AlertRuleRow 𝓷) (es : List (AlertEvent 𝓷))
      → any (is_recent 𝓷 i r) es ≡ false
      → key_eq (key_of 𝓷 i r) k ≡ true
      → seconds ≤ r.cooldown_seconds
      → all (is_past k seconds i.sampled_at) es ≡ true
  not_recent-past k seconds i r [] h e l = refl
  not_recent-past k seconds i r (x ∷ es) h e l = ground (arith, not_recent-past k seconds i r es)

  new_event-past :
      (k : Key) (seconds : ℕ) (i : Input 𝓷) (r : AlertRuleRow 𝓷) (es : List (AlertEvent 𝓷))
      → is_slow k seconds i r ≡ true
      → any (is_recent 𝓷 i r) es ≡ false
      → (not (key_eq (key_of 𝓷 i r) k) || all (is_past k seconds i.sampled_at) es) ≡ true
  new_event-past k seconds i r es s h = elim (Bool-cases (key_eq (key_of 𝓷 i r) k)) [
    | inl e ↦ rw e (not_recent-past k seconds i r es h e (ground (arith, s, e)))
    | inr e ↦ rw e refl
  ]

  evaluate_rule-spaced :
      (k : Key) (seconds : ℕ) (i : Input 𝓷) (samples : List (Sample 𝓷)) (r : AlertRuleRow 𝓷)
      (es : List (AlertEvent 𝓷))
      → is_slow k seconds i r ≡ true
      → is_spaced k seconds es ≡ true
      → is_spaced k seconds (evaluate_rule 𝓷 i samples r es) ≡ true
  unfolding evaluate_rule
  evaluate_rule-spaced k seconds i samples r es s h = elim (Bool-cases (breaches 𝓷 i r)) [
    | inr b ↦ rw (b, is_spaced-resolve k seconds i (key_of 𝓷 i r) es) h
    | inl b ↦ elim (Bool-cases (is_sustained 𝓷 i r samples)) [
      | inr d ↦ rw (b, d) h
      | inl d ↦ elim (Bool-cases (any (is_recent 𝓷 i r) es)) [
        | inl q ↦ rw (b, d, q) h
        | inr q ↦
            rw (b, d, q)
              (is_spaced-append k seconds (new_event 𝓷 i r) es h
                (new_event-past k seconds i r es s q))
      ]
    ]
  ]

  evaluate_rules-spaced :
      (k : Key) (seconds : ℕ) (i : Input 𝓷) (samples : List (Sample 𝓷))
      (rules : List (AlertRuleRow 𝓷)) (es : List (AlertEvent 𝓷))
      → all (is_slow k seconds i) rules ≡ true
      → is_spaced k seconds es ≡ true
      → is_spaced k seconds (evaluate_rules 𝓷 i samples (select (applies 𝓷 i) rules) es) ≡ true
  unfolding evaluate_rules
  evaluate_rules-spaced k seconds i samples [] es s h = h
  evaluate_rules-spaced k seconds i samples (r ∷ rules) es s h = elim (Bool-cases (applies 𝓷 i r)) [
    | inl a ↦
        rw (a, evaluate_rules)
          (evaluate_rules-spaced k seconds i samples rules (evaluate_rule 𝓷 i samples r es)
            (ground (arith, s))
            (evaluate_rule-spaced k seconds i samples r es (ground (arith, s)) h))
    | inr a ↦ rw a (evaluate_rules-spaced k seconds i samples rules es (ground (arith, s)) h)
  ]

  -- Over any sequence of evaluations, with any samples and changing rules, each two events of a rule for
  -- one server are triggered more than so many seconds apart and stand in this order, if they were so
  -- before and the rule's cooldown never is shorter than that.
  pub run-spaced :
      (k : Key) (seconds : ℕ) (cs : List (Call 𝓷)) (es : List (AlertEvent 𝓷))
      → all (is_slow_call k seconds) cs ≡ true
      → is_spaced k seconds es ≡ true
      → is_spaced k seconds (run 𝓷 cs es) ≡ true
  unfolding run evaluate_system_alerts
  run-spaced k seconds [] es s h = h
  run-spaced k seconds (c ∷ cs) es s h =
      run-spaced k seconds cs (evaluate_system_alerts 𝓷 c.input c.samples c.rules es)
        (ground (arith, s))
        (evaluate_rules-spaced k seconds c.input c.samples c.rules es (ground (arith, s)) h)
