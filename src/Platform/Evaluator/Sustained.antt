-- ===== src/Platform/Evaluator/Sustained.antt =====
-- When a breach lasts long enough for an event.
use monitc.Prelude.{
  ◌+◌, ◌*◌, Bool, ◌||◌, ◌&&◌, not, List, [], ◌∷◌, ◌≡◌, refl, arith, all, any, select, ◌==◌, leb,
}
use monitc.Number.{Number}
use monitc.Platform.Evaluator.{
  AlertRuleRow, Sample, Input, in_window, covers, earliest, matches, value_of, tolerance,
  is_sustained,
}

module _ (𝓷 : Number) (i : Input 𝓷) (r : AlertRuleRow 𝓷) where
  abbrev pub is_breached : Sample 𝓷 → Bool
  is_breached s = matches 𝓷 (value_of 𝓷 s.values r.metric) r.operator r.threshold

  -- The sample is close to the start of the window.
  abbrev pub is_early : Sample 𝓷 → Bool
  is_early s =
      leb (s.sampled_at + r.duration_seconds * 1000) (i.sampled_at + tolerance 𝓷 i.minimum_poll)

  all-select :
      (p q : Sample 𝓷 → Bool) (ss : List (Sample 𝓷))
      → all q (select p ss) ≡ all (λ s. not (p s) || q s) ss
  all-select p q [] = refl
  all-select p q (s ∷ ss) = ground (arith, all-select p q ss)

  any-select :
      (p q : Sample 𝓷 → Bool) (ss : List (Sample 𝓷))
      → any q (select p ss) ≡ any (λ s. p s && q s) ss
  any-select p q [] = refl
  any-select p q (s ∷ ss) = ground (arith, any-select p q ss)

  covers-earliest : (ss : List (Sample 𝓷)) → covers 𝓷 i r (earliest 𝓷 ss) ≡ any is_early ss
  unfolding earliest
  covers-earliest [] = refl
  covers-earliest (s ∷ ss) = ground (arith, covers-earliest ss)

  -- A rule without a duration holds at once. Any other is sustained exactly when every stored sample of
  -- the window breaches and the window has a sample no later than its start plus the tolerance.
  pub is_sustained_lem :
      (ss : List (Sample 𝓷))
      → is_sustained 𝓷 i r ss ≡ (
          r.duration_seconds == 0
          || all (λ s. not (in_window 𝓷 i r s) || is_breached s) ss
            && any (λ s. in_window 𝓷 i r s && is_early s) ss)
  unfolding is_sustained
  is_sustained_lem ss = ground (
    arith,
    all-select (in_window 𝓷 i r) is_breached ss,
    covers-earliest (select (in_window 𝓷 i r) ss),
    any-select (in_window 𝓷 i r) is_early ss,
  )
