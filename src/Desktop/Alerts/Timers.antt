-- ===== src/Desktop/Alerts/Timers.antt =====
-- The timers of the connection rules.
use monitc.Prelude.{
  String, Bool, true, false, List, [], ◌∷◌, ◌++◌, ◌≡◌, refl, arith, if◌then◌else◌, str_eq,
  str_eq_iff, any, select, All, Bool-cases, inl, inr,
}
use monitc.Number.{Number}
use monitc.Desktop.Alerts.{AlertRule}
use monitc.Desktop.Alerts.Connection.{
  Timer, ConnectionStatus, timer_of, clear_connection_timer, clear_timers, set_timers,
}

-- No two timers are for one rule.
abbrev pub Unique : List Timer → Type 0
Unique [] = Unit
Unique (t ∷ ts) = All (λ u. str_eq u.rule_id t.rule_id ≡ false) ts × Unique ts

All-select :
    (p : Timer → Bool) (q : Timer → Type 0) (ts : List Timer) → All q ts → All q (select p ts)
All-select p q [] h = tt
All-select p q (t ∷ ts) (h, hs) = ground (arith, All-select p q ts hs)

pub Unique-select : (p : Timer → Bool) (ts : List Timer) → Unique ts → Unique (select p ts)
Unique-select p [] h = tt
Unique-select p (t ∷ ts) (h, hs) = elim (Bool-cases (p t)) [
  | inl e ↦
      rw e (All-select p (λ u. str_eq u.rule_id t.rule_id ≡ false) ts h, Unique-select p ts hs)
  | inr e ↦ rw e (Unique-select p ts hs)
]

All-add : (q : Timer → Type 0) (ts : List Timer) (t : Timer) → All q ts → q t → All q (ts ++ t ∷ [])
All-add q [] t h p = (p, tt)
All-add q (u ∷ ts) t (h, hs) p = (h, All-add q ts t hs p)

Unique-add :
    (ts : List Timer) (t : Timer)
    → any (timer_of t.rule_id) ts ≡ false
    → Unique ts
    → Unique (ts ++ t ∷ [])
Unique-add [] t n h = (tt, tt)
Unique-add (u ∷ ts) t n (h, hs) = (
  All-add (λ v. str_eq v.rule_id u.rule_id ≡ false) ts t h
      (ground (arith, str_eq_iff t.rule_id u.rule_id, str_eq_iff u.rule_id t.rule_id)),
  Unique-add ts t (ground arith) hs,
)

-- No timer is left for a rule that was cleared, and clearing others brings none back.
pub cleared_gone :
    (id : String) (ts : List Timer) → any (timer_of id) (clear_connection_timer id ts) ≡ false
unfolding clear_connection_timer
cleared_gone id [] = refl
cleared_gone id (t ∷ ts) = ground (arith, cleared_gone id ts)

cleared_still :
    (id other : String) (ts : List Timer)
    → any (timer_of id) ts ≡ false
    → any (timer_of id) (clear_connection_timer other ts) ≡ false
unfolding clear_connection_timer
cleared_still id other [] h = refl
cleared_still id other (t ∷ ts) h = ground (arith, cleared_still id other ts)

added_any :
    (id : String) (ts : List Timer) (t : Timer)
    → any (timer_of id) (ts ++ t ∷ []) ≡ (if any (timer_of id) ts then true else timer_of id t)
added_any id [] t = ground arith
added_any id (u ∷ ts) t = ground (arith, added_any id ts t)

module _ (𝓷 : Number) where
  pub clear_timers-Unique :
      (rules : List (AlertRule 𝓷)) (ts : List Timer) → Unique ts → Unique (clear_timers 𝓷 rules ts)
  unfolding clear_timers
  clear_timers-Unique [] ts h = h
  clear_timers-Unique (r ∷ rules) ts h =
      clear_timers-Unique rules (clear_connection_timer r.id ts) (Unique-select _ ts h)

  pub set_timers-Unique :
      (s : ConnectionStatus) (rules : List (AlertRule 𝓷)) (ts : List Timer)
      → Unique ts
      → Unique (set_timers 𝓷 s rules ts)
  unfolding set_timers
  set_timers-Unique s [] ts h = h
  set_timers-Unique s (r ∷ rules) ts h = elim (Bool-cases (any (timer_of r.id) ts)) [
    | inl e ↦ rw e (set_timers-Unique s rules ts h)
    | inr e ↦ rw e (
        set_timers-Unique s rules (ts ++ record { rule_id = r.id; status = s } ∷ [])
          (Unique-add ts (record { rule_id = r.id; status = s }) e h))
  ]

  cleared_stays :
      (id : String) (rules : List (AlertRule 𝓷)) (ts : List Timer)
      → any (timer_of id) ts ≡ false
      → any (timer_of id) (clear_timers 𝓷 rules ts) ≡ false
  unfolding clear_timers
  cleared_stays id [] ts h = h
  cleared_stays id (r ∷ rules) ts h =
      cleared_stays id rules (clear_connection_timer r.id ts) (cleared_still id r.id ts h)

  pub clear_timers-none :
      (rules : List (AlertRule 𝓷)) (ts : List Timer)
      → All (λ r. any (timer_of r.id) (clear_timers 𝓷 rules ts) ≡ false) rules
  unfolding clear_timers
  clear_timers-none [] ts = tt
  clear_timers-none (r ∷ rules) ts = (
    cleared_stays r.id rules (clear_connection_timer r.id ts) (cleared_gone r.id ts),
    clear_timers-none rules (clear_connection_timer r.id ts),
  )

  set_stays :
      (s : ConnectionStatus) (id : String) (rules : List (AlertRule 𝓷)) (ts : List Timer)
      → any (timer_of id) ts ≡ true
      → any (timer_of id) (set_timers 𝓷 s rules ts) ≡ true
  unfolding set_timers
  set_stays s id [] ts h = h
  set_stays s id (r ∷ rules) ts h =
      let more = ts ++ record { rule_id = r.id; status = s } ∷ [] in
      set_stays s id rules (if any (timer_of r.id) ts then ts else more)
        (ground (arith, added_any id ts (record { rule_id = r.id; status = s })))

  pub set_timers-any :
      (s : ConnectionStatus) (rules : List (AlertRule 𝓷)) (ts : List Timer)
      → All (λ r. any (timer_of r.id) (set_timers 𝓷 s rules ts) ≡ true) rules
  unfolding set_timers
  set_timers-any s [] ts = tt
  set_timers-any s (r ∷ rules) ts =
      let more = ts ++ record { rule_id = r.id; status = s } ∷ [] in
      let next = if any (timer_of r.id) ts then ts else more in
      (
        set_stays s r.id rules next (
            ground (
              arith,
              added_any r.id ts (record { rule_id = r.id; status = s }),
              str_eq_iff r.id r.id,
            )),
        set_timers-any s rules next,
      )
