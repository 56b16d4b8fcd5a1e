-- ===== src/Platform/Members/Capacities.antt =====
-- The members and the capacities that a change of the tables leaves.
use monitc.Prelude.{
  ℕ, ◌≤◌, not, none, some, List, [], ◌∷◌, ◌++◌, ◌≡◌, refl, arith, find, select, if◌then◌else◌, ◌==◌,
  Bool-cases, inl, inr,
}
use monitc.Platform.Members.{Member, Capacity, has, members_left, people}
use monitc.Platform.Members.Owners.{has_same}

pub people-le-members_left :
    (w u : ℕ) (ws : List ℕ) (ms : List Member) → people w (members_left ws u ms) ≤ people w ms
people-le-members_left w u ws [] = omega arith
people-le-members_left w u ws (m ∷ ms) =
    let rest = people-le-members_left w u ws ms in
    elim (Bool-cases (has m.workspace_id ws)) [
      | inl j ↦ ground (arith, rest)
      | inr j ↦ ground (arith, rest)
    ]

pub capacity-select :
    (w : ℕ) (ws : List ℕ) (cs : List Capacity)
    → find (λ c. c.workspace_id == w) (select (λ c. not (has c.workspace_id ws)) cs)
      ≡ (if has w ws then none else find (λ c. c.workspace_id == w) cs)
capacity-select w ws [] = ground arith
capacity-select w ws (c ∷ cs) = elim (Bool-cases (c.workspace_id == w)) [
  | inl e ↦
      let same = has_same c.workspace_id w ws e in ground (arith, same, capacity-select w ws cs)
  | inr e ↦ elim (Bool-cases (has c.workspace_id ws)) [
    | inl j ↦ ground (arith, capacity-select w ws cs)
    | inr j ↦ ground (arith, capacity-select w ws cs)
  ]
]

pub capacity-append :
    (w : ℕ) (c : Capacity) (cs : List Capacity)
    → find (λ x. x.workspace_id == w) cs ≡ none
    → find (λ x. x.workspace_id == w) (cs ++ c ∷ [])
      ≡ (if c.workspace_id == w then some c else none)
capacity-append w c [] h = refl
capacity-append w c (x ∷ cs) h = ground (arith, capacity-append w c cs)

pub capacity-append_some :
    (w : ℕ) (c d : Capacity) (cs : List Capacity)
    → find (λ x. x.workspace_id == w) cs ≡ some d
    → find (λ x. x.workspace_id == w) (cs ++ c ∷ []) ≡ some d
capacity-append_some w c d [] h = ground arith
capacity-append_some w c d (x ∷ cs) h = ground (arith, capacity-append_some w c d cs)
