-- ===== src/Platform/Members/Seats.antt =====
-- The limit of seats of a plan.
use mathlib.Core.Path.{subst}
use monitc.Prelude.{
  Option-cases, ℕ, ◌+◌, ◌≤◌, Bool, true, false, ◌||◌, ◌&&◌, not, Option, none, some, List, [], ◌∷◌,
  ◌++◌, ◌≡◌, refl, arith, any, find, select, if◌then◌else◌, ◌==◌, leb, is_some, Bool-cases, inl,
  inr, count_if-append,
}
use monitc.Platform.Scopes.{owner}
use monitc.Platform.Members.{
  Member, User, Capacity, Database, Request, registering, adding, changing, removing, deleting, has,
  in_workspace, is_changeable, is_membership, owned, members_left, is_full, people, capacity_of,
  insert_member, is_account, Grant, role_of, has_user, register, add_member, change_role,
  remove_member, delete_account, erase_account, is_shared, serve, serve_all,
}
use monitc.Platform.Members.Owners.{
  owners-set_role, owners-remove, people-members_left, has_same, has-select, has-append,
}
use monitc.Platform.Members.Capacities.{
  people-le-members_left, capacity-select, capacity-append, capacity-append_some,
}

abbrev pub within : Option Capacity → ℕ → Bool
within none n = leb n 1
within (some c) n = elim (c.seat_limit) [ none ↦ true | some limit ↦ leb n limit ]

-- The workspace has no more members than its plan has seats, and at most one without a subscription
-- that counts; one that is not there has neither members nor a plan.
abbrev pub fits : ℕ → List ℕ → List Capacity → List Member → Bool
fits w ws cs ms =
    let c = find (λ x. x.workspace_id == w) cs in
    if has w ws then within c (people w ms) else people w ms == 0 && not (is_some c)

abbrev pub Fits : ℕ → Database → Type 0
Fits w d = fits w d.workspaces d.capacities d.members ≡ true

within-le : (c : Option Capacity) (n k : ℕ) → k ≤ n → within c n ≡ true → within c k ≡ true
within-le none n k h j = ground arith
within-le (some c) n k h j = ground arith

-- Fewer members fit as well.
Fits_fewer :
    (w : ℕ) (ws : List ℕ) (cs : List Capacity) (ms ns : List Member)
    → people w ns ≤ people w ms
    → fits w ws cs ms ≡ true
    → fits w ws cs ns ≡ true
Fits_fewer w ws cs ms ns h k = elim (Bool-cases (has w ws)) [
  | inl i ↦ rw i (
      within-le (find (λ x. x.workspace_id == w) cs) (people w ms) (people w ns) h
        (ground (arith, i, k)))
  | inr i ↦ ground (arith, i, k, h)
]

within-suc : (c : Option Capacity) (n : ℕ) → is_full n c ≡ false → within c (n + 1) ≡ true
within-suc none n f = let bad : ⊥ = ground (arith, f) in elim bad [ ]
within-suc (some c) n f = elim (Option-cases c.seat_limit) [
  | inl e ↦ rw e refl
  | inr (l, e) ↦ ground (arith, e, f)
]

-- One more member where the plan is not full.
fits-added :
    (v : ℕ) (ws : List ℕ) (cs : List Capacity) (ms : List Member) (m : Member)
    → in_workspace v m ≡ true
    → is_full (people v ms) (find (λ x. x.workspace_id == v) cs) ≡ false
    → has v ws ≡ true
    → fits v ws cs (ms ++ m ∷ []) ≡ true
fits-added v ws cs ms m e f i =
    let more : people v (ms ++ m ∷ []) ≡ people v ms + 1 =
      ground (arith, e, count_if-append (in_workspace v) ms (m ∷ [])) in
    rw (i, more) (within-suc (find (λ x. x.workspace_id == v) cs) (people v ms) f)

fits-other :
    (w : ℕ) (ws : List ℕ) (cs : List Capacity) (ms : List Member) (m : Member)
    → in_workspace w m ≡ false
    → fits w ws cs ms ≡ true
    → fits w ws cs (ms ++ m ∷ []) ≡ true
fits-other w ws cs ms m e h =
    Fits_fewer w ws cs ms (ms ++ m ∷ [])
      (ground (arith, e, count_if-append (in_workspace w) ms (m ∷ []))) h

insert_member-Fits :
    (w v a : ℕ) (g : Grant) (u : Option User) (d : Database)
    → is_full (people v d.members) (capacity_of v d) ≡ false
    → Fits w d
    → Fits w (insert_member v a g u d).0
insert_member-Fits w v a g none d f h = h
insert_member-Fits w v a g (some u) d f h =
    let one : Member = record { workspace_id = v; user_id = u.id; role = role_of g } in
    elim (Bool-cases (any (is_membership v u.id) d.members)) [
      | inl i ↦ rw i h
      | inr i ↦ elim (Bool-cases (has v d.workspaces)) [
        | inr j ↦ rw (i, j) h
        | inl j ↦
            rw (i, j)
              (elim (Bool-cases (v == w)) [
                | inl e ↦
                    subst (λ x. fits x d.workspaces d.capacities (d.members ++ one ∷ []) ≡ true)
                      (ground (arith, e))
                      (fits-added v d.workspaces d.capacities d.members one (ground arith) f j)
                | inr e ↦ fits-other w d.workspaces d.capacities d.members one e h
              ])
      ]
    ]

add_member-Fits :
    (w v a e : ℕ) (g : Grant) (d : Database) → Fits w d → Fits w (add_member v a e g d).0
unfolding add_member
add_member-Fits w v a e g d h = elim (Bool-cases (is_full (people v d.members) (capacity_of v d))) [
  | inl i ↦ rw i h
  | inr i ↦ rw i (insert_member-Fits w v a g (find (is_account e) d.users) d i h)
]

-- A new workspace has one member and one seat.
fits-new :
    (w : ℕ) (ws : List ℕ) (cs : List Capacity) (ms : List Member) (m : Member) (c : Capacity)
    → c.workspace_id ≡ m.workspace_id
    → c.seat_limit ≡ some 1
    → has m.workspace_id ws ≡ false
    → fits w ws cs ms ≡ true
    → fits w (ws ++ m.workspace_id ∷ []) (cs ++ c ∷ []) (ms ++ m ∷ []) ≡ true
fits-new w ws cs ms m c p l i h =
    let there = has-append w m.workspace_id ws in
    let more = count_if-append (in_workspace w) ms (m ∷ []) in
    elim (Bool-cases (m.workspace_id == w)) [
      | inl e ↦
          let gone = has_same m.workspace_id w ws e in
          let none_yet : find (λ x. x.workspace_id == w) cs ≡ none =
            elim (Option-cases (find (λ x. x.workspace_id == w) cs)) [
              | inl j ↦ j
              | inr (d, j) ↦ ground (arith, i, j, h, gone)
            ] in
          let plan = capacity-append w c cs none_yet in
          ground (arith, i, p, l, h, e, there, more, gone, plan)
      | inr e ↦ elim (Option-cases (find (λ x. x.workspace_id == w) cs)) [
        | inl j ↦
            let plan = capacity-append w c cs j in ground (arith, p, h, e, j, there, more, plan)
        | inr (d, j) ↦
            let plan = capacity-append_some w c d cs j in ground (arith, h, e, j, there, more, plan)
      ]
    ]

register-Fits : (w e u v : ℕ) (d : Database) → Fits w d → Fits w (register e u v d).0
unfolding register
register-Fits w e u v d h =
    let one : Member = record { workspace_id = v; user_id = u; role = owner } in
    let plan : Capacity = record { workspace_id = v; seat_limit = some 1 } in
    elim (Bool-cases (any (λ x. x.email_lookup_hash == e) d.users)) [
      | inl i ↦ rw i h
      | inr i ↦ elim (Bool-cases (has_user u d.users || has v d.workspaces)) [
        | inl j ↦ rw (i, j) h
        | inr j ↦
            rw (i, j)
              (fits-new w d.workspaces d.capacities d.members one plan refl refl (ground (arith, j))
                h)
      ]
    ]

change_role-Fits :
    (w now v a u : ℕ) (g : Grant) (d : Database) → Fits w d → Fits w (change_role now v a u g d).0
unfolding change_role
change_role-Fits w now v a u g d h =
    elim (Bool-cases (has_user u d.users && any (is_changeable v u) d.members)) [
      | inl i ↦ rw i (ground (arith, h, owners-set_role w v u g d.members))
      | inr i ↦ rw i h
    ]

remove_member-Fits :
    (w now v a u : ℕ) (d : Database) → Fits w d → Fits w (remove_member now v a u d).0
unfolding remove_member
remove_member-Fits w now v a u d h = elim (Bool-cases (u == a)) [
  | inl i ↦ rw i h
  | inr i ↦ elim (Bool-cases (any (is_changeable v u) d.members)) [
    | inl j ↦
        rw (i, j)
          (Fits_fewer w d.workspaces d.capacities d.members
            (select (λ m. not (is_changeable v u m)) d.members) (owners-remove w v u d.members).1 h)
    | inr j ↦ rw (i, j) h
  ]
]

erase_account-Fits :
    (w now e u : ℕ) (ws : List ℕ) (d : Database) → Fits w d → Fits w (erase_account now e u ws d)
erase_account-Fits w now e u ws d h =
    let left = has-select w ws d.workspaces in
    let plan = capacity-select w ws d.capacities in
    elim (Bool-cases (has w ws)) [
      | inl i ↦ ground (arith, left, plan, i, people-members_left w u ws d.members i)
      | inr i ↦
          let fewer =
            Fits_fewer w d.workspaces d.capacities d.members (members_left ws u d.members)
              (people-le-members_left w u ws d.members) h in
          ground (arith, left, plan, i, fewer)
    ]

delete_account-Fits :
    (w now e u : ℕ) (d : Database) → Fits w d → Fits w (delete_account now e u d).0
unfolding delete_account
delete_account-Fits w now e u d h =
    elim (Bool-cases (any (is_shared d.members) (owned u d.members))) [
      | inl i ↦ rw i h
      | inr i ↦ rw i (erase_account-Fits w now e u (owned u d.members) d h)
    ]

serve-Fits : (w : ℕ) (r : Request) (d : Database) → Fits w d → Fits w (serve r d).0
unfolding serve
serve-Fits w (registering e u v) d h = register-Fits w e u v d h
serve-Fits w (adding v a e g) d h = add_member-Fits w v a e g d h
serve-Fits w (changing now v a u g) d h = change_role-Fits w now v a u g d h
serve-Fits w (removing now v a u) d h = remove_member-Fits w now v a u d h
serve-Fits w (deleting now e u) d h = delete_account-Fits w now e u d h

-- If a workspace has no more members than its plan has seats (at most one where no subscription counts),
-- or is not there and has neither members nor a plan, this still holds after any registrations,
-- additions, changes of role and removals of members and deletions of accounts.
pub serve_all-Fits : (w : ℕ) (rs : List Request) (d : Database) → Fits w d → Fits w (serve_all rs d)
unfolding serve_all
serve_all-Fits w [] d h = h
serve_all-Fits w (r ∷ rs) d h = serve_all-Fits w rs (serve r d).0 (serve-Fits w r d h)
