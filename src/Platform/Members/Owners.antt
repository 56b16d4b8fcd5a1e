-- ===== src/Platform/Members/Owners.antt =====
-- Requests about members keep the one owner of a workspace.
use monitc.Prelude.{
  find, Option, none, some, Option, ◌∙◌, inr, inl, ap, Bool-cases, ℕ, ◌≤◌, Bool, true, false, ◌||◌,
  ◌&&◌, not, List, [], ◌∷◌, ◌++◌, ◌≡◌, refl, arith, any, select, count_if, if◌then◌else◌, ◌==◌, map,
  count_if-append,
}
use monitc.Platform.Members.{
  owner, Member, Database, Request, registering, adding, changing, removing, deleting, has,
  is_owner, in_workspace, is_changeable, is_owned_by, owned, members_left, set_role, people, Grant,
  register, add_member, change_role, remove_member, delete_account, serve, serve_all, role_of,
  is_shared, insert_member, User, erase_account, has_user, is_membership, is_full, capacity_of,
  is_account,
}

abbrev pub is_owner_in : ℕ → Member → Bool
is_owner_in w m = in_workspace w m && is_owner m.role

abbrev pub owners : ℕ → List Member → ℕ
owners w ms = count_if (is_owner_in w) ms

-- A workspace that is there has one owner, and the others have no members.
abbrev pub has_one_owner : ℕ → List ℕ → List Member → Bool
has_one_owner w ws ms = if has w ws then owners w ms == 1 else people w ms == 0

abbrev pub IsOwned : ℕ → Database → Type 0
IsOwned w d = has_one_owner w d.workspaces d.members ≡ true

pub owners-set_role :
    (w v u : ℕ) (g : Grant) (ms : List Member)
    → (owners w (map (set_role v u g) ms) ≡ owners w ms)
      × (people w (map (set_role v u g) ms) ≡ people w ms)
owners-set_role w v u g [] = (refl, refl)
owners-set_role w v u g (m ∷ ms) = ground (arith, owners-set_role w v u g ms)

pub owners-remove :
    (w v u : ℕ) (ms : List Member)
    → (owners w (select (λ m. not (is_changeable v u m)) ms) ≡ owners w ms)
      × (people w (select (λ m. not (is_changeable v u m)) ms) ≤ people w ms)
owners-remove w v u [] = (refl, omega arith)
owners-remove w v u (m ∷ ms) = ground (arith, owners-remove w v u ms)

-- The user has an owner's row in the workspace.
abbrev owns : ℕ → ℕ → Member → Bool
owns w u m = in_workspace w m && is_owned_by u m

pub has-owned : (w u : ℕ) (ms : List Member) → has w (owned u ms) ≡ any (owns w u) ms
has-owned w u [] = refl
has-owned w u (m ∷ ms) = ground (arith, has-owned w u ms)

-- In a workspace that goes, and in one that stays.
pub people-members_left :
    (w u : ℕ) (ws : List ℕ) (ms : List Member)
    → has w ws ≡ true
    → people w (members_left ws u ms) ≡ 0
people-members_left w u ws [] h = refl
people-members_left w u ws (m ∷ ms) h = ground (arith, people-members_left w u ws ms h)

pub has_same : (v w : ℕ) (ws : List ℕ) → v == w ≡ true → has v ws ≡ has w ws
has_same v w ws e = ap (λ x. has x ws) (ground (arith, e))

pub owners-members_left :
    (w u : ℕ) (ws : List ℕ) (ms : List Member)
    → has w ws ≡ false
    → any (owns w u) ms ≡ false
    → (owners w (members_left ws u ms) ≡ owners w ms)
      × (people w (members_left ws u ms) ≤ people w ms)
owners-members_left w u ws [] h k = (refl, omega arith)
owners-members_left w u ws (m ∷ ms) h k = elim (Bool-cases (m.workspace_id == w)) [
  | inl e ↦
      let same = has_same m.workspace_id w ws e ∙ h in
      ground (arith, same, owners-members_left w u ws ms h)
  | inr e ↦
      let rest = owners-members_left w u ws ms h (ground arith) in
      elim (Bool-cases (has m.workspace_id ws)) [
        | inl j ↦ ground (arith, rest)
        | inr j ↦ ground (arith, rest)
      ]
]

pub has-select :
    (w : ℕ) (ws vs : List ℕ)
    → has w (select (λ v. not (has v ws)) vs) ≡ (has w vs && not (has w ws))
has-select w ws [] = refl
has-select w ws (v ∷ vs) = elim (Bool-cases (v == w)) [
  | inl e ↦ let same = has_same v w ws e in ground (arith, same, has-select w ws vs)
  | inr e ↦ elim (Bool-cases (has v ws)) [
    | inl j ↦ ground (arith, has-select w ws vs)
    | inr j ↦ ground (arith, has-select w ws vs)
  ]
]

pub has-append : (w v : ℕ) (ws : List ℕ) → has w (ws ++ v ∷ []) ≡ (has w ws || v == w)
has-append w v [] = ground arith
has-append w v (x ∷ ws) = ground (arith, has-append w v ws)

owners-le-people : (w : ℕ) (ms : List Member) → owners w ms ≤ people w ms
owners-le-people w [] = omega arith
owners-le-people w (m ∷ ms) = ground (arith, owners-le-people w ms)

-- One more member, who is an owner in a new workspace and none in an old one.
IsOwned_append :
    (w : ℕ) (ws : List ℕ) (ms : List Member) (m : Member)
    → has_one_owner w ws ms ≡ true
    → is_owner m.role ≡ false
    → has m.workspace_id ws ≡ true
    → has_one_owner w ws (ms ++ m ∷ []) ≡ true
IsOwned_append w ws ms m h k j =
    let same = has_same m.workspace_id w ws in
    ground (
      arith,
      same,
      count_if-append (is_owner_in w) ms (m ∷ []),
      count_if-append (in_workspace w) ms (m ∷ []),
    )

IsOwned_new :
    (w : ℕ) (ws : List ℕ) (ms : List Member) (m : Member)
    → has_one_owner w ws ms ≡ true
    → is_owner m.role ≡ true
    → has m.workspace_id ws ≡ false
    → has_one_owner w (ws ++ m.workspace_id ∷ []) (ms ++ m ∷ []) ≡ true
IsOwned_new w ws ms m h k j =
    let same = has_same m.workspace_id w ws in
    ground (
      arith,
      same,
      has-append w m.workspace_id ws,
      owners-le-people w ms,
      count_if-append (is_owner_in w) ms (m ∷ []),
      count_if-append (in_workspace w) ms (m ∷ []),
    )

register-IsOwned : (w e u v : ℕ) (d : Database) → IsOwned w d → IsOwned w (register e u v d).0
unfolding register
register-IsOwned w e u v d h =
    let one : Member = record { workspace_id = v; user_id = u; role = owner } in
    elim (Bool-cases (any (λ x. x.email_lookup_hash == e) d.users)) [
      | inl i ↦ rw i h
      | inr i ↦ elim (Bool-cases (has_user u d.users || has v d.workspaces)) [
        | inl j ↦ rw (i, j) h
        | inr j ↦ rw (i, j) (IsOwned_new w d.workspaces d.members one h refl (ground (arith, j)))
      ]
    ]

insert_member-IsOwned :
    (w v a : ℕ) (g : Grant) (u : Option User) (d : Database)
    → IsOwned w d
    → IsOwned w (insert_member v a g u d).0
insert_member-IsOwned w v a g none d h = h
insert_member-IsOwned w v a g (some u) d h =
    let one : Member = record { workspace_id = v; user_id = u.id; role = role_of g } in
    elim (Bool-cases (any (is_membership v u.id) d.members)) [
      | inl i ↦ rw i h
      | inr i ↦ elim (Bool-cases (has v d.workspaces)) [
        | inl j ↦ rw (i, j) (IsOwned_append w d.workspaces d.members one h (ground arith) j)
        | inr j ↦ rw (i, j) h
      ]
    ]

add_member-IsOwned :
    (w v a e : ℕ) (g : Grant) (d : Database) → IsOwned w d → IsOwned w (add_member v a e g d).0
unfolding add_member
add_member-IsOwned w v a e g d h =
    elim (Bool-cases (is_full (people v d.members) (capacity_of v d))) [
      | inl i ↦ rw i h
      | inr i ↦ rw i (insert_member-IsOwned w v a g (find (is_account e) d.users) d h)
    ]

change_role-IsOwned :
    (w now v a u : ℕ) (g : Grant) (d : Database)
    → IsOwned w d
    → IsOwned w (change_role now v a u g d).0
unfolding change_role
change_role-IsOwned w now v a u g d h =
    elim (Bool-cases (has_user u d.users && any (is_changeable v u) d.members)) [
      | inl i ↦ rw i (ground (arith, h, owners-set_role w v u g d.members))
      | inr i ↦ rw i h
    ]

remove_member-IsOwned :
    (w now v a u : ℕ) (d : Database) → IsOwned w d → IsOwned w (remove_member now v a u d).0
unfolding remove_member
remove_member-IsOwned w now v a u d h = elim (Bool-cases (u == a)) [
  | inl i ↦ rw i h
  | inr i ↦ elim (Bool-cases (any (is_changeable v u) d.members)) [
    | inl j ↦ rw (i, j) (ground (arith, h, owners-remove w v u d.members))
    | inr j ↦ rw (i, j) h
  ]
]

erase_account-IsOwned :
    (w now e u : ℕ) (d : Database)
    → IsOwned w d
    → IsOwned w (erase_account now e u (owned u d.members) d)
erase_account-IsOwned w now e u d h =
    let ws = owned u d.members in
    let left = has-select w ws d.workspaces in
    let owns_it = has-owned w u d.members in
    elim (Bool-cases (has w ws)) [
      | inl i ↦ ground (arith, left, people-members_left w u ws d.members i)
      | inr i ↦ ground (arith, left, owners-members_left w u ws d.members i (ground (arith, i)))
    ]

delete_account-IsOwned :
    (w now e u : ℕ) (d : Database) → IsOwned w d → IsOwned w (delete_account now e u d).0
unfolding delete_account
delete_account-IsOwned w now e u d h =
    elim (Bool-cases (any (is_shared d.members) (owned u d.members))) [
      | inl i ↦ rw i h
      | inr i ↦ rw i (erase_account-IsOwned w now e u d h)
    ]

serve-IsOwned : (w : ℕ) (r : Request) (d : Database) → IsOwned w d → IsOwned w (serve r d).0
unfolding serve
serve-IsOwned w (registering e u v) d h = register-IsOwned w e u v d h
serve-IsOwned w (adding v a e g) d h = add_member-IsOwned w v a e g d h
serve-IsOwned w (changing now v a u g) d h = change_role-IsOwned w now v a u g d h
serve-IsOwned w (removing now v a u) d h = remove_member-IsOwned w now v a u d h
serve-IsOwned w (deleting now e u) d h = delete_account-IsOwned w now e u d h

-- If a workspace is there and has exactly one owner, or is not there and has no members, this still holds
-- after any registrations, additions, changes of role and removals of members and deletions of accounts.
pub serve_all-IsOwned :
    (w : ℕ) (rs : List Request) (d : Database) → IsOwned w d → IsOwned w (serve_all rs d)
unfolding serve_all
serve_all-IsOwned w [] d h = h
serve_all-IsOwned w (r ∷ rs) d h = serve_all-IsOwned w rs (serve r d).0 (serve-IsOwned w r d h)
