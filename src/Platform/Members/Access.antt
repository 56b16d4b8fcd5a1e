-- ===== src/Platform/Members/Access.antt =====
-- What requests leave of the access of the members that they are about.
use monitc.Prelude.{
  ap, ℕ, Bool, true, false, ◌||◌, ◌&&◌, not, List, [], ◌∷◌, ◌++◌, ◌≡◌, refl, arith, any, all,
  select, map, ◌==◌, is_some, Bool-cases, inl, inr, ◌⊎◌,
}
use monitc.Platform.Sessions.{RefreshSession}
use monitc.Platform.Members.{
  Member, User, Database, Answer, created, updated, no_content, ownership_transfer_required,
  Request, registering, adding, changing, removing, deleting, has, is_changeable, owned, without,
  is_shared, erase, erase_account, revoke_session, register, add_member, change_role, remove_member,
  delete_account, serve,
}

-- The session of the user in the workspace, if this is one, is revoked.
abbrev pub is_out : ℕ → ℕ → RefreshSession → Bool
is_out w u r = not (r.user_id == u && r.workspace_id == w) || is_some r.revoked_at

all_out :
    (now w u : ℕ) (rs : List RefreshSession)
    → all (is_out w u) (map (revoke_session now w u) rs) ≡ true
all_out now w u [] = refl
all_out now w u (r ∷ rs) = ground (arith, all_out now w u rs)

all_removed :
    (w u : ℕ) (ms : List Member)
    → any (is_changeable w u) (select (λ m. not (is_changeable w u m)) ms) ≡ false
all_removed w u [] = refl
all_removed w u (m ∷ ms) = ground (arith, all_removed w u ms)

abbrev pub is_done : Answer → Bool
is_done created = true
is_done updated = true
is_done no_content = true
is_done _ = false

-- A request about the membership of the user in the workspace, and one that ends it.
abbrev pub is_about : ℕ → ℕ → Request → Bool
is_about w u (changing _ v _ x _) = v == w && x == u
is_about w u (removing _ v _ x) = v == w && x == u
is_about w u _ = false

abbrev pub is_removal : Request → Bool
is_removal (removing _ _ _ _) = true
is_removal _ = false

-- When a removal or a change of role is done, every session of the member in the workspace is revoked;
-- a removed member is none any more, unless as an owner.
pub serve-KeepsOut :
    (w u : ℕ) (r : Request) (d : Database)
    → is_about w u r ≡ true
    → is_done (serve r d).1 ≡ true
    → (all (is_out w u) (serve r d).0.sessions ≡ true)
      × ((is_removal r && any (is_changeable w u) (serve r d).0.members) ≡ false)
unfolding serve remove_member change_role
serve-KeepsOut w u (registering _ _ _) d k h = ground arith
serve-KeepsOut w u (adding _ _ _ _) d k h = ground arith
serve-KeepsOut w u (deleting _ _ _) d k h = ground arith
serve-KeepsOut w u (changing now v a x g) d k h =
    let p : v ≡ w = ground arith in
    let q : x ≡ u = ground arith in ground (arith, p, q, all_out now v x d.sessions)
serve-KeepsOut w u (removing now v a x) d k h =
    let p : v ≡ w = ground arith in
    let q : x ≡ u = ground arith in
    ground (arith, p, q, all_removed v x d.members, all_out now v x d.sessions)

-- What is left of a user with some address, and of the workspaces, in the tables of the model.
pub record IsErased (u erased : ℕ) (ws : List ℕ) (before d : Database) : Type 0 where
  pub members : any (λ m. m.user_id == u) d.members ≡ false
  pub sessions : any (λ r. r.user_id == u) d.sessions ≡ false
  pub auth_identities : has u d.auth_identities ≡ false
  pub passkey_credentials : has u d.passkey_credentials ≡ false
  pub mobile_licenses : any (λ r. r.user_id == u) d.mobile_licenses ≡ false
  pub contact_requests : any (λ r. r.user_id == u) d.contact_requests ≡ false
  pub users : all (λ x. not (x.id == u) || is_some x.disabled_at) d.users ≡ true
  pub address : all (λ x. not (x.id == u) || x.email_lookup_hash == erased) d.users ≡ true
  pub transactions_gone : any (λ t. has t.workspace_id ws) d.billing_transactions ≡ false
  pub transactions_kept :
      select (λ t. not (has t.workspace_id ws)) d.billing_transactions
      ≡ select (λ t. not (has t.workspace_id ws)) before.billing_transactions
  pub audits_gone : any (λ a. has a.workspace_id ws) d.audits ≡ false
  pub audits_kept :
      select (λ a. not (has a.workspace_id ws)) d.audits
      ≡ select (λ a. not (has a.workspace_id ws)) before.audits
  pub workspaces : any (λ w. has w ws) d.workspaces ≡ false
  pub capacities_gone : any (λ c. has c.workspace_id ws) d.capacities ≡ false
  pub members_gone : any (λ m. has m.workspace_id ws) d.members ≡ false
  pub sessions_gone : any (λ s. has s.workspace_id ws) d.sessions ≡ false
  pub licenses_gone : any (λ x. has x.workspace_id ws) d.mobile_licenses ≡ false
  pub requests_gone : any (λ x. has x.workspace_id ws) d.contact_requests ≡ false
  pub access : has u d.access_revoked ≡ true

has-without : (u : ℕ) (rows : List ℕ) → has u (without u rows) ≡ false
has-without u [] = refl
has-without u (x ∷ rows) = ground (arith, has-without u rows)

module _ {ℓ} {A : Type ℓ} where
  any-select-not : (p : A → Bool) (xs : List A) → any p (select (λ x. not (p x)) xs) ≡ false
  any-select-not p [] = refl
  any-select-not p (x ∷ xs) = elim (Bool-cases (p x)) [
    | inl e ↦ rw e (any-select-not p xs)
    | inr e ↦ rw (e, any, e) (any-select-not p xs)
  ]

  any-select : (q p : A → Bool) (xs : List A) → any q xs ≡ false → any q (select p xs) ≡ false
  any-select q p [] h = refl
  any-select q p (x ∷ xs) h = elim (Bool-cases (p x)) [
    | inl e ↦ rw e (ground (arith, h, any-select q p xs))
    | inr e ↦ rw e (any-select q p xs (ground (arith, h)))
  ]

  -- Neither what the second nor what the first selection takes away is left.
  any-select-select :
      (q p : A → Bool) (xs : List A) → any q (select p (select (λ x. not (q x)) xs)) ≡ false
  any-select-select q p xs = any-select q p (select (λ x. not (q x)) xs) (any-select-not q xs)

  select-select : (p : A → Bool) (xs : List A) → select p (select p xs) ≡ select p xs
  select-select p [] = refl
  select-select p (x ∷ xs) = elim (Bool-cases (p x)) [
    | inl e ↦ rw (e, select, e) (ap (λ (ys : List A). x ∷ ys) (select-select p xs))
    | inr e ↦ rw e (select-select p xs)
  ]

all-erase :
    (now e u : ℕ) (xs : List User)
    → all (λ x. not (x.id == u) || is_some x.disabled_at) (map (erase now e u) xs) ≡ true
all-erase now e u [] = refl
all-erase now e u (x ∷ xs) = ground (arith, all-erase now e u xs)

all-address :
    (now e u : ℕ) (xs : List User)
    → all (λ x. not (x.id == u) || x.email_lookup_hash == e) (map (erase now e u) xs) ≡ true
all-address now e u [] = refl
all-address now e u (x ∷ xs) = ground (arith, all-address now e u xs)

has_last : (u : ℕ) (xs : List ℕ) → has u (xs ++ u ∷ []) ≡ true
has_last u [] = ground arith
has_last u (x ∷ xs) = ground (arith, has_last u xs)

erase_account-IsErased :
    (now e u : ℕ) (ws : List ℕ) (d : Database) → IsErased u e ws d (erase_account now e u ws d)
erase_account-IsErased now e u ws d = record {
  members =
      any-select-not (λ m. m.user_id == u) (select (λ m. not (has m.workspace_id ws)) d.members);
  sessions =
      any-select-not (λ r. r.user_id == u) (select (λ r. not (has r.workspace_id ws)) d.sessions);
  auth_identities = has-without u d.auth_identities;
  passkey_credentials = has-without u d.passkey_credentials;
  mobile_licenses =
      any-select-not (λ r. r.user_id == u)
        (select (λ r. not (has r.workspace_id ws)) d.mobile_licenses);
  contact_requests =
      any-select-not (λ r. r.user_id == u)
        (select (λ r. not (has r.workspace_id ws)) d.contact_requests);
  users = all-erase now e u d.users;
  workspaces = any-select-not (λ w. has w ws) d.workspaces;
  address = all-address now e u d.users;
  transactions_gone = any-select-not (λ t. has t.workspace_id ws) d.billing_transactions;
  transactions_kept = select-select (λ t. not (has t.workspace_id ws)) d.billing_transactions;
  audits_gone = any-select-not (λ a. has a.workspace_id ws) d.audits;
  audits_kept = select-select (λ a. not (has a.workspace_id ws)) d.audits;
  capacities_gone = any-select-not (λ c. has c.workspace_id ws) d.capacities;
  members_gone =
      any-select-select (λ m. has m.workspace_id ws) (λ m. not (m.user_id == u)) d.members;
  sessions_gone =
      any-select-select (λ s. has s.workspace_id ws) (λ s. not (s.user_id == u)) d.sessions;
  licenses_gone =
      any-select-select (λ x. has x.workspace_id ws) (λ x. not (x.user_id == u)) d.mobile_licenses;
  requests_gone =
      any-select-select (λ x. has x.workspace_id ws) (λ x. not (x.user_id == u)) d.contact_requests;
  access = has_last u d.access_revoked;
}

-- The deletion of an account is refused and changes nothing while a workspace that the user owns has
-- another member. Otherwise it leaves no membership, session, identity, passkey, mobile licence or
-- contact request of the user; of the workspaces that the user owned neither the workspace nor a
-- subscription, membership, session, licence, contact request, billing transaction or audit log; the
-- account is disabled with the hash of the erased address, and its access tokens are revoked. The
-- billing transactions and audit logs of every other workspace stay, the user's own included.
pub delete_account-Erases :
    (now erased u : ℕ) (d : Database)
    → ((any (is_shared d.members) (owned u d.members) ≡ true)
        × (delete_account now erased u d ≡ (d, ownership_transfer_required)))
      ⊎ ((any (is_shared d.members) (owned u d.members) ≡ false)
          × ((delete_account now erased u d).1 ≡ no_content)
          × IsErased u erased (owned u d.members) d (delete_account now erased u d).0)
unfolding delete_account
delete_account-Erases now erased u d =
    elim (Bool-cases (any (is_shared d.members) (owned u d.members))) [
      | inl i ↦ inl (i, ground (arith, i))
      | inr i ↦ inr (rw i (refl, refl, erase_account-IsErased now erased u (owned u d.members) d))
    ]

-- A request that is answered with an error changes nothing.
pub serve-refused : (r : Request) (d : Database) → is_done (serve r d).1 ≡ false → (serve r d).0 ≡ d
unfolding serve register add_member change_role remove_member delete_account
serve-refused (registering e u w) d h = ground arith
serve-refused (adding w a e g) d h = ground arith
serve-refused (changing now w a u g) d h = ground arith
serve-refused (removing now w a u) d h = ground arith
serve-refused (deleting now e u) d h = ground arith
