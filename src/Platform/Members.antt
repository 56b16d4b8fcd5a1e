-- ===== src/Platform/Members.antt =====
-- Members of workspaces: the routes for members in platform/apps/api/src/routes/workspace.ts,
-- `/register` of platform/apps/api/src/routes/auth.ts and `/account` of
-- platform/apps/api/src/routes/mobile-auth.ts, over the tables of platform/apps/api/src/db/migrate.ts.
-- Ids and the hashes of addresses are numbers; what a row holds of the user only is the user's id.
pub mod Owners
pub mod Capacities
pub mod Seats
pub mod Access
mod Tests
use monitc.Prelude.{
  ℕ, Bool, true, false, ◌||◌, ◌&&◌, not, Option, none, some, List, [], ◌∷◌, ◌++◌, map, find, any,
  select, count_if, if◌then◌else◌, ◌==◌, leb, is_some,
}
use monitc.Platform.Scopes.{WorkspaceRole, owner, admin, operator, viewer}
use monitc.Platform.Sessions.{RefreshSession}

pub record Member : Type 0 where
  pub workspace_id : ℕ
  pub user_id : ℕ
  pub role : WorkspaceRole

pub record User : Type 0 where
  pub id : ℕ
  pub email_lookup_hash : ℕ
  pub disabled_at : Option ℕ

-- A subscription whose status is active, and the limit of seats of its plan.
pub record Capacity : Type 0 where
  pub workspace_id : ℕ
  pub seat_limit : Option ℕ

-- The roles that the schemas of the requests accept.
pub data Grant : Type 0 where
  grant_admin grant_operator grant_viewer : Grant

abbrev pub role_of : Grant → WorkspaceRole
role_of grant_admin = admin
role_of grant_operator = operator
role_of grant_viewer = viewer

pub data Audit : Type 0 where
  member_added member_role_changed : ℕ → ℕ → Grant → Audit
  member_removed registered : ℕ → ℕ → Audit

-- A row of `audit_logs`, by its workspace.
pub record AuditLog : Type 0 where
  pub workspace_id : ℕ
  pub entry : Audit

-- A row of `billing_transactions`, `mobile_licenses` or `contact_requests`, by its workspace and user.
pub record UserRow : Type 0 where
  pub workspace_id : ℕ
  pub user_id : ℕ

-- The tables that these requests read, write or delete from by a foreign key. Columns such as
-- `assigned_by` and `created_by`, which only name a user in a row of something else, are left out.
pub record Database : Type 0 where
  pub workspaces : List ℕ
  pub members : List Member
  pub users : List User
  pub capacities : List Capacity
  pub sessions : List RefreshSession
  pub auth_identities : List ℕ
  pub passkey_credentials : List ℕ
  pub mobile_licenses : List UserRow
  pub contact_requests : List UserRow
  pub billing_transactions : List UserRow
  pub audits : List AuditLog
  -- The users for whom `revokeAccessForUser` is called.
  pub access_revoked : List ℕ

pub data Answer : Type 0 where
  created updated no_content : Answer
  plan_limit_reached account_not_found member_exists : Answer
  member_not_found_or_owner self_removal_blocked : Answer
  email_exists ownership_transfer_required thrown : Answer

abbrev pub has : ℕ → List ℕ → Bool
has x xs = any (λ y. y == x) xs

abbrev pub is_owner : WorkspaceRole → Bool
is_owner owner = true
is_owner _ = false

abbrev pub in_workspace : ℕ → Member → Bool
in_workspace w m = m.workspace_id == w

abbrev pub is_membership : ℕ → ℕ → Member → Bool
is_membership w u m = m.workspace_id == w && m.user_id == u

-- `WHERE workspace_id = … AND user_id = … AND role <> 'owner'`.
abbrev pub is_changeable : ℕ → ℕ → Member → Bool
is_changeable w u m = is_membership w u m && not (is_owner m.role)

abbrev pub has_user : ℕ → List User → Bool
has_user u users = any (λ x. x.id == u) users

-- `/register`, with the ids that the database draws.
unfoldable pub register : ℕ → ℕ → ℕ → Database → Database × Answer
register email_hash user_id workspace_id d =
    if any (λ u. u.email_lookup_hash == email_hash) d.users
    then (d, email_exists)
    else (if has_user user_id d.users || has workspace_id d.workspaces then (d, email_exists) else (
      record d {
        users =
            d.users
            ++ record { id = user_id; email_lookup_hash = email_hash; disabled_at = none } ∷ [];
        workspaces = d.workspaces ++ workspace_id ∷ [];
        members =
            d.members
            ++ record { workspace_id = workspace_id; user_id = user_id; role = owner } ∷ [];
        capacities =
            d.capacities ++ record { workspace_id = workspace_id; seat_limit = some 1 } ∷ [];
        audits =
            d.audits
            ++ record { workspace_id = workspace_id; entry = registered workspace_id user_id } ∷ [];
      },
      created,
    ))

-- Whether the limit lets one more in; a workspace without a subscription has one seat, which is taken.
abbrev pub is_full : ℕ → Option Capacity → Bool
is_full current none = leb 1 1
is_full current (some c) = elim (c.seat_limit) [ none ↦ false | some limit ↦ leb limit current ]

abbrev pub people : ℕ → List Member → ℕ
people w ms = count_if (in_workspace w) ms

abbrev pub capacity_of : ℕ → Database → Option Capacity
capacity_of w d = find (λ c. c.workspace_id == w) d.capacities

-- After the query for the account: the INSERT, which a missing workspace makes fail.
abbrev pub insert_member : ℕ → ℕ → Grant → Option User → Database → Database × Answer
insert_member w actor g none d = (d, account_not_found)
insert_member w actor g (some u) d =
    if any (is_membership w u.id) d.members
    then (d, member_exists)
    else (if has w d.workspaces
        then (
          record d {
            members =
                d.members ++ record { workspace_id = w; user_id = u.id; role = role_of g } ∷ [];
            audits =
                d.audits ++ record { workspace_id = w; entry = member_added actor u.id g } ∷ [];
          },
          created,
        )
        else (d, thrown))

abbrev pub is_account : ℕ → User → Bool
is_account email_hash u = u.email_lookup_hash == email_hash && not (is_some u.disabled_at)

unfoldable pub add_member : ℕ → ℕ → ℕ → Grant → Database → Database × Answer
add_member w actor email_hash g d =
    if is_full (people w d.members) (capacity_of w d)
    then (d, plan_limit_reached)
    else insert_member w actor g (find (is_account email_hash) d.users) d

-- `UPDATE refresh_sessions SET revoked_at = now() WHERE … AND revoked_at IS NULL`.
abbrev pub revoke_session : ℕ → ℕ → ℕ → RefreshSession → RefreshSession
revoke_session now w u r =
    if r.user_id == u && (r.workspace_id == w && not (is_some r.revoked_at))
    then record r { revoked_at = some now }
    else r

abbrev pub set_role : ℕ → ℕ → Grant → Member → Member
set_role w u g m = if is_changeable w u m then record m { role = role_of g } else m

unfoldable pub change_role : ℕ → ℕ → ℕ → ℕ → Grant → Database → Database × Answer
change_role now w actor u g d =
    if has_user u d.users && any (is_changeable w u) d.members
    then (
      record d {
        members = map (set_role w u g) d.members;
        sessions = map (revoke_session now w u) d.sessions;
        audits =
            d.audits ++ record { workspace_id = w; entry = member_role_changed actor u g } ∷ [];
      },
      updated,
    )
    else (d, member_not_found_or_owner)

unfoldable pub remove_member : ℕ → ℕ → ℕ → ℕ → Database → Database × Answer
remove_member now w actor u d =
    if u == actor
    then (d, self_removal_blocked)
    else (if any (is_changeable w u) d.members
        then (
          record d {
            members = select (λ m. not (is_changeable w u m)) d.members;
            sessions = map (revoke_session now w u) d.sessions;
            audits = d.audits ++ record { workspace_id = w; entry = member_removed actor u } ∷ [];
          },
          no_content,
        )
        else (d, member_not_found_or_owner))

-- The workspaces that the user owns.
abbrev pub is_owned_by : ℕ → Member → Bool
is_owned_by u m = m.user_id == u && is_owner m.role

abbrev pub owned : ℕ → List Member → List ℕ
owned u ms = map (λ m. m.workspace_id) (select (is_owned_by u) ms)

-- `DELETE … WHERE user_id = $1`.
abbrev pub without : ℕ → List ℕ → List ℕ
without u rows = select (λ x. not (x == u)) rows

-- `DELETE FROM workspaces`, which takes along every row that refers to one (`ON DELETE CASCADE`), and
-- the rows of the user.
abbrev pub members_left : List ℕ → ℕ → List Member → List Member
members_left ws u ms =
    select (λ m. not (m.user_id == u)) (select (λ m. not (has m.workspace_id ws)) ms)

abbrev pub sessions_left : List ℕ → ℕ → List RefreshSession → List RefreshSession
sessions_left ws u rs =
    select (λ r. not (r.user_id == u)) (select (λ r. not (has r.workspace_id ws)) rs)

abbrev pub rows_left : List ℕ → ℕ → List UserRow → List UserRow
rows_left ws u rs =
    select (λ r. not (r.user_id == u)) (select (λ r. not (has r.workspace_id ws)) rs)

abbrev pub erase : ℕ → ℕ → ℕ → User → User
erase now erased u x =
    if x.id == u then record x { email_lookup_hash = erased; disabled_at = some now } else x

abbrev pub erase_account : ℕ → ℕ → ℕ → List ℕ → Database → Database
erase_account now erased u ws d = record d {
  workspaces = select (λ w. not (has w ws)) d.workspaces;
  capacities = select (λ c. not (has c.workspace_id ws)) d.capacities;
  members = members_left ws u d.members;
  sessions = sessions_left ws u d.sessions;
  auth_identities = without u d.auth_identities;
  passkey_credentials = without u d.passkey_credentials;
  mobile_licenses = rows_left ws u d.mobile_licenses;
  contact_requests = rows_left ws u d.contact_requests;
  users = map (erase now erased u) d.users;
  billing_transactions = select (λ t. not (has t.workspace_id ws)) d.billing_transactions;
  audits = select (λ a. not (has a.workspace_id ws)) d.audits;
  access_revoked = d.access_revoked ++ u ∷ [];
}

abbrev pub is_shared : List Member → ℕ → Bool
is_shared ms w = leb 2 (people w ms)

-- `erased` is the hash of the address that replaces the user's.
unfoldable pub delete_account : ℕ → ℕ → ℕ → Database → Database × Answer
delete_account now erased u d =
    if any (is_shared d.members) (owned u d.members)
    then (d, ownership_transfer_required)
    else (erase_account now erased u (owned u d.members) d, no_content)

pub data Request : Type 0 where
  registering : ℕ → ℕ → ℕ → Request
  adding : ℕ → ℕ → ℕ → Grant → Request
  changing : ℕ → ℕ → ℕ → ℕ → Grant → Request
  removing : ℕ → ℕ → ℕ → ℕ → Request
  deleting : ℕ → ℕ → ℕ → Request

unfoldable pub serve : Request → Database → Database × Answer
serve (registering e u w) d = register e u w d
serve (adding w a e g) d = add_member w a e g d
serve (changing now w a u g) d = change_role now w a u g d
serve (removing now w a u) d = remove_member now w a u d
serve (deleting now e u) d = delete_account now e u d

unfoldable pub serve_all : List Request → Database → Database
serve_all [] d = d
serve_all (r ∷ rs) d = serve_all rs (serve r d).0
