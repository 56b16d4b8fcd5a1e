-- ===== src/Platform/Sessions.antt =====
-- Refresh sessions, platform/apps/api/src/auth/session.ts, over the table `refresh_sessions` of
-- platform/apps/api/src/db/migrate.ts. Identifiers and token hashes are numbers, which the code only
-- compares for equality; a token enters by its hash (lib/tokens.ts), and `now` and the random values
-- are arguments. Columns that no query reads back (hashes of metadata, the device) are left out.
pub mod Rotation
pub mod Families
pub mod Subjects
mod Tests
use monitc.Prelude.{
  ℕ, ◌+◌, ◌*◌, Bool, true, false, ◌||◌, ◌&&◌, not, Option, none, some, List, [], ◌∷◌, ◌++◌, map,
  find, any, select, if◌then◌else◌, ◌==◌, ltb, leb, is_some, String,
}
use monitc.Platform.Scopes.{WorkspaceRole, GlobalRole, scopes_for}

pub record RefreshSession : Type 0 where
  pub id : ℕ
  pub family_id : ℕ
  pub user_id : ℕ
  pub workspace_id : ℕ
  pub token_hash : ℕ
  pub expires_at : ℕ
  pub rotated_at : Option ℕ
  pub revoked_at : Option ℕ
  pub replaced_by : Option ℕ

abbrev pub Table : Type 0
Table = List RefreshSession

-- One row of the join in `loadSessionSubject`: a membership with its user and its subscription.
pub data SubscriptionStatus : Type 0 where
  active trialing grace_period billing_retry expired revoked : SubscriptionStatus

pub record Membership : Type 0 where
  pub user_id : ℕ
  pub workspace_id : ℕ
  pub workspace_role : WorkspaceRole
  pub global_role : GlobalRole
  pub must_change_password : Bool
  pub disabled_at : Option ℕ
  pub subscription : Option (ℕ × SubscriptionStatus)
  pub created_at : ℕ

pub record Subject : Type 0 where
  pub user_id : ℕ
  pub workspace_id : ℕ
  pub workspace_role : WorkspaceRole
  pub global_role : GlobalRole
  pub must_change_password : Bool
  pub plan_code : ℕ

-- `s.status IN ('active', 'trialing', 'grace_period')`.
abbrev pub is_entitled : SubscriptionStatus → Bool
is_entitled active = true
is_entitled trialing = true
is_entitled grace_period = true
is_entitled _ = false

-- The plan of a membership; 0 stands for 'community'.
abbrev pub plan_of : Option (ℕ × SubscriptionStatus) → ℕ
plan_of none = 0
plan_of (some (plan, status)) = if is_entitled status then plan else 0

abbrev pub subject_of : Membership → Subject
subject_of m = record {
  user_id = m.user_id;
  workspace_id = m.workspace_id;
  workspace_role = m.workspace_role;
  global_role = m.global_role;
  must_change_password = m.must_change_password;
  plan_code = plan_of m.subscription;
}

abbrev pub in_workspace : Option ℕ → Membership → Bool
in_workspace none m = true
in_workspace (some w) m = m.workspace_id == w

-- The WHERE clause.
abbrev pub admits : ℕ → Option ℕ → Membership → Bool
admits user_id workspace_id m =
    m.user_id == user_id && (not (is_some m.disabled_at) && in_workspace workspace_id m)

-- `ORDER BY wm.created_at ASC LIMIT 1`.
abbrev pub earlier : Membership → Option Membership → Option Membership
earlier m none = some m
earlier m (some best) = if leb m.created_at best.created_at then some m else some best

unfoldable pub oldest : List Membership → Option Membership
oldest [] = none
oldest (m ∷ ms) = earlier m (oldest ms)

unfoldable pub load_session_subject : List Membership → ℕ → Option ℕ → Option Subject
unfolding oldest
load_session_subject members user_id workspace_id =
    elim (oldest (select (admits user_id workspace_id) members)) [
      | none ↦ none
      | some m ↦ some (subject_of m)
    ]

-- The session that a client receives.
pub record AuthSession : Type 0 where
  pub subject : Subject
  pub scope : List String
  pub refresh_hash : ℕ

abbrev pub session_for : Subject → ℕ → AuthSession
session_for s hash = record {
  subject = s;
  scope = scopes_for s.workspace_role s.global_role s.must_change_password;
  refresh_hash = hash;
}

-- The random and configured values of one call: `randomUUID`, `newRefreshToken`, and the life of a
-- refresh token in milliseconds.
pub record Draw : Type 0 where
  pub id : ℕ
  pub token_hash : ℕ
  pub lifetime : ℕ

abbrev pub new_row : ℕ → Draw → ℕ → ℕ → ℕ → RefreshSession
new_row now d family_id user_id workspace_id = record {
  id = d.id;
  family_id = family_id;
  user_id = user_id;
  workspace_id = workspace_id;
  token_hash = d.token_hash;
  expires_at = now + d.lifetime;
  rotated_at = none;
  revoked_at = none;
  replaced_by = none;
}

-- The INSERT fails on the primary key or on `token_hash UNIQUE`.
abbrev pub conflicts : Draw → Table → Bool
conflicts d t = any (λ r. r.id == d.id || r.token_hash == d.token_hash) t

pub data Answer : Type 0 where
  granted : AuthSession → Answer
  refused : Answer
  thrown : Answer

unfoldable pub create_session : ℕ → Draw → ℕ → Subject → Table → Table × Answer
create_session now d family_id s t = if conflicts d t then (t, thrown) else (
  t ++ new_row now d family_id s.user_id s.workspace_id ∷ [],
  granted (session_for s d.token_hash),
)

-- `UPDATE … SET revoked_at = COALESCE(revoked_at, now()) WHERE family_id = $1`.
abbrev pub first_time : ℕ → Option ℕ → Option ℕ
first_time now none = some now
first_time now (some t) = some t

abbrev pub revoke_in : ℕ → ℕ → RefreshSession → RefreshSession
revoke_in now family_id r =
    if r.family_id == family_id then record r { revoked_at = first_time now r.revoked_at } else r

-- `UPDATE … SET revoked_at = now() WHERE id = $1`.
abbrev pub revoke_row : ℕ → ℕ → RefreshSession → RefreshSession
revoke_row now id r = if r.id == id then record r { revoked_at = some now } else r

-- `UPDATE … SET rotated_at = now(), replaced_by = $1 WHERE id = $2`.
abbrev pub rotate_row : ℕ → ℕ → ℕ → RefreshSession → RefreshSession
rotate_row now next id r =
    if r.id == id then record r { rotated_at = some now; replaced_by = some next } else r

-- The last part of `rotateSession`; `fails` says that a call in it throws, which rolls back.
unfoldable pub rotate_to : ℕ → Draw → Bool → RefreshSession → Subject → Table → Table × Answer
rotate_to now d fails current s t = if fails || conflicts d t then (t, thrown) else (
  map (rotate_row now d.id current.id)
      (t ++ new_row now d current.family_id current.user_id current.workspace_id ∷ []),
  granted (session_for s d.token_hash),
)

-- After `loadSessionSubject`.
abbrev pub rotate_loaded :
    ℕ → Draw → Bool → RefreshSession → Option Subject → Table → Table × Answer
rotate_loaded now d fails current none t = (t, refused)
rotate_loaded now d fails current (some s) t = rotate_to now d fails current s t

-- After the SELECT.
abbrev pub rotate_found :
    ℕ → Draw → Bool → List Membership → Option RefreshSession → Table → Table × Answer
rotate_found now d fails members none t = (t, refused)
rotate_found now d fails members (some current) t =
    if is_some current.rotated_at || is_some current.revoked_at
    then (map (revoke_in now current.family_id) t, refused)
    else (if leb current.expires_at now
        then (map (revoke_row now current.id) t, refused)
        else rotate_loaded now d fails current
            (load_session_subject members current.user_id (some current.workspace_id)) t)

unfoldable pub rotate_session : ℕ → Draw → Bool → List Membership → ℕ → Table → Table × Answer
unfolding rotate_to
rotate_session now d fails members token_hash t =
    rotate_found now d fails members (find (λ r. r.token_hash == token_hash) t) t

unfoldable pub revoke_refresh_token : ℕ → ℕ → Table → Table
revoke_refresh_token now token_hash t =
    map (λ r. if r.token_hash == token_hash then record r { revoked_at = some now } else r) t
