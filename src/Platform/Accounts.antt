-- ===== src/Platform/Accounts.antt =====
-- Signing in with a provider and linking one, platform/apps/api/src/routes/mobile-auth.ts. What
-- `jwtVerify` and the nonce say of an identity token is part of the token; addresses, subjects and
-- tokens are the hashes that the code compares.
pub mod Kept
pub mod Linked
pub mod Replay
mod Tests
use monitc.Prelude.{
  ℕ, ◌+◌, Bool, true, false, ◌||◌, ◌&&◌, not, Option, none, some, List, [], ◌∷◌, ◌++◌, find, any,
  if◌then◌else◌, ◌==◌, ltb,
}
use monitc.Platform.Scopes.{owner, user}
use monitc.Platform.Sessions.{Membership, Subject, active, load_session_subject}

pub data Provider : Type 0 where
  apple google : Provider

abbrev pub same_provider : Provider → Provider → Bool
same_provider apple apple = true
same_provider google google = true
same_provider _ _ = false

-- An identity token, and what it says.
pub record IdentityToken : Type 0 where
  pub digest : ℕ
  -- The signature, the issuer, the audience, the subject and the nonce are as they have to be.
  pub is_valid : Bool
  pub expires_at : ℕ
  pub provider : Provider
  pub subject : ℕ
  pub email : Option ℕ
  pub email_verified : Bool

pub record User : Type 0 where
  pub id : ℕ
  pub email_lookup_hash : ℕ

pub record AuthIdentity : Type 0 where
  pub user_id : ℕ
  pub provider : Provider
  pub subject_lookup_hash : ℕ

pub record State : Type 0 where
  pub users : List User
  pub memberships : List Membership
  pub auth_identities : List AuthIdentity
  -- The keys `mobile-id-token:…` in Redis, and when they lapse.
  pub used_tokens : List (ℕ × ℕ)

pub data Answer : Type 0 where
  -- The user, and the workspace of the session.
  granted : ℕ → ℕ → Answer
  linked : Answer
  invalid_token token_already_used no_active_workspace verified_email_required : Answer
  account_link_required identity_email_mismatch identity_already_linked : Answer
  provider_already_linked thrown : Answer

abbrev pub is_used : ℕ → ℕ → ℕ × ℕ → Bool
is_used now digest (used, lapses_at) = used == digest && ltb now lapses_at

abbrev pub is_known : ℕ → ℕ → State → Bool
is_known now digest s = any (is_used now digest) s.used_tokens

-- `redis.set(…, '1', 'EX', 600, 'NX')`.
abbrev pub use_token : ℕ → ℕ → State → State
use_token now digest s = record s { used_tokens = (digest, now + 600000) ∷ s.used_tokens }

-- `verifyAppleIdentity` and `verifyGoogleIdentity`, with what follows them.
abbrev pub with_identity : ℕ → IdentityToken → (State → State × Answer) → State → State × Answer
with_identity now i next s =
    if i.is_valid && ltb now i.expires_at
    then (if is_known now i.digest s
        then (s, token_already_used)
        else next (use_token now i.digest s))
    else (s, invalid_token)

abbrev pub is_identity : Provider → ℕ → AuthIdentity → Bool
is_identity p subject r = same_provider r.provider p && r.subject_lookup_hash == subject

abbrev pub identity_of : Provider → ℕ → List AuthIdentity → Option AuthIdentity
identity_of p subject rows = find (is_identity p subject) rows

abbrev pub has_user : ℕ → List User → Bool
has_user u users = any (λ x. x.id == u) users

abbrev pub has_email : ℕ → List User → Bool
has_email e users = any (λ x. x.email_lookup_hash == e) users

-- After `loadSessionSubject`.
abbrev pub grant_subject : State → Option Subject → State × Answer
grant_subject s none = (s, no_active_workspace)
grant_subject s (some x) = (s, granted x.user_id x.workspace_id)

abbrev pub first_membership : ℕ → ℕ → ℕ → Membership
first_membership now user_id workspace_id = record {
  user_id = user_id;
  workspace_id = workspace_id;
  workspace_role = owner;
  global_role = user;
  must_change_password = false;
  disabled_at = none;
  subscription = some (0, active);
  created_at = now;
}

-- The rows of a new account, with the ids that the database draws.
abbrev pub create_account : ℕ → ℕ → ℕ → ℕ → IdentityToken → State → State × Answer
create_account now user_id workspace_id email i s = (
  record s {
    users = s.users ++ record { id = user_id; email_lookup_hash = email } ∷ [];
    memberships = s.memberships ++ first_membership now user_id workspace_id ∷ [];
    auth_identities =
        s.auth_identities
        ++ record { user_id = user_id; provider = i.provider; subject_lookup_hash = i.subject }
          ∷ [];
  },
  granted user_id workspace_id,
)

-- Without a row for the subject.
abbrev pub create_if_new : ℕ → ℕ → ℕ → IdentityToken → Option ℕ → State → State × Answer
create_if_new now user_id workspace_id i none s = (s, verified_email_required)
create_if_new now user_id workspace_id i (some email) s =
    if i.email_verified
    then (if has_email email s.users
        then (s, account_link_required)
        else (if has_user user_id s.users
            then (s, thrown)
            else create_account now user_id workspace_id email i s))
    else (s, verified_email_required)

abbrev pub sign_in_as : ℕ → ℕ → ℕ → IdentityToken → Option AuthIdentity → State → State × Answer
sign_in_as now user_id workspace_id i none s = create_if_new now user_id workspace_id i i.email s
sign_in_as now user_id workspace_id i (some r) s =
    grant_subject s (load_session_subject s.memberships r.user_id none)

-- `findOrCreateFederatedAccount`.
unfoldable pub find_or_create : ℕ → ℕ → ℕ → IdentityToken → State → State × Answer
find_or_create now user_id workspace_id i s =
    sign_in_as now user_id workspace_id i (identity_of i.provider i.subject s.auth_identities) s

-- `/apple` and `/google`.
unfoldable pub sign_in : ℕ → ℕ → ℕ → IdentityToken → State → State × Answer
unfolding find_or_create
sign_in now user_id workspace_id i s =
    with_identity now i (find_or_create now user_id workspace_id i) s

abbrev pub is_address : ℕ → ℕ → User → Bool
is_address u e x = x.id == u && x.email_lookup_hash == e

abbrev pub is_own_provider : ℕ → Provider → AuthIdentity → Bool
is_own_provider u p r = r.user_id == u && same_provider r.provider p

-- The INSERT, which the index on the user and the provider may refuse.
abbrev pub insert_identity : ℕ → IdentityToken → State → State × Answer
insert_identity u i s =
    if any (is_own_provider u i.provider) s.auth_identities then (s, provider_already_linked) else (
      record s {
        auth_identities =
            s.auth_identities
            ++ record { user_id = u; provider = i.provider; subject_lookup_hash = i.subject } ∷ [];
      },
      linked,
    )

abbrev pub link_unless : ℕ → IdentityToken → Option AuthIdentity → State → State × Answer
link_unless u i none s = insert_identity u i s
link_unless u i (some r) s = if r.user_id == u then (s, linked) else (s, identity_already_linked)

abbrev pub link_address : ℕ → IdentityToken → Option ℕ → Option Subject → State → State × Answer
link_address u i none subject s = (s, verified_email_required)
link_address u i (some email) none s =
    if i.email_verified then (s, identity_email_mismatch) else (s, verified_email_required)
link_address u i (some email) (some x) s =
    if i.email_verified
    then (if any (is_address u email) s.users
        then link_unless u i (identity_of i.provider i.subject s.auth_identities) s
        else (s, identity_email_mismatch))
    else (s, verified_email_required)

-- `linkFederatedAccount`.
unfoldable pub link_account : ℕ → IdentityToken → State → State × Answer
link_account u i s = link_address u i i.email (load_session_subject s.memberships u none) s

-- `/apple/link` and `/google/link` of a user who is signed in.
unfoldable pub link : ℕ → ℕ → IdentityToken → State → State × Answer
unfolding link_account
link now u i s = with_identity now i (link_account u i) s

pub data Request : Type 0 where
  signing_in : ℕ → ℕ → ℕ → IdentityToken → Request
  linking : ℕ → ℕ → IdentityToken → Request

unfoldable pub serve : Request → State → State × Answer
serve (signing_in now u w i) s = sign_in now u w i s
serve (linking now u i) s = link now u i s

unfoldable pub serve_all : List Request → State → State
serve_all [] s = s
serve_all (r ∷ rs) s = serve_all rs (serve r s).0
