-- ===== src/Platform/Servers.antt =====
-- The servers of a workspace and the tokens that pair an agent,
-- platform/apps/api/src/routes/servers.ts over the tables of platform/apps/api/src/db/migrate.ts.
-- Whether the vault can decrypt a secret is the argument `decrypts`.
pub mod Limits
pub mod Pairing
mod Tests
use monitc.Prelude.{
  ℕ, ◌+◌, Bool, true, false, ◌||◌, ◌&&◌, not, Option, none, some, List, [], ◌∷◌, ◌++◌, map, find,
  any, select, count_if, if◌then◌else◌, ◌==◌, leb, is_some,
}

pub data ConnectionMode : Type 0 where
  ssh agent : ConnectionMode

-- `encryptedSecret`: the key and the ciphertext.
abbrev pub EncryptedSecret : Type 0
EncryptedSecret = ℕ × ℕ

pub record Server : Type 0 where
  pub id : ℕ
  pub workspace_id : ℕ
  pub name : ℕ
  pub connection_mode : ConnectionMode
  pub secret : Option EncryptedSecret

-- A workspace with a subscription that counts, and what its plan entitles it to.
pub record Plan : Type 0 where
  pub workspace_id : ℕ
  pub server_limit : Option ℕ
  pub agent_mode : Bool

pub record PairingToken : Type 0 where
  pub server_id : ℕ
  pub token_hash : ℕ
  pub expires_at : ℕ
  pub used_at : Option ℕ
  pub revoked_at : Option ℕ

pub record State : Type 0 where
  pub servers : List Server
  pub plans : List Plan
  pub tokens : List PairingToken

pub data Answer : Type 0 where
  created updated no_content : Answer
  validation_error plan_limit_reached plan_upgrade_required : Answer
  server_not_found agent_server_not_found thrown : Answer

abbrev pub in_workspace : ℕ → Server → Bool
in_workspace w s = s.workspace_id == w

abbrev pub is_server : ℕ → ℕ → Server → Bool
is_server id w s = s.id == id && s.workspace_id == w

abbrev pub is_agent : ConnectionMode → Bool
is_agent agent = true
is_agent ssh = false

-- `current`, `server_limit` and `agent_mode`; a workspace without a subscription gets constants.
pub record Usage : Type 0 where
  pub current : ℕ
  pub server_limit : Option ℕ
  pub agent_mode : Bool

abbrev pub usage_of : ℕ → List Server → Option Plan → Usage
usage_of w servers none = record { current = 0; server_limit = some 2; agent_mode = false }
usage_of w servers (some p) = record {
  current = count_if (in_workspace w) servers;
  server_limit = p.server_limit;
  agent_mode = p.agent_mode;
}

abbrev pub plan_of : ℕ → List Plan → Option Plan
plan_of w plans = find (λ p. p.workspace_id == w) plans

abbrev pub reaches : Option ℕ → ℕ → Bool
reaches none current = false
reaches (some limit) current = leb limit current

-- The schema: a connection by SSH needs credentials.
abbrev pub is_complete : ConnectionMode → Option EncryptedSecret → Bool
is_complete mode secret = is_agent mode || is_some secret

module _ (decrypts : EncryptedSecret → Bool) where
  abbrev pub opens : Option EncryptedSecret → Bool
  opens none = true
  opens (some e) = decrypts e

  -- `POST /`; `id` is drawn by the database, which refuses one that is there.
  unfoldable pub create_server :
      ℕ → ℕ → ℕ → ConnectionMode → Option EncryptedSecret → State → State × Answer
  create_server w id name mode secret s =
      let usage = usage_of w s.servers (plan_of w s.plans) in
      if is_complete mode secret
      then (if opens secret
          then (if reaches usage.server_limit usage.current
              then (s, plan_limit_reached)
              else (if is_agent mode && not usage.agent_mode
                  then (s, plan_upgrade_required)
                  else (if any (λ x. x.id == id) s.servers then (s, thrown) else (
                    record s {
                      servers =
                          s.servers
                          ++ record {
                            id = id;
                            workspace_id = w;
                            name = name;
                            connection_mode = mode;
                            secret = secret;
                          }
                            ∷ [];
                    },
                    created,
                  ))))
          else (s, thrown))
      else (s, validation_error)

  -- `COALESCE`.
  abbrev pub set_fields : Option ℕ → Option EncryptedSecret → Server → Server
  set_fields none none x = x
  set_fields (some n) none x = record x { name = n }
  set_fields none (some e) x = record x { secret = some e }
  set_fields (some n) (some e) x = record x { name = n; secret = some e }

  -- `PATCH /:id`.
  unfoldable pub update_server : ℕ → ℕ → Option ℕ → Option EncryptedSecret → State → State × Answer
  update_server w id name secret s =
      if opens secret
      then (if any (is_server id w) s.servers
          then (
            record s {
              servers =
                  map (λ x. if is_server id w x then set_fields name secret x else x) s.servers;
            },
            updated,
          )
          else (s, server_not_found))
      else (s, thrown)

-- `DELETE /:id`, which takes the tokens of the server along.
unfoldable pub delete_server : ℕ → ℕ → State → State × Answer
delete_server w id s =
    if any (is_server id w) s.servers
    then (
      record s {
        servers = select (λ x. not (is_server id w x)) s.servers;
        tokens = select (λ t. not (t.server_id == id)) s.tokens;
      },
      no_content,
    )
    else (s, server_not_found)

-- `used_at IS NULL AND revoked_at IS NULL`.
abbrev pub is_open : PairingToken → Bool
is_open t = not (is_some t.used_at) && not (is_some t.revoked_at)

abbrev pub revoke_token : ℕ → ℕ → PairingToken → PairingToken
revoke_token now id t =
    if t.server_id == id && is_open t then record t { revoked_at = some now } else t

abbrev pub is_agent_server : ℕ → ℕ → Server → Bool
is_agent_server id w x = is_server id w x && is_agent x.connection_mode

-- `POST /:id/agent/pairing-token`, with the hash of the drawn token, which is unique.
unfoldable pub create_pairing_token : ℕ → ℕ → ℕ → ℕ → State → State × Answer
create_pairing_token now w id hash s =
    if any (is_agent_server id w) s.servers
    then (if any (λ t. t.token_hash == hash) s.tokens then (s, thrown) else (
      record s {
        tokens =
            map (revoke_token now id) s.tokens
            ++ record {
              server_id = id;
              token_hash = hash;
              expires_at = now + 900000;
              used_at = none;
              revoked_at = none;
            }
              ∷ [];
      },
      created,
    ))
    else (s, agent_server_not_found)
