-- ===== src/Platform/Guard.antt =====
-- The revocation of access tokens, platform/apps/api/src/auth/guard.ts: the cache of one process, the
-- keys in Redis, and the lookups that wait for an answer of Redis. Times are milliseconds.
pub mod Revoked
mod Tests
use monitc.Prelude.{
  ℕ, ◌+◌, ◌*◌, Bool, true, false, not, Option, none, some, List, [], ◌∷◌, select, find, length,
  ◌++◌, if◌then◌else◌, ◌==◌, ltb,
}

-- An entry of `revocationCache`.
pub record Entry : Type 0 where
  pub user_id : ℕ
  pub revoked : Bool
  pub expires_at : ℕ

-- A key `access-revoked-user:…` with the time when it lapses.
pub record RevokedKey : Type 0 where
  pub user_id : ℕ
  pub lapses_at : ℕ

-- A lookup whose answer of Redis is known but has not been handled.
pub record Lookup : Type 0 where
  pub user_id : ℕ
  pub revoked : Bool

pub record Guard : Type 0 where
  pub cache : List Entry
  pub keys : List RevokedKey
  pub lookups : List Lookup
  -- The users that `authenticate` has let in, the newest first.
  pub granted : List ℕ

abbrev pub cached : ℕ → List Entry → Option Entry
cached user cache = find (λ e. e.user_id == user) cache

-- `cached && cached.expiresAt > Date.now()`.
abbrev pub fresh : ℕ → Option Entry → Option Bool
fresh now none = none
fresh now (some e) = if ltb now e.expires_at then some e.revoked else none

-- `redis.get`, where a lapsed key is not there.
abbrev pub is_live : ℕ → Option RevokedKey → Bool
is_live now none = false
is_live now (some k) = ltb now k.lapses_at

abbrev pub key_of : ℕ → List RevokedKey → Option RevokedKey
key_of user keys = find (λ k. k.user_id == user) keys

-- `Map.set`.
abbrev pub set_entry : ℕ → Bool → ℕ → List Entry → List Entry
set_entry user revoked expires_at cache =
    record { user_id = user; revoked = revoked; expires_at = expires_at }
    ∷ select (λ e. not (e.user_id == user)) cache

-- `if (revocationCache.size > 10_000) revocationCache.clear()`.
abbrev pub trimmed : List Entry → List Entry
trimmed cache = if ltb 10000 (length cache) then [] else cache

abbrev pub cache_time : Bool → ℕ
cache_time true = 60000
cache_time false = 5000

abbrev pub grant : ℕ → Bool → List ℕ → List ℕ
grant user true granted = granted
grant user false granted = user ∷ granted

-- `authenticate` with a valid token of the user, up to the answer of Redis.
abbrev pub ask_with : ℕ → ℕ → Guard → Option Bool → Guard
ask_with now user g (some revoked) = record g { granted = grant user revoked g.granted }
ask_with now user g none = record g {
  lookups = record { user_id = user; revoked = is_live now (key_of user g.keys) } ∷ g.lookups;
}

unfoldable pub ask : ℕ → ℕ → Guard → Guard
ask now user g = ask_with now user g (fresh now (cached user g.cache))

-- The handling of an answer, of the lookup at a place in the list.
abbrev pub answer_with : ℕ → Guard → List Lookup → Lookup → Guard
answer_with now g rest l = record g {
  lookups = rest;
  cache = set_entry l.user_id l.revoked (now + cache_time l.revoked) (trimmed g.cache);
  granted = grant l.user_id l.revoked g.granted;
}

abbrev pub answer_first : ℕ → Guard → List Lookup → Guard
answer_first now g [] = g
answer_first now g (l ∷ rest) = answer_with now g rest l

abbrev pub turn_first : Guard → List Lookup → Guard
turn_first g [] = g
turn_first g (l ∷ rest) = record g { lookups = rest ++ l ∷ [] }

-- The first lookup of the list is handled; a turn of the list lets another one be the first.
unfoldable pub answer : ℕ → Guard → Guard
answer now g = answer_first now g g.lookups

unfoldable pub turn : Guard → Guard
turn g = turn_first g g.lookups

-- `revokeAccessForUser`, with the lifetime of a token in seconds.
unfoldable pub revoke_access_for_user : ℕ → ℕ → ℕ → Guard → Guard
revoke_access_for_user ttl now user g = record g {
  cache = set_entry user true (now + 60000) g.cache;
  keys = record { user_id = user; lapses_at = now + (ttl + 10) * 1000 } ∷ g.keys;
}

pub data Step : Type 0 where
  asks : ℕ → ℕ → Step
  answers : ℕ → Step
  turns : Step
  revokes : ℕ → ℕ → Step

unfoldable pub step : ℕ → Step → Guard → Guard
step ttl (asks now user) g = ask now user g
step ttl (answers now) g = answer now g
step ttl turns g = turn g
step ttl (revokes now user) g = revoke_access_for_user ttl now user g
