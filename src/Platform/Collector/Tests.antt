-- ===== src/Platform/Collector/Tests.antt =====
-- A server with one pod, and the theorems at concrete inputs.
use monitc.Prelude.{◌⊎◌, none, some, [], ◌∷◌, ◌≡◌, refl}
use monitc.Platform.Collector.{
  connected, ServerWorkItem, ServerRow, Secret, World, Snapshot, SampleRow, collected, degraded,
  no_rate, new_lock, acquire_lock, release_lock, collect_one,
}
use monitc.Platform.Collector.Collected.{server_of, collect_one-restores_secret}
use monitc.Platform.Collector.Retention.{Tables, agent_connected}

abbrev secret : Secret
secret = record { ciphertext = 900; fingerprint = some 5 }

abbrev item : ServerWorkItem
item = record { id = 2; minimum_poll = 10000; last_seen_at = some 1000; secret = secret }

abbrev row : ServerRow
row = record {
  id = 2;
  status = degraded;
  last_seen_at = some 1000;
  last_error_code = some 3;
  secret = record secret { ciphertext = 901 };
}

abbrev earlier : SampleRow
earlier = record {
  server_id = 2;
  pod = none;
  sampled_at = 1000;
  rx_total = 500;
  tx_total = 800;
  rx_rate = no_rate;
  tx_rate = no_rate;
}

abbrev snapshot : Snapshot
snapshot = record {
  system = record { rx_total = 700; tx_total = 100 };
  pods = (4, record { rx_total = 50; tx_total = 60 }) ∷ [];
  fingerprint = 5;
}

abbrev world : World
world = record {
  servers = row ∷ [];
  samples = earlier ∷ [];
  locks = [];
  published = [];
  evaluated = [];
}

-- The same with another secret.
abbrev patched_row : ServerRow
patched_row = record row { secret = record { ciphertext = 950; fingerprint = none } }

abbrev patched : World
patched = record world { servers = patched_row ∷ [] }

collects : (collect_one item 20000 77 25000 (collected 21000 snapshot 0) world).published ≡ 2 ∷ []
unfolding collect_one acquire_lock release_lock
collects = refl

lock_is_free : acquire_lock 20000 2 77 [] ≡ some (new_lock 20000 2 77 ∷ [])
unfolding acquire_lock
lock_is_free = refl

collect_one-restores_secret_example :
    (a : ServerRow) × (b : ServerRow) × (server_of 2
        (collect_one item 20000 77 25000 (collected 21000 snapshot 0) world).servers
      ≡ some a)
    × (server_of 2 (collect_one item 20000 77 25000 (collected 21000 snapshot 0) patched).servers
        ≡ some b)
    × (a.secret ≡ b.secret)
    × ((a.secret ≡ secret) ⊎ (secret.fingerprint ≡ none))
collect_one-restores_secret_example =
    collect_one-restores_secret item 20000 77 25000 21000 0 snapshot world patched row patched_row
      refl refl refl refl refl

abbrev tables : Tables
tables = record {
  plans = record { workspace_id = 1; retention_days = some 7 } ∷ [];
  samples = [];
  pods = [];
  rollups = [];
  containers = [];
  pairing_tokens = [];
  refresh_sessions = [];
  agents = record { server_id = 2; status = agent_connected; last_seen_at = some 1000 } ∷ [];
  servers = record { id = 2; status = connected } ∷ [];
}
