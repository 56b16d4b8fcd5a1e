-- ===== src/Platform/Collector.antt =====
-- The collector of the platform, platform/apps/api/src/worker/collector-loop.ts: the lock of a server,
-- one collection and its writes, the cycle over all servers, and the deletion of old rows. Measured
-- values are whole numbers, times are milliseconds, and identifiers are numbers.
pub mod Retention
pub mod Lock
pub mod Rates
pub mod Collected
pub mod Cycle
mod Tests
use monitc.Prelude.{
  ℕ, ◌+◌, ◌-◌, ◌*◌, max, Bool, true, false, ◌||◌, ◌&&◌, not, Option, none, some, List, [], ◌∷◌,
  ◌++◌, map, if◌then◌else◌, ◌==◌, ltb, leb, length, find, suc,
}

-- The quotient of `rate` as it stands: so many bytes in so many milliseconds.
pub record Rate : Type 0 where
  pub bytes : ℕ
  pub in_ms : ℕ

abbrev pub no_rate : Rate
no_rate = record { bytes = 0; in_ms = 1000 }

unfoldable pub rate : ℕ → ℕ → ℕ → Rate
rate current previous elapsed_ms =
    if elapsed_ms == 0 || ltb current previous
    then no_rate
    else record { bytes = current - previous; in_ms = elapsed_ms }

-- `Math.max(1, …)` seconds, in milliseconds; the clock may have gone back.
abbrev pub elapsed : ℕ → ℕ → ℕ
elapsed collected_at sampled_at = max 1000 (collected_at - sampled_at)

-- A secret by its ciphertext, with the fingerprint that is encrypted in it.
pub record Secret : Type 0 where
  pub ciphertext : ℕ
  pub fingerprint : Option ℕ

pub record ServerWorkItem : Type 0 where
  pub id : ℕ
  pub minimum_poll : ℕ
  pub last_seen_at : Option ℕ
  pub secret : Secret

pub data ConnectionStatus : Type 0 where
  pending connected degraded offline : ConnectionStatus

-- A row of `server_connections`.
pub record ServerRow : Type 0 where
  pub id : ℕ
  pub status : ConnectionStatus
  pub last_seen_at : Option ℕ
  pub last_error_code : Option ℕ
  pub secret : Secret

-- A sample of a server (`pod` is none) or of a pod.
pub record SampleRow : Type 0 where
  pub server_id : ℕ
  pub pod : Option ℕ
  pub sampled_at : ℕ
  pub rx_total : ℕ
  pub tx_total : ℕ
  pub rx_rate : Rate
  pub tx_rate : Rate

-- The key of a lock in Redis with its token and the time when it lapses.
pub record LockRow : Type 0 where
  pub server_id : ℕ
  pub token : ℕ
  pub lapses_at : ℕ

pub record World : Type 0 where
  pub servers : List ServerRow
  pub samples : List SampleRow
  pub locks : List LockRow
  pub published : List ℕ
  pub evaluated : List ℕ

-- What `collectServer` answers: the totals of the server and those of its pods.
pub record Totals : Type 0 where
  pub rx_total : ℕ
  pub tx_total : ℕ

pub record Snapshot : Type 0 where
  pub system : Totals
  pub pods : List (ℕ × Totals)
  pub fingerprint : ℕ

-- `acquireLock`: SET … PX 120000 NX. A lapsed key is no longer there.
abbrev pub holds : ℕ → ℕ → LockRow → Bool
holds now server l = l.server_id == server && ltb now l.lapses_at

abbrev pub holder : ℕ → ℕ → List LockRow → Option ℕ
holder now server [] = none
holder now server (l ∷ locks) = if holds now server l then some l.token else holder now server locks

abbrev pub lock_ttl : ℕ
lock_ttl = 120000

abbrev pub new_lock : ℕ → ℕ → ℕ → LockRow
new_lock now server token = record { server_id = server; token = token; lapses_at = now + lock_ttl }

abbrev pub acquire_from : ℕ → ℕ → ℕ → List LockRow → Option ℕ → Option (List LockRow)
acquire_from now server token locks (some _) = none
acquire_from now server token locks none = some (new_lock now server token ∷ locks)

unfoldable pub acquire_lock : ℕ → ℕ → ℕ → List LockRow → Option (List LockRow)
acquire_lock now server token locks = acquire_from now server token locks (holder now server locks)

-- `releaseLock`: the key is deleted if it holds the token.
unfoldable pub release_lock : ℕ → ℕ → ℕ → List LockRow → List LockRow
release_lock now server token [] = []
release_lock now server token (l ∷ locks) =
    let rest = release_lock now server token locks in
    if holds now server l then (if l.token == token then locks else l ∷ locks) else l ∷ rest

-- The test before the lock: seen less than 0.8 of the poll time ago.
abbrev pub is_recent : ℕ → ℕ → Option ℕ → Bool
is_recent now minimum_poll none = false
is_recent now minimum_poll (some seen) = ltb (10 * now) (10 * seen + 8 * minimum_poll)

-- `ORDER BY sampled_at DESC LIMIT 1` of the server, and `DISTINCT ON` of each pod.
abbrev pub same_pod : Option ℕ → Option ℕ → Bool
same_pod none none = true
same_pod (some a) (some b) = a == b
same_pod _ _ = false

abbrev pub newer : SampleRow → Option SampleRow → SampleRow
newer s none = s
newer s (some best) = if ltb s.sampled_at best.sampled_at then best else s

abbrev pub previous : ℕ → Option ℕ → List SampleRow → Option SampleRow
previous server pod [] = none
previous server pod (s ∷ samples) =
    let best = previous server pod samples in
    if s.server_id == server && same_pod s.pod pod then some (newer s best) else best

abbrev pub sample_with : ℕ → Option ℕ → ℕ → Totals → Option SampleRow → SampleRow
sample_with server pod collected_at t none = record {
  server_id = server;
  pod = pod;
  sampled_at = collected_at;
  rx_total = t.rx_total;
  tx_total = t.tx_total;
  rx_rate = no_rate;
  tx_rate = no_rate;
}
sample_with server pod collected_at t (some p) = record {
  server_id = server;
  pod = pod;
  sampled_at = collected_at;
  rx_total = t.rx_total;
  tx_total = t.tx_total;
  rx_rate = rate t.rx_total p.rx_total (elapsed collected_at p.sampled_at);
  tx_rate = rate t.tx_total p.tx_total (elapsed collected_at p.sampled_at);
}

abbrev pub sample_of : List SampleRow → ℕ → ℕ → Option ℕ → Totals → SampleRow
sample_of samples server at pod t = sample_with server pod at t (previous server pod samples)

-- The samples of a snapshot; both queries for earlier samples run before the first insertion.
abbrev pub pod_samples : List SampleRow → ℕ → ℕ → List (ℕ × Totals) → List SampleRow
pod_samples samples server at [] = []
pod_samples samples server at ((pod, t) ∷ pods) =
    sample_of samples server at (some pod) t ∷ pod_samples samples server at pods

abbrev pub samples_of : List SampleRow → ℕ → ℕ → Snapshot → List SampleRow
samples_of samples server at snapshot =
    sample_of samples server at none snapshot.system ∷ pod_samples samples server at snapshot.pods

-- The ciphertext that is written: the one that was loaded, or a new one with the fingerprint.
abbrev pub secret_with : Option ℕ → Secret → ℕ → ℕ → Secret
secret_with (some _) secret fresh fingerprint = secret
secret_with none secret fresh fingerprint = record {
  ciphertext = fresh;
  fingerprint = some fingerprint;
}

abbrev pub set_connected : ServerWorkItem → ℕ → ℕ → ℕ → ServerRow → ServerRow
set_connected item at fresh fingerprint r =
    if r.id == item.id
    then record r {
      status = connected;
      last_seen_at = some at;
      last_error_code = none;
      secret = secret_with item.secret.fingerprint item.secret fresh fingerprint;
    }
    else r

abbrev pub status_after_failure : Option ℕ → ConnectionStatus
status_after_failure none = offline
status_after_failure (some _) = degraded

abbrev pub set_failed : ℕ → ℕ → ServerRow → ServerRow
set_failed id code r =
    if r.id == id
    then record r { status = status_after_failure r.last_seen_at; last_error_code = some code }
    else r

-- How a collection ends: with a snapshot, or with an error (its code by `safeErrorCode`) before
-- COMMIT, or after it when the message cannot be published.
pub data Ending : Type 0 where
  collected : ℕ → Snapshot → ℕ → Ending
  broke : ℕ → Ending
  unpublished : ℕ → Snapshot → ℕ → ℕ → Ending

abbrev pub commit : ServerWorkItem → ℕ → Snapshot → ℕ → World → World
commit item at snapshot fresh w = record w {
  samples = w.samples ++ samples_of w.samples item.id at snapshot;
  servers = map (set_connected item at fresh snapshot.fingerprint) w.servers;
}

abbrev pub fail_server : ServerWorkItem → ℕ → World → World
fail_server item code w = record w { servers = map (set_failed item.id code) w.servers }

abbrev pub finish : ServerWorkItem → Ending → World → World
finish item (collected at snapshot fresh) w =
    let done = commit item at snapshot fresh w in
    record done { published = item.id ∷ done.published; evaluated = item.id ∷ done.evaluated }
finish item (broke code) w = fail_server item code w
finish item (unpublished at snapshot fresh code) w =
    fail_server item code (commit item at snapshot fresh w)

-- From the answer of `acquireLock` on; the lock is released at the end.
abbrev pub collect_locked : ServerWorkItem → ℕ → ℕ → Ending → World → Option (List LockRow) → World
collect_locked item token ended ending w none = w
collect_locked item token ended ending w (some locks) =
    let done = finish item ending (record w { locks = locks }) in
    record done { locks = release_lock ended item.id token done.locks }

unfoldable pub collect_one : ServerWorkItem → ℕ → ℕ → ℕ → Ending → World → World
collect_one item now token ended ending w =
    if is_recent now item.minimum_poll item.last_seen_at
    then w
    else collect_locked item token ended ending w (acquire_lock now item.id token w.locks)
