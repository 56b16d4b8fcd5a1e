-- ===== src/Platform/Collector/Collected.antt =====
-- What one collection leaves behind.
use monitc.Prelude.{
  ◌⊎◌, refl, ◌+◌, ◌<◌, inl, inr, Bool-cases, Option-cases, false, ℕ, true, Option, none, some, List,
  [], ◌∷◌, ◌++◌, ◌≡◌, arith, find, map, ◌==◌,
}
use monitc.Platform.Collector.{
  SampleRow, new_lock, lock_ttl, release_lock, LockRow, acquire_lock, holder, is_recent,
  collect_one, finish, Snapshot, World, ServerRow, ServerWorkItem, Ending, collected, broke,
  unpublished, samples_of, set_connected, set_failed, connected, status_after_failure, degraded,
  secret_with,
}

abbrev pub server_of : ℕ → List ServerRow → Option ServerRow
server_of id servers = find (λ r. r.id == id) servers

abbrev pub server_after : ServerWorkItem → Ending → ServerRow → ServerRow
server_after item (collected at snapshot fresh) r = record r {
  status = connected;
  last_seen_at = some at;
  last_error_code = none;
  secret = secret_with item.secret.fingerprint item.secret fresh snapshot.fingerprint;
}
server_after item (broke code) r = record r {
  status = status_after_failure r.last_seen_at;
  last_error_code = some code;
}
server_after item (unpublished at snapshot fresh code) r = record r {
  status = degraded;
  last_seen_at = some at;
  last_error_code = some code;
  secret = secret_with item.secret.fingerprint item.secret fresh snapshot.fingerprint;
}

abbrev pub IsStored : ServerWorkItem → Ending → List SampleRow → List SampleRow → Type 0
IsStored item (collected at snapshot fresh) before after =
    after ≡ before ++ samples_of before item.id at snapshot
IsStored item (broke code) before after = after ≡ before
IsStored item (unpublished at snapshot fresh code) before after =
    after ≡ before ++ samples_of before item.id at snapshot

server_of-connected :
    (item : ServerWorkItem) (at fresh fingerprint : ℕ) (servers : List ServerRow) (r : ServerRow)
    → server_of item.id servers ≡ some r
    → server_of item.id (map (set_connected item at fresh fingerprint) servers)
      ≡ some (set_connected item at fresh fingerprint r)
server_of-connected item at fresh fingerprint [] r e = cc
server_of-connected item at fresh fingerprint (x ∷ servers) r e =
    ground (arith, server_of-connected item at fresh fingerprint servers r)

server_of-failed :
    (id code : ℕ) (servers : List ServerRow) (r : ServerRow)
    → server_of id servers ≡ some r
    → server_of id (map (set_failed id code) servers) ≡ some (set_failed id code r)
server_of-failed id code [] r e = cc
server_of-failed id code (x ∷ servers) r e = ground (arith, server_of-failed id code servers r)

server_of-id :
    (id : ℕ) (servers : List ServerRow) (r : ServerRow)
    → server_of id servers ≡ some r
    → (r.id == id) ≡ true
server_of-id id [] r e = cc
server_of-id id (x ∷ servers) r e = ground (arith, server_of-id id servers r)

finish-server :
    (item : ServerWorkItem) (ending : Ending) (w : World) (r : ServerRow)
    → server_of item.id w.servers ≡ some r
    → server_of item.id (finish item ending w).servers ≡ some (server_after item ending r)
finish-server item (collected at snapshot fresh) w r e = ground (
  arith,
  server_of-connected item at fresh snapshot.fingerprint w.servers r,
  server_of-id item.id w.servers r,
)
finish-server item (broke code) w r e =
    ground (arith, server_of-failed item.id code w.servers r, server_of-id item.id w.servers r)
finish-server item (unpublished at snapshot fresh code) w r e =
    let set = set_connected item at fresh snapshot.fingerprint in
    ground (
      arith,
      server_of-connected item at fresh snapshot.fingerprint w.servers r,
      server_of-failed item.id code (map set w.servers) (set r),
      server_of-id item.id w.servers r,
    )

finish-IsStored :
    (item : ServerWorkItem) (ending : Ending) (w : World) (locks : List LockRow)
    → IsStored item ending w.samples (finish item ending (record w { locks = locks })).samples
finish-IsStored item (collected at snapshot fresh) w locks = refl
finish-IsStored item (broke code) w locks = refl
finish-IsStored item (unpublished at snapshot fresh code) w locks = refl

-- A server that was not seen lately and whose lock is free is collected. A collection that ends well
-- leaves it connected, seen and without an error, and stores the samples; one that fails stores none
-- and leaves the server degraded, or offline if it was never seen. If only the message about the
-- samples fails, they stay stored while the server is degraded.
pub collect_one-server :
    (item : ServerWorkItem) (now token ended : ℕ) (ending : Ending) (w : World) (r : ServerRow)
    → server_of item.id w.servers ≡ some r
    → is_recent now item.minimum_poll item.last_seen_at ≡ false
    → holder now item.id w.locks ≡ none
    → (server_of item.id (collect_one item now token ended ending w).servers
        ≡ some (server_after item ending r))
      × IsStored item ending w.samples (collect_one item now token ended ending w).samples
unfolding collect_one acquire_lock
collect_one-server item now token ended ending w r e f g =
    let locks = new_lock now item.id token ∷ w.locks in
    rw (f, g)
      (
        finish-server item ending (record w { locks = locks }) r e,
        finish-IsStored item ending w locks,
      )

finish-locks :
    (item : ServerWorkItem) (ending : Ending) (w : World) → (finish item ending w).locks ≡ w.locks
finish-locks item (collected at snapshot fresh) w = refl
finish-locks item (broke code) w = refl
finish-locks item (unpublished at snapshot fresh code) w = refl

release_own :
    (now ended server token : ℕ) (locks : List LockRow)
    → ended < now + lock_ttl
    → release_lock ended server token (new_lock now server token ∷ locks) ≡ locks
unfolding release_lock
release_own now ended server token locks h = ground arith

-- However a collection goes, if it ends within two minutes the locks are as they were before, so its
-- own lock is released and no other.
pub collect_one-locks :
    (item : ServerWorkItem) (now token ended : ℕ) (ending : Ending) (w : World)
    → ended < now + lock_ttl
    → (collect_one item now token ended ending w).locks ≡ w.locks
unfolding collect_one acquire_lock
collect_one-locks item now token ended ending w h =
    elim (Bool-cases (is_recent now item.minimum_poll item.last_seen_at)) [
      | inl e ↦ rw e refl
      | inr e ↦ elim (Option-cases (holder now item.id w.locks)) [
        | inr (t, f) ↦ rw (e, f) refl
        | inl f ↦
            let locks = new_lock now item.id token ∷ w.locks in
            rw (e, f, finish-locks item ending (record w { locks = locks }))
              (release_own now ended item.id token w.locks h)
      ]
    ]

-- The secret that is written: the loaded one, unless that has no fingerprint yet.
secret_with-loaded :
    (item : ServerWorkItem) (fresh fingerprint : ℕ)
    → (secret_with item.secret.fingerprint item.secret fresh fingerprint ≡ item.secret)
      ⊎ (item.secret.fingerprint ≡ none)
secret_with-loaded item fresh fingerprint = elim (Option-cases item.secret.fingerprint) [
  | inl e ↦ inr e
  | inr (f, e) ↦ inl (rw e refl)
]

-- A successful collection of a server that is due and whose lock is free ignores the secret that its row
-- has by then: in any two states of the tables in which this is so and the server has a row, it leaves
-- the same secret in that row. It is the secret that was loaded when the cycle began, unless that one
-- has no fingerprint. So a secret that is stored in the meantime is lost.
pub collect_one-restores_secret :
    (item : ServerWorkItem) (now token ended at fresh : ℕ) (snapshot : Snapshot) (w v : World)
    (r q : ServerRow)
    → server_of item.id w.servers ≡ some r
    → server_of item.id v.servers ≡ some q
    → is_recent now item.minimum_poll item.last_seen_at ≡ false
    → holder now item.id w.locks ≡ none
    → holder now item.id v.locks ≡ none
    → (a : ServerRow) × (b : ServerRow) × (server_of item.id
          (collect_one item now token ended (collected at snapshot fresh) w).servers
        ≡ some a)
      × (server_of item.id
            (collect_one item now token ended (collected at snapshot fresh) v).servers
          ≡ some b)
      × (a.secret ≡ b.secret)
      × ((a.secret ≡ item.secret) ⊎ (item.secret.fingerprint ≡ none))
collect_one-restores_secret item now token ended at fresh snapshot w v r q e k f g h =
    let ending = collected at snapshot fresh in
    (
      server_after item ending r,
      server_after item ending q,
      (collect_one-server item now token ended ending w r e f g).0,
      (collect_one-server item now token ended ending v q k f h).0,
      refl,
      secret_with-loaded item fresh snapshot.fingerprint,
    )
