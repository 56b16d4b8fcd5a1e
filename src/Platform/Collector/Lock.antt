-- ===== src/Platform/Collector/Lock.antt =====
-- Who holds the lock of a server.
use monitc.Prelude.{
  ℕ, ◌+◌, ◌<◌, false, ◌&&◌, Option, none, some, List, [], ◌∷◌, ◌≡◌, refl, arith, find, ◌==◌, All,
}
use monitc.Platform.Collector.{LockRow, holder, lock_ttl, new_lock, acquire_lock, release_lock}

-- What the workers do with locks.
pub data LockStep : Type 0 where
  acquire : ℕ → ℕ → ℕ → LockStep
  release : ℕ → ℕ → ℕ → LockStep

abbrev pub or_same : List LockRow → Option (List LockRow) → List LockRow
or_same locks none = locks
or_same locks (some more) = more

pub step : LockStep → List LockRow → List LockRow
step (acquire now server token) locks = or_same locks (acquire_lock now server token locks)
step (release now server token) locks = release_lock now server token locks

pub run : List LockStep → List LockRow → List LockRow
run [] locks = locks
run (e ∷ es) locks = run es (step e locks)

-- The step is before the time and does not release the lock of the server with the token.
abbrev pub Spares : ℕ → ℕ → ℕ → LockStep → Type 0
Spares until server token (acquire now s t) = now < until
Spares until server token (release now s t) = (now < until) × ((s == server && t == token) ≡ false)

-- The first row of a server.
abbrev pub first_of : ℕ → List LockRow → Option LockRow
first_of server locks = find (λ l. l.server_id == server) locks

holder-first_of :
    (now server : ℕ) (l : LockRow) (locks : List LockRow)
    → first_of server locks ≡ some l
    → now < l.lapses_at
    → holder now server locks ≡ some l.token
holder-first_of now server l [] e h = cc
holder-first_of now server l (x ∷ locks) e h = ground (arith, holder-first_of now server l locks)

first_of-release :
    (server now s t : ℕ) (l : LockRow) (locks : List LockRow)
    → first_of server locks ≡ some l
    → now < l.lapses_at
    → (s == server && t == l.token) ≡ false
    → first_of server (release_lock now s t locks) ≡ some l
unfolding release_lock
first_of-release server now s t l [] e h k = cc
first_of-release server now s t l (x ∷ locks) e h k =
    ground (arith, first_of-release server now s t l locks)

first_of-acquire :
    (server now s t : ℕ) (l : LockRow) (locks : List LockRow)
    → first_of server locks ≡ some l
    → now < l.lapses_at
    → first_of server (or_same locks (acquire_lock now s t locks)) ≡ some l
unfolding acquire_lock
first_of-acquire server now s t l locks e h = ground (arith, holder-first_of now server l locks)

first_of-run :
    (server : ℕ) (l : LockRow) (es : List LockStep) (locks : List LockRow)
    → first_of server locks ≡ some l
    → All (Spares l.lapses_at server l.token) es
    → first_of server (run es locks) ≡ some l
unfolding run step
first_of-run server l [] locks e h = e
first_of-run server l (acquire now s t ∷ es) locks e (h, hs) =
    first_of-run server l es (step (acquire now s t) locks)
      (first_of-acquire server now s t l locks e h) hs
first_of-run server l (release now s t ∷ es) locks e ((h, k), hs) =
    first_of-run server l es (step (release now s t) locks)
      (first_of-release server now s t l locks e h k) hs

taken_first :
    (now server token : ℕ) (locks taken : List LockRow)
    → acquire_lock now server token locks ≡ some taken
    → first_of server taken ≡ some (new_lock now server token)
unfolding acquire_lock
taken_first now server token locks taken e = ground arith

-- A worker that takes the lock of a server has it alone for two minutes, unless it releases it: while
-- workers take and release any locks before that time, every attempt to take the lock of the server is
-- refused.
pub acquire_lock-excludes :
    (now server token : ℕ) (locks taken : List LockRow) (es : List LockStep) (later other : ℕ)
    → acquire_lock now server token locks ≡ some taken
    → All (Spares (now + lock_ttl) server token) es
    → later < now + lock_ttl
    → acquire_lock later server other (run es taken) ≡ none
unfolding acquire_lock
acquire_lock-excludes now server token locks taken es later other e h k =
    rw
      (holder-first_of later server (new_lock now server token) (run es taken)
        (first_of-run server (new_lock now server token) es taken
          (taken_first now server token locks taken e) h)
        k)
      refl
