-- ===== src/Platform/Guard/Revoked.antt =====
-- That a revoked user is not let in again.
use monitc.Prelude.{
  ◌∙◌, ℕ, ◌+◌, ◌*◌, ◌<◌, ◌≤◌, Bool, true, false, not, ◌||◌, ◌&&◌, Option, none, some, List, [], ◌∷◌,
  ◌++◌, ◌≡◌, refl, arith, select, all, ◌==◌, All, count_if,
}
use monitc.Platform.Guard.{
  answer_first, turn_first, Entry, RevokedKey, Lookup, Guard, cached, key_of, trimmed, ask, answer,
  turn, revoke_access_for_user, Step, asks, answers, turns, revokes, step,
}

pub run : ℕ → List Step → Guard → Guard
run ttl [] g = g
run ttl (e ∷ es) g = run ttl es (step ttl e g)

-- Nothing in the process says that the user is not revoked, and the key in Redis stays until `until`.
abbrev pub entry_bars : ℕ → Entry → Bool
entry_bars user e = not (e.user_id == user) || e.revoked

abbrev pub lookup_bars : ℕ → Lookup → Bool
lookup_bars user l = not (l.user_id == user) || l.revoked

abbrev pub KeyLasts : ℕ → Option RevokedKey → Type 0
KeyLasts until none = ⊥
KeyLasts until (some k) = until ≤ k.lapses_at

pub record IsBarred (user until : ℕ) (g : Guard) : Type 0 where
  pub entries : all (entry_bars user) g.cache ≡ true
  pub lookups : all (lookup_bars user) g.lookups ≡ true
  pub key : KeyLasts until (key_of user g.keys)

-- The step is in the time from `since` to `until`.
abbrev pub Within : ℕ → ℕ → Step → Type 0
Within since until (asks now user) = (since ≤ now) × (now < until)
Within since until (answers now) = Unit
Within since until turns = Unit
Within since until (revokes now user) = (since ≤ now) × (now < until)

all-select :
    (user other : ℕ) (cache : List Entry)
    → all (entry_bars user) cache ≡ true
    → all (entry_bars user) (select (λ e. not (e.user_id == other)) cache) ≡ true
all-select user other [] h = refl
all-select user other (e ∷ cache) h = ground (arith, all-select user other cache)

select_bars :
    (user : ℕ) (cache : List Entry)
    → all (entry_bars user) (select (λ e. not (e.user_id == user)) cache) ≡ true
select_bars user [] = refl
select_bars user (e ∷ cache) = ground (arith, select_bars user cache)

all-trimmed :
    (user : ℕ) (cache : List Entry)
    → all (entry_bars user) cache ≡ true
    → all (entry_bars user) (trimmed cache) ≡ true
all-trimmed user cache h = ground arith

all-append :
    (user : ℕ) (l : Lookup) (ls : List Lookup)
    → all (lookup_bars user) (ls ++ l ∷ []) ≡ (lookup_bars user l && all (lookup_bars user) ls)
all-append user l [] = ground arith
all-append user l (x ∷ ls) = ground (arith, all-append user l ls)

cached_bars :
    (user : ℕ) (cache : List Entry)
    → all (entry_bars user) cache ≡ true
    → elim (cached user cache) [ none ↦ true | some e ↦ e.revoked ] ≡ true
cached_bars user [] h = refl
cached_bars user (e ∷ cache) h = ground (arith, cached_bars user cache)

-- The number of times that a user was let in.
abbrev pub grants_of : ℕ → Guard → ℕ
grants_of user g = count_if (λ u. u == user) g.granted

-- A step that keeps the user out.
abbrev KeepsOut : ℕ → ℕ → Guard → Guard → Type 0
KeepsOut user until before after =
    IsBarred user until after × (grants_of user after ≡ grants_of user before)

ask-KeepsOut :
    (user until now other : ℕ) (g : Guard)
    → IsBarred user until g
    → now < until
    → KeepsOut user until g (ask now other g)
unfolding ask
ask-KeepsOut user until now other g b h = ground (arith, cached_bars user g.cache)

answer_first-KeepsOut :
    (user until now : ℕ) (g : Guard) (ls : List Lookup)
    → IsBarred user until g
    → all (lookup_bars user) ls ≡ true
    → KeepsOut user until g (answer_first now g ls)
answer_first-KeepsOut user until now g [] b h = (b, refl)
answer_first-KeepsOut user until now g (l ∷ ls) b h =
    ground (arith, all-trimmed user g.cache, all-select user l.user_id (trimmed g.cache))

turn_first-KeepsOut :
    (user until : ℕ) (g : Guard) (ls : List Lookup)
    → IsBarred user until g
    → all (lookup_bars user) ls ≡ true
    → KeepsOut user until g (turn_first g ls)
turn_first-KeepsOut user until g [] b h = (b, refl)
turn_first-KeepsOut user until g (l ∷ ls) b h = ground (arith, all-append user l ls)

revoke-KeepsOut :
    (ttl user since now other : ℕ) (g : Guard)
    → IsBarred user (since + (ttl + 10) * 1000) g
    → since ≤ now
    → KeepsOut user (since + (ttl + 10) * 1000) g (revoke_access_for_user ttl now other g)
unfolding revoke_access_for_user
revoke-KeepsOut ttl user since now other g b h = ground (arith, all-select user other g.cache)

step-KeepsOut :
    (ttl user since : ℕ) (e : Step) (g : Guard)
    → IsBarred user (since + (ttl + 10) * 1000) g
    → Within since (since + (ttl + 10) * 1000) e
    → KeepsOut user (since + (ttl + 10) * 1000) g (step ttl e g)
unfolding step answer turn
step-KeepsOut ttl user since (asks now other) g b (h, k) =
    ask-KeepsOut user (since + (ttl + 10) * 1000) now other g b k
step-KeepsOut ttl user since (answers now) g b h =
    answer_first-KeepsOut user (since + (ttl + 10) * 1000) now g g.lookups b b.lookups
step-KeepsOut ttl user since turns g b h =
    turn_first-KeepsOut user (since + (ttl + 10) * 1000) g g.lookups b b.lookups
step-KeepsOut ttl user since (revokes now other) g b (h, k) =
    revoke-KeepsOut ttl user since now other g b h

run-KeepsOut :
    (ttl user since : ℕ) (es : List Step) (g : Guard)
    → IsBarred user (since + (ttl + 10) * 1000) g
    → All (Within since (since + (ttl + 10) * 1000)) es
    → grants_of user (run ttl es g) ≡ grants_of user g
unfolding run
run-KeepsOut ttl user since [] g b h = refl
run-KeepsOut ttl user since (e ∷ es) g b (h, hs) =
    let k = step-KeepsOut ttl user since e g b h in
    run-KeepsOut ttl user since es (step ttl e g) k.0 hs ∙ k.1

revoke-IsBarred :
    (ttl user now : ℕ) (g : Guard)
    → all (lookup_bars user) g.lookups ≡ true
    → IsBarred user (now + (ttl + 10) * 1000) (revoke_access_for_user ttl now user g)
      × (grants_of user (revoke_access_for_user ttl now user g) ≡ grants_of user g)
unfolding revoke_access_for_user
revoke-IsBarred ttl user now g h = ground (arith, select_bars user g.cache)

-- A user whose access is revoked while no lookup of the user waits is not let in again for as long as
-- any token that was issued before can be valid (its lifetime and ten seconds), whatever other
-- requests, answers and revocations the process handles and however often its cache is cleared.
pub revoke_access-KeepsOut :
    (ttl user now : ℕ) (es : List Step) (g : Guard)
    → all (lookup_bars user) g.lookups ≡ true
    → All (Within now (now + (ttl + 10) * 1000)) es
    → grants_of user (run ttl es (revoke_access_for_user ttl now user g)) ≡ grants_of user g
revoke_access-KeepsOut ttl user now es g h k =
    let b = revoke-IsBarred ttl user now g h in
    run-KeepsOut ttl user now es (revoke_access_for_user ttl now user g) b.0 k ∙ b.1

-- If a lookup that found the user not revoked waits while the access is revoked, then it lets the user
-- in and for five seconds every further request too.
pub late_answer_lets_in :
    (ttl user now later asked : ℕ) (g : Guard) (rest : List Lookup)
    → g.lookups ≡ record { user_id = user; revoked = false } ∷ rest
    → asked < later + 5000
    → grants_of user (ask asked user (answer later (revoke_access_for_user ttl now user g)))
      ≡ grants_of user g + 2
unfolding revoke_access_for_user ask answer
late_answer_lets_in ttl user now later asked g rest e h = rw e (ground arith)
