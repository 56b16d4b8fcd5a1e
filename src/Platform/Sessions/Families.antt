-- ===== src/Platform/Sessions/Families.antt =====
-- What becomes of a family of refresh tokens when one of its tokens is used again.
use monitc.Prelude.{
  Option-cases, leb, Option-cases, ℕ, Bool, true, false, ◌||◌, ◌&&◌, not, Option, none, some, List,
  [], ◌∷◌, ◌++◌, ◌≡◌, arith, map, find, All, is_some, ◌==◌, Bool-cases, inl, inr, All-append,
}
use monitc.Platform.Sessions.{
  RefreshSession, Table, Membership, Subject, Draw, refused, new_row, create_session,
  rotate_session, revoke_refresh_token, revoke_in, revoke_row, rotate_row, rotate_to,
  load_session_subject,
}

-- A call of one of the three functions that write the table.
pub data Event : Type 0 where
  create : (now : ℕ) → Draw → (family_id : ℕ) → Subject → Event
  rotate : (now : ℕ) → Draw → (fails : Bool) → List Membership → (token_hash : ℕ) → Event
  revoke : (now token_hash : ℕ) → Event

unfoldable pub step : Event → Table → Table
step (create now d f s) t = (create_session now d f s t).0
step (rotate now d fails members h) t = (rotate_session now d fails members h t).0
step (revoke now h) t = revoke_refresh_token now h t

unfoldable pub run : List Event → Table → Table
run [] t = t
run (e ∷ es) t = run es (step e t)

abbrev pub opens : ℕ → Event → Bool
opens f (create _ _ g _) = g == f
opens f _ = false

-- A row of the family that is not revoked.
abbrev pub remains : ℕ → RefreshSession → Bool
remains f r = r.family_id == f && not (is_some r.revoked_at)

abbrev pub IsDead : ℕ → Table → Type 0
IsDead f t = All (λ r. remains f r ≡ false) t

All-map :
    (P : RefreshSession → Type 0) (g : RefreshSession → RefreshSession)
    → ((r : RefreshSession) → P r → P (g r))
    → (t : Table) → All P t
    → All P (map g t)
All-map P g keep [] h = tt
All-map P g keep (r ∷ t) (h, hs) = (keep r h, All-map P g keep t hs)

abbrev Found : (RefreshSession → Type 0) → Option RefreshSession → Type 0
Found P none = Unit
Found P (some r) = P r

find-Found :
    (P : RefreshSession → Type 0) (p : RefreshSession → Bool) (t : Table)
    → All P t
    → Found P (find p t)
find-Found P p [] h = tt
find-Found P p (r ∷ t) (h, hs) = elim (Bool-cases (p r)) [
  | inl e ↦ rw e h
  | inr e ↦ rw e (find-Found P p t hs)
]

revoke_in-IsDead : (now f : ℕ) (t : Table) → IsDead f (map (revoke_in now f) t)
revoke_in-IsDead now f [] = tt
revoke_in-IsDead now f (r ∷ t) = (ground arith, revoke_in-IsDead now f t)

revoke_in_keeps : (now f g : ℕ) (t : Table) → IsDead f t → IsDead f (map (revoke_in now g) t)
revoke_in_keeps now f g t h =
    All-map (λ r. remains f r ≡ false) (revoke_in now g) (λ r k. ground arith) t h

revoke_row_keeps : (now f i : ℕ) (t : Table) → IsDead f t → IsDead f (map (revoke_row now i) t)
revoke_row_keeps now f i t h =
    All-map (λ r. remains f r ≡ false) (revoke_row now i) (λ r k. ground arith) t h

rotate_row_keeps : (now f n i : ℕ) (t : Table) → IsDead f t → IsDead f (map (rotate_row now n i) t)
rotate_row_keeps now f n i t h =
    All-map (λ r. remains f r ≡ false) (rotate_row now n i) (λ r k. ground arith) t h

revoke_refresh_token-IsDead :
    (now f h : ℕ) (t : Table) → IsDead f t → IsDead f (revoke_refresh_token now h t)
unfolding revoke_refresh_token
revoke_refresh_token-IsDead now f h [] d = tt
revoke_refresh_token-IsDead now f h (r ∷ t) (d, ds) =
    (ground arith, revoke_refresh_token-IsDead now f h t ds)

rotate_to-IsDead :
    (now f : ℕ) (d : Draw) (fails : Bool) (c : RefreshSession) (s : Subject) (t : Table)
    → (c.family_id == f) ≡ false
    → IsDead f t
    → IsDead f (rotate_to now d fails c s t).0
unfolding rotate_to
rotate_to-IsDead now f d fails c s t o h =
    let row = new_row now d c.family_id c.user_id c.workspace_id in
    let more : IsDead f (t ++ row ∷ []) =
      All-append (λ r. remains f r ≡ false) t (row ∷ []) h (ground arith, tt) in
    ground (arith, rotate_row_keeps now f d.id c.id (t ++ row ∷ []) more)

rotate-none :
    (now : ℕ) (d : Draw) (fails : Bool) (members : List Membership) (k f : ℕ) (t : Table)
    → find (λ r. r.token_hash == k) t ≡ none
    → IsDead f t
    → IsDead f (rotate_session now d fails members k t).0
unfolding rotate_session
rotate-none now d fails members k f t e h = rw e h

-- The row that a rotation finds decides what it does.
rotate-IsDead :
    (now : ℕ) (d : Draw) (fails : Bool) (members : List Membership) (k f : ℕ) (t : Table)
    (c : RefreshSession)
    → find (λ r. r.token_hash == k) t ≡ some c
    → remains f c ≡ false
    → IsDead f t
    → IsDead f (rotate_session now d fails members k t).0
unfolding rotate_session
rotate-IsDead now d fails members k f t c e o h =
    elim (Bool-cases (is_some c.rotated_at || is_some c.revoked_at)) [
      | inl used ↦ rw (e, used) (revoke_in_keeps now f c.family_id t h)
      | inr fresh ↦ elim (Bool-cases (leb c.expires_at now)) [
        | inl old ↦ rw (e, fresh, old) (revoke_row_keeps now f c.id t h)
        | inr young ↦
            elim (Option-cases (load_session_subject members c.user_id (some c.workspace_id))) [
              | inl gone ↦ rw (e, fresh, young, gone) h
              | inr (s, there) ↦
                  rw (e, fresh, young, there)
                    (rotate_to-IsDead now f d fails c s t (ground arith) h)
            ]
      ]
    ]

create-IsDead :
    (now : ℕ) (d : Draw) (g f : ℕ) (s : Subject) (t : Table)
    → (g == f) ≡ false
    → IsDead f t
    → IsDead f (create_session now d g s t).0
unfolding create_session
create-IsDead now d g f s t o h =
    let row = new_row now d g s.user_id s.workspace_id in
    let more : IsDead f (t ++ row ∷ []) =
      All-append (λ r. remains f r ≡ false) t (row ∷ []) h (ground arith, tt) in
    ground arith

step-IsDead : (e : Event) (f : ℕ) (t : Table) → opens f e ≡ false → IsDead f t → IsDead f (step e t)
unfolding step
step-IsDead (create now d g s) f t o h = create-IsDead now d g f s t o h
step-IsDead (rotate now d fails members k) f t o h =
    elim (Option-cases (find (λ r. r.token_hash == k) t)) [
      | inl e ↦ rotate-none now d fails members k f t e h
      | inr (c, e) ↦
          rotate-IsDead now d fails members k f t c e
            (rw e at (find-Found (λ r. remains f r ≡ false) (λ r. r.token_hash == k) t h)) h
    ]
step-IsDead (revoke now k) f t o h = revoke_refresh_token-IsDead now f k t h

run-IsDead :
    (es : List Event) (f : ℕ) (t : Table)
    → All (λ e. opens f e ≡ false) es
    → IsDead f t
    → IsDead f (run es t)
unfolding run
run-IsDead [] f t o h = h
run-IsDead (e ∷ es) f t (o, os) h = run-IsDead es f (step e t) os (step-IsDead e f t o h)

pub rotate-refused :
    (now : ℕ) (d : Draw) (fails : Bool) (members : List Membership) (k : ℕ) (t : Table)
    (c : RefreshSession)
    → find (λ r. r.token_hash == k) t ≡ some c
    → (is_some c.rotated_at || is_some c.revoked_at) ≡ true
    → rotate_session now d fails members k t ≡ (map (revoke_in now c.family_id) t, refused)
unfolding rotate_session
rotate-refused now d fails members k t c e u = rw (e, u)

-- When a token that was already rotated or revoked is presented, its whole family is revoked for
-- good: after any further calls that do not open that family anew, every token of the family that
-- is presented is refused.
pub reuse_kills_family :
    (now : ℕ) (d : Draw) (fails : Bool) (members : List Membership) (k : ℕ) (t : Table)
    (c : RefreshSession) (es : List Event) (now' : ℕ) (d' : Draw) (fails' : Bool)
    (members' : List Membership) (k' : ℕ) (c' : RefreshSession)
    → find (λ r. r.token_hash == k) t ≡ some c
    → (is_some c.rotated_at || is_some c.revoked_at) ≡ true
    → All (λ e. opens c.family_id e ≡ false) es
    → find (λ r. r.token_hash == k') (run (rotate now d fails members k ∷ es) t) ≡ some c'
    → c'.family_id ≡ c.family_id
    → (rotate_session now' d' fails' members' k' (run (rotate now d fails members k ∷ es) t)).1
      ≡ refused
unfolding run step
reuse_kills_family now d fails members k t c es now' d' fails' members' k' c' e u o e' same =
    let t' = (rotate_session now d fails members k t).0 in
    let dead : IsDead c.family_id t' =
      rw (rotate-refused now d fails members k t c e u) (revoke_in-IsDead now c.family_id t) in
    let found =
      find-Found (λ r. remains c.family_id r ≡ false) (λ r. r.token_hash == k') (run es t')
        (run-IsDead es c.family_id t' o dead) in
    let gone : remains c.family_id c' ≡ false = rw e' at found in
    rw (rotate-refused now' d' fails' members' k' (run es t') c' e' (ground arith))
