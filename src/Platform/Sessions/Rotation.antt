-- ===== src/Platform/Sessions/Rotation.antt =====
-- How many sessions of a family are alive, and the single use of a token.
use monitc.Prelude.{
  ℕ, ◌+◌, ◌≤◌, Bool, true, false, ◌||◌, ◌&&◌, not, none, some, List, [], ◌∷◌, ◌++◌, ◌≡◌, refl,
  arith, map, find, is_some, ◌==◌, Bool-cases, Option-cases, inl, inr, count_if, count_if-append,
  leb, if◌then◌else◌,
}
use monitc.Platform.Sessions.{
  RefreshSession, Table, Membership, Subject, Draw, AuthSession, granted, refused, new_row,
  create_session, rotate_session, revoke_refresh_token, revoke_in, revoke_row, rotate_row,
  rotate_to, load_session_subject, conflicts,
}
use monitc.Platform.Sessions.Families.{
  rotate-refused, Event, create, rotate, revoke, step, run, opens,
}

-- A row of the family that a client could still rotate.
abbrev pub is_live : ℕ → RefreshSession → Bool
is_live f r = r.family_id == f && not (is_some r.rotated_at || is_some r.revoked_at)

abbrev pub live : ℕ → Table → ℕ
live f t = count_if (is_live f) t

live-map :
    (f : ℕ) (g : RefreshSession → RefreshSession)
    → ((r : RefreshSession) → (if is_live f (g r) then 1 else 0) ≤ (if is_live f r then 1 else 0))
    → (t : Table) → live f (map g t) ≤ live f t
live-map f g less [] = omega arith
live-map f g less (r ∷ t) = omega (arith, less r, live-map f g less t)

-- Marking the row that was found takes one live session away.
live-rotate_row :
    (now n f : ℕ) (p : RefreshSession → Bool) (c : RefreshSession) (t : Table)
    → find p t ≡ some c
    → is_live f c ≡ true
    → live f (map (rotate_row now n c.id) t) + 1 ≤ live f t
live-rotate_row now n f p c [] e h = cc
live-rotate_row now n f p c (r ∷ t) e h = elim (Bool-cases (p r)) [
  | inl y ↦ ground (arith, live-map f (rotate_row now n c.id) (λ u. ground arith) t)
  | inr y ↦ ground (arith, live-rotate_row now n f p c t (rw y at e) h)
]

find-append :
    (p : RefreshSession → Bool) (t u : Table) {c : RefreshSession}
    → find p t ≡ some c
    → find p (t ++ u) ≡ some c
find-append p [] u h = cc
find-append p (r ∷ t) u h = elim (Bool-cases (p r)) [
  | inl y ↦ rw y (rw y at h)
  | inr n ↦ rw n (find-append p t u (rw n at h))
]

live-replaced :
    (now f : ℕ) (d : Draw) (p : RefreshSession → Bool) (c row : RefreshSession) (t : Table)
    → find p t ≡ some c
    → (is_some c.rotated_at || is_some c.revoked_at) ≡ false
    → row.family_id ≡ c.family_id
    → live f (map (rotate_row now d.id c.id) (t ++ row ∷ [])) ≤ live f t
live-replaced now f d p c row t e h same =
    let found = find-append p t (row ∷ []) e in
    let sum = count_if-append (is_live f) t (row ∷ []) in
    elim (Bool-cases (c.family_id == f)) [
      | inl own ↦
          ground (arith, sum, live-rotate_row now d.id f p c (t ++ row ∷ []) found (ground arith))
      | inr other ↦
          ground
            (arith, sum, live-map f (rotate_row now d.id c.id) (λ u. ground arith) (t ++ row ∷ []))
    ]

live-rotate_to :
    (now f : ℕ) (d : Draw) (fails : Bool) (p : RefreshSession → Bool) (c : RefreshSession)
    (s : Subject) (t : Table)
    → find p t ≡ some c
    → (is_some c.rotated_at || is_some c.revoked_at) ≡ false
    → live f (rotate_to now d fails c s t).0 ≤ live f t
unfolding rotate_to
live-rotate_to now f d fails p c s t e h = elim (Bool-cases (fails || conflicts d t)) [
  | inl y ↦ rw y (omega arith)
  | inr y ↦
      rw y
        (live-replaced now f d p c (new_row now d c.family_id c.user_id c.workspace_id) t e h refl)
]

live-rotate :
    (now f : ℕ) (d : Draw) (fails : Bool) (members : List Membership) (k : ℕ) (t : Table)
    → live f (rotate_session now d fails members k t).0 ≤ live f t
unfolding rotate_session
live-rotate now f d fails members k t = elim (Option-cases (find (λ r. r.token_hash == k) t)) [
  | inl e ↦ rw e (omega arith)
  | inr (c, e) ↦ elim (Bool-cases (is_some c.rotated_at || is_some c.revoked_at)) [
    | inl used ↦ rw (e, used) (live-map f (revoke_in now c.family_id) (λ u. ground arith) t)
    | inr fresh ↦ elim (Bool-cases (leb c.expires_at now)) [
      | inl old ↦ rw (e, fresh, old) (live-map f (revoke_row now c.id) (λ u. ground arith) t)
      | inr young ↦
          elim (Option-cases (load_session_subject members c.user_id (some c.workspace_id))) [
            | inl gone ↦ rw (e, fresh, young, gone) (omega arith)
            | inr (s, there) ↦
                rw (e, fresh, young, there)
                  (live-rotate_to now f d fails (λ r. r.token_hash == k) c s t e fresh)
          ]
    ]
  ]
]

live-create :
    (now f g : ℕ) (d : Draw) (s : Subject) (t : Table)
    → live f (create_session now d g s t).0 ≤ live f t + (if g == f then 1 else 0)
unfolding create_session
live-create now f g d s t =
    ground (arith, count_if-append (is_live f) t (new_row now d g s.user_id s.workspace_id ∷ []))

live-revoke : (now f k : ℕ) (t : Table) → live f (revoke_refresh_token now k t) ≤ live f t
unfolding revoke_refresh_token
live-revoke now f k t = live-map f _ (λ u. ground arith) t

-- How often a family is opened.
abbrev pub openings : ℕ → List Event → ℕ
openings f [] = 0
openings f (e ∷ es) = (if opens f e then 1 else 0) + openings f es

live-step :
    (e : Event) (f : ℕ) (t : Table) → live f (step e t) ≤ live f t + (if opens f e then 1 else 0)
unfolding step
live-step (create now d g s) f t = live-create now f g d s t
live-step (rotate now d fails members k) f t = omega (arith, live-rotate now f d fails members k t)
live-step (revoke now k) f t = omega (arith, live-revoke now f k t)

-- A family never has more sessions that can be rotated than it had, and one more for each time that
-- it is opened: a rotation replaces a session and never adds one.
pub live-run : (es : List Event) (f : ℕ) (t : Table) → live f (run es t) ≤ live f t + openings f es
unfolding run
live-run [] f t = omega arith
live-run (e ∷ es) f t = omega (arith, live-step e f t, live-run es f (step e t))

find-rotate_row :
    (now n k : ℕ) (c : RefreshSession) (t : Table)
    → find (λ r. r.token_hash == k) t ≡ some c
    → find (λ r. r.token_hash == k) (map (rotate_row now n c.id) t) ≡ some (rotate_row now n c.id c)
find-rotate_row now n k c [] e = cc
find-rotate_row now n k c (r ∷ t) e = elim (Bool-cases (r.token_hash == k)) [
  | inl y ↦ ground arith
  | inr y ↦ ground (arith, find-rotate_row now n k c t (rw y at e))
]

rotate-granted :
    (now : ℕ) (d : Draw) (fails : Bool) (members : List Membership) (k : ℕ) (t : Table)
    (c : RefreshSession) (s : AuthSession)
    → find (λ r. r.token_hash == k) t ≡ some c
    → (rotate_session now d fails members k t).1 ≡ granted s
    → (rotate_session now d fails members k t).0
      ≡ map
          (rotate_row now d.id c.id)
          (t ++ new_row now d c.family_id c.user_id c.workspace_id ∷ [])
unfolding rotate_session
rotate-granted now d fails members k t c s e h = ground arith

rotate-none :
    (now : ℕ) (d : Draw) (fails : Bool) (members : List Membership) (k : ℕ) (t : Table)
    → find (λ r. r.token_hash == k) t ≡ none
    → (rotate_session now d fails members k t).1 ≡ refused
unfolding rotate_session
rotate-none now d fails members k t e = rw e

family-rotate_row :
    (now n i : ℕ) (r : RefreshSession) → (rotate_row now n i r).family_id ≡ r.family_id
family-rotate_row now n i r = ground arith

-- A refresh token is good for one rotation: once it was granted, the same token is refused, at any
-- later time, and its family is revoked.
pub rotate_once :
    (now : ℕ) (d : Draw) (fails : Bool) (members : List Membership) (k : ℕ) (t : Table)
    (s : AuthSession) (now' : ℕ) (d' : Draw) (fails' : Bool) (members' : List Membership)
    → (rotate_session now d fails members k t).1 ≡ granted s
    → let after = (rotate_session now d fails members k t).0 in
      (c : RefreshSession) × (find (λ r. r.token_hash == k) t ≡ some c)
      × (rotate_session now' d' fails' members' k after
          ≡ (map (revoke_in now' c.family_id) after, refused))
rotate_once now d fails members k t s now' d' fails' members' h =
    elim (Option-cases (find (λ r. r.token_hash == k) t)) [
      | inl e ↦ cc (rotate-none now d fails members k t e)
      | inr (c, e) ↦
          let row = new_row now d c.family_id c.user_id c.workspace_id in
          let there = find-rotate_row now d.id k c (t ++ row ∷ []) (find-append _ t (row ∷ []) e) in
          (
            c,
            e,
            rw (family-rotate_row now d.id c.id c) at (
                rotate-refused now' d' fails' members' k (rotate_session now d fails members k t).0
                  (rotate_row now d.id c.id c)
                  (rw (rotate-granted now d fails members k t c s e h) there) (ground arith)),
          )
    ]
