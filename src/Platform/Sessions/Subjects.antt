-- ===== src/Platform/Sessions/Subjects.antt =====
use mathlib.Core.Path.{subst}
-- Which membership a session is made for.
use monitc.Prelude.{
  Option, leb, ◌⊎◌, Bool-cases, ℕ, some, ◌≤◌, Bool, true, none, List, [], ◌∷◌, ◌≡◌, refl, arith,
  All, select, Option-cases, inl, inr,
}
use mathlib.Core.List.{Memᴰ}
use monitc.Platform.Sessions.{subject_of, admits, earlier, load_session_subject, Membership, oldest}

oldest-none : (ms : List Membership) → oldest ms ≡ none → ms ≡ []
unfolding oldest
oldest-none [] h = refl
oldest-none (m ∷ ms) h = elim (Option-cases (oldest ms)) [
  | inl e ↦ ground arith
  | inr (b, e) ↦ ground arith
]

-- The membership that was chosen: listed, admitted, and no later than any other that is admitted.
pub record IsOldest (p : Membership → Bool) (ms : List Membership) (m : Membership) : Type 0 where
  pub listed : Memᴰ m ms
  pub admitted : p m ≡ true
  pub first : All (λ n. m.created_at ≤ n.created_at) (select p ms)

All-le :
    (a b : ℕ) (ms : List Membership)
    → a ≤ b
    → All (λ n. b ≤ n.created_at) ms
    → All (λ n. a ≤ n.created_at) ms
All-le a b [] l h = tt
All-le a b (m ∷ ms) l (h, hs) = (omega arith, All-le a b ms l hs)

-- The first row of the admitted ones against the best of the others.
oldest-chosen :
    (p : Membership → Bool) (x m : Membership) (ms : List Membership)
    → p x ≡ true
    → earlier x (oldest (select p ms)) ≡ some m
    → ((b : Membership) → oldest (select p ms) ≡ some b → IsOldest p ms b)
    → IsOldest p (x ∷ ms) m
oldest-chosen p x m ms y h ih = elim (Option-cases (oldest (select p ms))) [
  | inl e ↦
      subst (λ n. IsOldest p (x ∷ ms) n) (ground arith)
        (record {
          listed = Memᴰ.head refl;
          admitted = y;
          first = rw (y, oldest-none (select p ms) e) (omega arith);
        })
  | inr (b, e) ↦ elim (Bool-cases (leb x.created_at b.created_at)) [
    | inl l ↦
        subst (λ n. IsOldest p (x ∷ ms) n) (ground arith)
          (record {
            listed = Memᴰ.head refl;
            admitted = y;
            first = rw y (
              omega arith,
              All-le x.created_at b.created_at (select p ms) (ground arith) (ih b e).first,
            );
          })
    | inr g ↦
        subst (λ n. IsOldest p (x ∷ ms) n) (ground arith)
          (record {
            listed = Memᴰ.tail (ih b e).listed;
            admitted = (ih b e).admitted;
            first = rw y (ground arith, (ih b e).first);
          })
  ]
]

oldest-IsOldest :
    (p : Membership → Bool) (ms : List Membership) (m : Membership)
    → oldest (select p ms) ≡ some m
    → IsOldest p ms m
unfolding oldest
oldest-IsOldest p [] m h = cc
oldest-IsOldest p (x ∷ ms) m h = elim (Bool-cases (p x)) [
  | inl y ↦ oldest-chosen p x m ms y (rw y at h) (λ b e. oldest-IsOldest p ms b e)
  | inr n ↦
      let ih = oldest-IsOldest p ms m (rw n at h) in
      record { listed = Memᴰ.tail ih.listed; admitted = ih.admitted; first = rw n ih.first }
]

subject-none :
    (ms : List Membership) (user_id : ℕ) (workspace_id : Option ℕ)
    → oldest (select (admits user_id workspace_id) ms) ≡ none
    → load_session_subject ms user_id workspace_id ≡ none
unfolding load_session_subject
subject-none ms user_id workspace_id e = ground arith

subject-some :
    (ms : List Membership) (user_id : ℕ) (workspace_id : Option ℕ) (m : Membership)
    → oldest (select (admits user_id workspace_id) ms) ≡ some m
    → load_session_subject ms user_id workspace_id ≡ some (subject_of m)
unfolding load_session_subject
subject-some ms user_id workspace_id m e = ground arith

-- A session subject is the oldest of the memberships that are the user's, not disabled and in the
-- asked workspace, if one was asked for; there is none only if no membership is admitted.
pub load_session_subject-IsOldest :
    (ms : List Membership) (user_id : ℕ) (workspace_id : Option ℕ)
    → ((load_session_subject ms user_id workspace_id ≡ none)
        × (select (admits user_id workspace_id) ms ≡ []))
      ⊎ ((m : Membership) × (load_session_subject ms user_id workspace_id ≡ some (subject_of m))
          × IsOldest (admits user_id workspace_id) ms m)
load_session_subject-IsOldest ms user_id workspace_id =
    elim (Option-cases (oldest (select (admits user_id workspace_id) ms))) [
      | inl e ↦ inl (subject-none ms user_id workspace_id e, oldest-none _ e)
      | inr (m, e) ↦ inr (m, subject-some ms user_id workspace_id m e, oldest-IsOldest _ ms m e)
    ]
