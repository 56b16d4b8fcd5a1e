-- ===== src/Platform/Accounts/Linked.antt =====
-- Whom a provider's account signs in.
use monitc.Platform.Sessions.Subjects.{load_session_subject-IsOldest}
use mathlib.Core.List.{Memᴰ}
use monitc.Prelude.{
  find-found, refl, false, ◌⊎◌, ap, sym, ◌∙◌, ℕ, true, ◌&&◌, Option, none, some, List, [], ◌∷◌,
  ◌++◌, ◌≡◌, arith, ltb, Bool-cases, inl, inr,
}
use monitc.Platform.Sessions.{subject_of, Subject, load_session_subject}
use monitc.Platform.Accounts.{
  same_provider, apple, google, grant_subject, has_email, has_user, granted, Membership, Provider,
  IdentityToken, AuthIdentity, State, is_known, use_token, is_identity, identity_of, create_if_new,
  sign_in_as, find_or_create, sign_in, Request, signing_in, serve, serve_all,
}
use monitc.Platform.Accounts.Kept.{Belongs, serve-Belongs, serve_all-Belongs}

find-append_new :
    (p : Provider) (x : ℕ) (rows : List AuthIdentity) (n : AuthIdentity)
    → identity_of p x rows ≡ none
    → is_identity p x n ≡ true
    → identity_of p x (rows ++ n ∷ []) ≡ some n
find-append_new p x [] n h k = ground (arith, k)
find-append_new p x (y ∷ rows) n h k = elim (Bool-cases (is_identity p x y)) [
  | inl e ↦ ground (arith, e, h)
  | inr e ↦ ground (arith, e, h, k, find-append_new p x rows n)
]

subject-user :
    (ms : List Membership) (u : ℕ) (z : Subject)
    → load_session_subject ms u none ≡ some z
    → z.user_id ≡ u
subject-user ms u z h = elim (load_session_subject-IsOldest ms u none) [
  | inl (e, _) ↦ ground (arith, e, h)
  | inr (m, e, o) ↦
      let same : subject_of m ≡ z = ground (arith, e, h) in
      let owner : m.user_id ≡ u = ground (arith, o.admitted) in
      ap (λ (x : Subject). x.user_id) (sym same) ∙ owner
]

-- Who is signed in: the user of the row, or a new one, to whom the account belongs from now on.
abbrev pub IsEntitled : Provider → ℕ → ℕ → State → State → Type 0
IsEntitled p x u before after =
    (r : AuthIdentity) × (Belongs p x r after)
    × (r.user_id ≡ u)
    × (Belongs p x r before ⊎ (has_user u before.users ≡ false))

-- By the option that the query finds.
create_if_new-IsEntitled :
    (now u w : ℕ) (i : IdentityToken) (e : Option ℕ) (s : State) (x y : ℕ)
    → identity_of i.provider i.subject s.auth_identities ≡ none
    → (create_if_new now u w i e s).1 ≡ granted x y
    → IsEntitled i.provider i.subject x s (create_if_new now u w i e s).0
create_if_new-IsEntitled now u w i none s x y h k = let bad : ⊥ = ground (arith, k) in elim bad [ ]
create_if_new-IsEntitled now u w i (some e) s x y h k =
    let one : AuthIdentity = record {
      user_id = u;
      provider = i.provider;
      subject_lookup_hash = i.subject;
    } in
    elim (Bool-cases i.email_verified) [
      | inr a ↦ let bad : ⊥ = ground (arith, a, k) in elim bad [ ]
      | inl a ↦ elim (Bool-cases (has_email e s.users)) [
        | inl b ↦ let bad : ⊥ = ground (arith, a, b, k) in elim bad [ ]
        | inr b ↦ elim (Bool-cases (has_user u s.users)) [
          | inl c ↦ let bad : ⊥ = ground (arith, a, b, c, k) in elim bad [ ]
          | inr c ↦
              let user : u ≡ x = ground (arith, a, b, c, k) in
              rw (a, b, c)
                (
                  one,
                  find-append_new i.provider i.subject s.auth_identities one h (ground arith),
                  user,
                  inr (rw⁻¹ user c),
                )
        ]
      ]
    ]

grant_subject-IsEntitled :
    (p : Provider) (q : ℕ) (r : AuthIdentity) (o : Option Subject) (s : State) (x y : ℕ)
    → Belongs p q r s
    → load_session_subject s.memberships r.user_id none ≡ o
    → (grant_subject s o).1 ≡ granted x y
    → IsEntitled p q x s (grant_subject s o).0
grant_subject-IsEntitled p q r none s x y h e k = let bad : ⊥ = ground (arith, k) in elim bad [ ]
grant_subject-IsEntitled p q r (some z) s x y h e k =
    let user : z.user_id ≡ x = ground (arith, k) in
    (r, h, sym (subject-user s.memberships r.user_id z e) ∙ user, inl h)

sign_in_as-IsEntitled :
    (now u w : ℕ) (i : IdentityToken) (o : Option AuthIdentity) (s : State) (x y : ℕ)
    → identity_of i.provider i.subject s.auth_identities ≡ o
    → (sign_in_as now u w i o s).1 ≡ granted x y
    → IsEntitled i.provider i.subject x s (sign_in_as now u w i o s).0
sign_in_as-IsEntitled now u w i none s x y h k =
    create_if_new-IsEntitled now u w i i.email s x y h k
sign_in_as-IsEntitled now u w i (some r) s x y h k =
    grant_subject-IsEntitled i.provider i.subject r
      (load_session_subject s.memberships r.user_id none) s x y h refl k

sign_in-IsEntitled :
    (now u w : ℕ) (i : IdentityToken) (s : State) (x y : ℕ)
    → (sign_in now u w i s).1 ≡ granted x y
    → IsEntitled i.provider i.subject x s (sign_in now u w i s).0
unfolding sign_in find_or_create
sign_in-IsEntitled now u w i s x y k = elim (Bool-cases (i.is_valid && ltb now i.expires_at)) [
  | inr e ↦ let bad : ⊥ = ground (arith, e, k) in elim bad [ ]
  | inl e ↦ elim (Bool-cases (is_known now i.digest s)) [
    | inl j ↦ let bad : ⊥ = ground (arith, e, j, k) in elim bad [ ]
    | inr j ↦
        rw (e, j)
          (sign_in_as-IsEntitled now u w i (identity_of i.provider i.subject s.auth_identities)
            (use_token now i.digest s) x y refl (ground (arith, e, j, k)))
  ]
]

same_provider-eq : (p q : Provider) → same_provider p q ≡ true → p ≡ q
same_provider-eq apple apple h = refl
same_provider-eq google google h = refl
same_provider-eq apple google h = let bad : ⊥ = cc in elim bad [ ]
same_provider-eq google apple h = let bad : ⊥ = cc in elim bad [ ]

-- A row of `auth_identities` says that the provider's account is the user's.
abbrev pub IsHolder : Provider → ℕ → ℕ → State → Type 0
IsHolder p x u s =
    (r : AuthIdentity) × (Memᴰ r s.auth_identities)
    × (r.provider ≡ p)
    × (r.subject_lookup_hash ≡ x)
    × (r.user_id ≡ u)

Belongs-IsHolder :
    (p : Provider) (x u : ℕ) (r : AuthIdentity) (s : State)
    → Belongs p x r s
    → r.user_id ≡ u
    → IsHolder p x u s
Belongs-IsHolder p x u r s h k =
    let (listed, e) = find-found (is_identity p x) s.auth_identities r h in
    let provider : same_provider r.provider p ≡ true = ground (arith, e) in
    (r, listed, same_provider-eq r.provider p provider, ground (arith, e), k)

-- A provider's account signs in a user to whom a row gave exactly this account before, or one who is
-- new, and a row gives it to this user afterwards; and whatever is signed in or linked after that, if
-- the account signs in anyone, it is the same user. Accounts are not deleted in between.
pub sign_in_same :
    (now later u w v z : ℕ) (i j : IdentityToken) (qs : List Request) (s : State) (a b c d : ℕ)
    → i.provider ≡ j.provider
    → i.subject ≡ j.subject
    → (sign_in now u w i s).1 ≡ granted a b
    → (sign_in later v z j (serve_all qs (sign_in now u w i s).0)).1 ≡ granted c d
    → (IsHolder i.provider i.subject a s ⊎ (has_user a s.users ≡ false))
      × (IsHolder i.provider i.subject a (sign_in now u w i s).0)
      × (a ≡ c)
unfolding serve
sign_in_same now later u w v z i j qs s a b c d p q h k =
    let (r, there, mine, before) = sign_in-IsEntitled now u w i s a b h in
    let t = serve_all qs (sign_in now u w i s).0 in
    let still = serve_all-Belongs i.provider i.subject r qs (sign_in now u w i s).0 there in
    let (n, here, yours, earlier_on) = sign_in-IsEntitled later v z j t c d k in
    let kept = serve-Belongs i.provider i.subject r (signing_in later v z j) t still in
    let rows = (sign_in later v z j t).0.auth_identities in
    let one : some r ≡ some n =
      sym kept
      ∙ (ap (λ e. identity_of e i.subject rows) p
          ∙ (ap (λ f. identity_of j.provider f rows) q ∙ here)) in
    let same : r ≡ n = ground (arith, one) in
    let known : IsHolder i.provider i.subject a s ⊎ (has_user a s.users ≡ false) = elim before [
      | inl e ↦ inl (Belongs-IsHolder i.provider i.subject a r s e mine)
      | inr e ↦ inr e
    ] in
    (
      known,
      Belongs-IsHolder i.provider i.subject a r (sign_in now u w i s).0 there mine,
      sym mine ∙ (ap (λ (y : AuthIdentity). y.user_id) same ∙ yours),
    )
