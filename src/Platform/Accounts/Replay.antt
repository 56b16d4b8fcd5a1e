-- ===== src/Platform/Accounts/Replay.antt =====
-- How often an identity token is accepted.
use monitc.Prelude.{
  ◌<◌, ◌≤◌, ℕ, ◌+◌, Bool, true, false, ◌&&◌, Option, none, some, List, [], ◌∷◌, ◌≡◌, refl, arith,
  any, ltb, Bool-cases, inl, inr,
}
use monitc.Platform.Sessions.{Subject, load_session_subject}
use monitc.Platform.Accounts.{
  IdentityToken, AuthIdentity, State, Answer, invalid_token, token_already_used, with_identity,
  is_known, use_token, identity_of, grant_subject, create_if_new, sign_in_as, find_or_create,
  sign_in, link_unless, link_address, link_account, link, Request, signing_in, linking, serve,
  serve_all, is_address, is_own_provider,
}

abbrev pub is_refused : Answer → Bool
is_refused invalid_token = true
is_refused token_already_used = true
is_refused _ = false

-- What comes after the verification does not touch the used tokens and does not refuse the token.
abbrev IsAfter : State → State × Answer → Type 0
IsAfter s o = (o.0.used_tokens ≡ s.used_tokens) × (is_refused o.1 ≡ false)

create_if_new-IsAfter :
    (now u w : ℕ) (i : IdentityToken) (e : Option ℕ) (s : State)
    → IsAfter s (create_if_new now u w i e s)
create_if_new-IsAfter now u w i none s = (refl, refl)
create_if_new-IsAfter now u w i (some e) s = ground arith

grant_subject-IsAfter : (s : State) (o : Option Subject) → IsAfter s (grant_subject s o)
grant_subject-IsAfter s none = (refl, refl)
grant_subject-IsAfter s (some z) = (refl, refl)

sign_in_as-IsAfter :
    (now u w : ℕ) (i : IdentityToken) (o : Option AuthIdentity) (s : State)
    → IsAfter s (sign_in_as now u w i o s)
sign_in_as-IsAfter now u w i none s = create_if_new-IsAfter now u w i i.email s
sign_in_as-IsAfter now u w i (some r) s =
    grant_subject-IsAfter s (load_session_subject s.memberships r.user_id none)

link_unless-IsAfter :
    (u : ℕ) (i : IdentityToken) (o : Option AuthIdentity) (s : State)
    → IsAfter s (link_unless u i o s)
link_unless-IsAfter u i none s =
    elim (Bool-cases (any (is_own_provider u i.provider) s.auth_identities)) [
      | inl e ↦ rw e (refl, refl)
      | inr e ↦ rw e (refl, refl)
    ]
link_unless-IsAfter u i (some r) s = ground arith

link_address-IsAfter :
    (u : ℕ) (i : IdentityToken) (e : Option ℕ) (o : Option Subject) (s : State)
    → IsAfter s (link_address u i e o s)
link_address-IsAfter u i none o s = (refl, refl)
link_address-IsAfter u i (some e) none s = ground arith
link_address-IsAfter u i (some e) (some z) s = elim (Bool-cases i.email_verified) [
  | inr j ↦ rw j (refl, refl)
  | inl j ↦ elim (Bool-cases (any (is_address u e) s.users)) [
    | inr k ↦ rw (j, k) (refl, refl)
    | inl k ↦
        rw (j, k) (link_unless-IsAfter u i (identity_of i.provider i.subject s.auth_identities) s)
  ]
]

-- A token that is known at a time stays known at that time.
with_identity-known :
    (later digest now : ℕ) (i : IdentityToken) (next : State → State × Answer) (s : State)
    → ((t : State) → IsAfter t (next t))
    → is_known later digest s ≡ true
    → is_known later digest (with_identity now i next s).0 ≡ true
with_identity-known later digest now i next s k h =
    elim (Bool-cases (i.is_valid && ltb now i.expires_at)) [
      | inr e ↦ rw e h
      | inl e ↦ elim (Bool-cases (is_known now i.digest s)) [
        | inl j ↦ rw (e, j) h
        | inr j ↦ let same = (k (use_token now i.digest s)).0 in rw (e, j, same) (ground (arith, h))
      ]
    ]

find_or_create-IsAfter :
    (now u w : ℕ) (i : IdentityToken) (t : State) → IsAfter t (find_or_create now u w i t)
unfolding find_or_create
find_or_create-IsAfter now u w i t =
    sign_in_as-IsAfter now u w i (identity_of i.provider i.subject t.auth_identities) t

link_account-IsAfter : (u : ℕ) (i : IdentityToken) (t : State) → IsAfter t (link_account u i t)
unfolding link_account
link_account-IsAfter u i t =
    link_address-IsAfter u i i.email (load_session_subject t.memberships u none) t

serve-known :
    (later digest : ℕ) (q : Request) (s : State)
    → is_known later digest s ≡ true
    → is_known later digest (serve q s).0 ≡ true
unfolding serve sign_in link
serve-known later digest (signing_in now u w i) s h =
    with_identity-known later digest now i (find_or_create now u w i) s
      (find_or_create-IsAfter now u w i) h
serve-known later digest (linking now u i) s h =
    with_identity-known later digest now i (link_account u i) s (link_account-IsAfter u i) h

serve_all-known :
    (later digest : ℕ) (qs : List Request) (s : State)
    → is_known later digest s ≡ true
    → is_known later digest (serve_all qs s) ≡ true
unfolding serve_all
serve_all-known later digest [] s h = h
serve_all-known later digest (q ∷ qs) s h =
    serve_all-known later digest qs (serve q s).0 (serve-known later digest q s h)

-- A token that is not refused is known for ten minutes, and not longer if no other use was stored.
sign_in-used :
    (now u w : ℕ) (i : IdentityToken) (s : State)
    → is_refused (sign_in now u w i s).1 ≡ false
    → (sign_in now u w i s).0.used_tokens ≡ (i.digest, now + 600000) ∷ s.used_tokens
unfolding sign_in
sign_in-used now u w i s h = elim (Bool-cases (i.is_valid && ltb now i.expires_at)) [
  | inr e ↦ let bad : ⊥ = ground (arith, e, h) in elim bad [ ]
  | inl e ↦ elim (Bool-cases (is_known now i.digest s)) [
    | inl j ↦ let bad : ⊥ = ground (arith, e, j, h) in elim bad [ ]
    | inr j ↦ rw (e, j) ((find_or_create-IsAfter now u w i (use_token now i.digest s)).0)
  ]
]

with_identity-refuses :
    (now : ℕ) (i : IdentityToken) (next : State → State × Answer) (s : State)
    → is_known now i.digest s ≡ true
    → is_refused (with_identity now i next s).1 ≡ true
with_identity-refuses now i next s h = elim (Bool-cases (i.is_valid && ltb now i.expires_at)) [
  | inr e ↦ rw e refl
  | inl e ↦ rw (e, h) refl
]

-- A token that a sign-in has used is refused for the next ten minutes, for signing in and for linking,
-- whatever is asked for meanwhile.
pub used_token_refused :
    (now later u w v z x : ℕ) (i j : IdentityToken) (qs : List Request) (s : State)
    → is_refused (sign_in now u w i s).1 ≡ false
    → j.digest ≡ i.digest
    → later < now + 600000
    → (is_refused (sign_in later v z j (serve_all qs (sign_in now u w i s).0)).1 ≡ true)
      × (is_refused (link later x j (serve_all qs (sign_in now u w i s).0)).1 ≡ true)
unfolding sign_in link
used_token_refused now later u w v z x i j qs s h e l =
    let t = serve_all qs (sign_in now u w i s).0 in
    let stored : is_known later i.digest (sign_in now u w i s).0 ≡ true =
      rw (sign_in-used now u w i s h) (ground (arith, l)) in
    let known : is_known later j.digest t ≡ true =
      rw e (serve_all-known later i.digest qs (sign_in now u w i s).0 stored) in
    (
      with_identity-refuses later j (find_or_create later v z j) t known,
      with_identity-refuses later j (link_account x j) t known,
    )

sign_in-valid :
    (now u w : ℕ) (i : IdentityToken) (s : State)
    → is_refused (sign_in now u w i s).1 ≡ false
    → i.is_valid ≡ true
unfolding sign_in
sign_in-valid now u w i s h = elim (Bool-cases i.is_valid) [
  | inl e ↦ e
  | inr e ↦ let bad : ⊥ = ground (arith, e, h) in elim bad [ ]
]

sign_in_accepts :
    (now u w : ℕ) (i : IdentityToken) (s : State)
    → i.is_valid ≡ true
    → now < i.expires_at
    → is_known now i.digest s ≡ false
    → is_refused (sign_in now u w i s).1 ≡ false
unfolding sign_in
sign_in_accepts now u w i s v l k =
    let e : (i.is_valid && ltb now i.expires_at) ≡ true = ground (arith, v, l) in
    rw (e, k) ((find_or_create-IsAfter now u w i (use_token now i.digest s)).1)

-- After ten minutes the key has lapsed: a token that expires later is accepted a second time.
pub used_token_accepted :
    (now later u w v z : ℕ) (i : IdentityToken) (s : State)
    → s.used_tokens ≡ []
    → is_refused (sign_in now u w i s).1 ≡ false
    → now + 600000 ≤ later
    → later < i.expires_at
    → is_refused (sign_in later v z i (sign_in now u w i s).0).1 ≡ false
used_token_accepted now later u w v z i s n h l k =
    sign_in_accepts later v z i (sign_in now u w i s).0 (sign_in-valid now u w i s h) k
      (rw (sign_in-used now u w i s h, n) (ground (arith, l)))
