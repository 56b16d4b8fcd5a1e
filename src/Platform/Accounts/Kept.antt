-- ===== src/Platform/Accounts/Kept.antt =====
-- Rows of identities are never changed.
use monitc.Prelude.{
  ℕ, ◌&&◌, Option, none, some, List, [], ◌∷◌, ◌++◌, ◌≡◌, arith, any, ltb, Bool-cases, Option-cases,
  inl, inr,
}
use monitc.Platform.Sessions.{Subject, load_session_subject}
use monitc.Platform.Accounts.{
  Provider, IdentityToken, AuthIdentity, State, Answer, with_identity, is_known, use_token,
  is_identity, identity_of, create_if_new, sign_in_as, find_or_create, sign_in, link_unless,
  link_address, link_account, link, Request, signing_in, linking, serve, serve_all, is_address,
  is_own_provider,
}

find-append :
    (p : Provider) (x : ℕ) (rows : List AuthIdentity) (r n : AuthIdentity)
    → identity_of p x rows ≡ some r
    → identity_of p x (rows ++ n ∷ []) ≡ some r
find-append p x [] r n h = ground arith
find-append p x (y ∷ rows) r n h = elim (Bool-cases (is_identity p x y)) [
  | inl e ↦ ground (arith, e, h)
  | inr e ↦ ground (arith, e, h, find-append p x rows r n)
]

-- The account of a provider belongs to the user of the row.
abbrev pub Belongs : Provider → ℕ → AuthIdentity → State → Type 0
Belongs p x r s = identity_of p x s.auth_identities ≡ some r

create_if_new-Belongs :
    (p : Provider) (x : ℕ) (r : AuthIdentity) (now u w : ℕ) (i : IdentityToken) (e : Option ℕ)
    (s : State)
    → Belongs p x r s
    → Belongs p x r (create_if_new now u w i e s).0
create_if_new-Belongs p x r now u w i none s h = h
create_if_new-Belongs p x r now u w i (some e) s h =
    let one : AuthIdentity = record {
      user_id = u;
      provider = i.provider;
      subject_lookup_hash = i.subject;
    } in
    ground (arith, h, find-append p x s.auth_identities r one h)

sign_in_as-Belongs :
    (p : Provider) (x : ℕ) (r : AuthIdentity) (now u w : ℕ) (i : IdentityToken)
    (o : Option AuthIdentity) (s : State)
    → Belongs p x r s
    → Belongs p x r (sign_in_as now u w i o s).0
sign_in_as-Belongs p x r now u w i none s h = create_if_new-Belongs p x r now u w i i.email s h
sign_in_as-Belongs p x r now u w i (some y) s h =
    elim (Option-cases (load_session_subject s.memberships y.user_id none)) [
      | inl e ↦ rw e h
      | inr (z, e) ↦ rw e h
    ]

link_unless-Belongs :
    (p : Provider) (x : ℕ) (r : AuthIdentity) (u : ℕ) (i : IdentityToken) (o : Option AuthIdentity)
    (s : State)
    → Belongs p x r s
    → Belongs p x r (link_unless u i o s).0
link_unless-Belongs p x r u i none s h =
    let one : AuthIdentity = record {
      user_id = u;
      provider = i.provider;
      subject_lookup_hash = i.subject;
    } in
    let more = find-append p x s.auth_identities r one h in
    elim (Bool-cases (any (is_own_provider u i.provider) s.auth_identities)) [
      | inl e ↦ rw e h
      | inr e ↦ rw e more
    ]
link_unless-Belongs p x r u i (some y) s h = ground (arith, h)

link_address-Belongs :
    (p : Provider) (x : ℕ) (r : AuthIdentity) (u : ℕ) (i : IdentityToken) (e : Option ℕ)
    (o : Option Subject) (s : State)
    → Belongs p x r s
    → Belongs p x r (link_address u i e o s).0
link_address-Belongs p x r u i none o s h = h
link_address-Belongs p x r u i (some e) none s h = ground (arith, h)
link_address-Belongs p x r u i (some e) (some z) s h = elim (Bool-cases i.email_verified) [
  | inr j ↦ rw j h
  | inl j ↦ elim (Bool-cases (any (is_address u e) s.users)) [
    | inr k ↦ rw (j, k) h
    | inl k ↦
        rw (j, k)
          (link_unless-Belongs p x r u i (identity_of i.provider i.subject s.auth_identities) s h)
  ]
]

with_identity-Belongs :
    (p : Provider) (x : ℕ) (r : AuthIdentity) (now : ℕ) (i : IdentityToken)
    (next : State → State × Answer) (s : State)
    → ((t : State) → Belongs p x r t → Belongs p x r (next t).0)
    → Belongs p x r s
    → Belongs p x r (with_identity now i next s).0
with_identity-Belongs p x r now i next s k h =
    elim (Bool-cases (i.is_valid && ltb now i.expires_at)) [
      | inr e ↦ rw e h
      | inl e ↦ elim (Bool-cases (is_known now i.digest s)) [
        | inl j ↦ rw (e, j) h
        | inr j ↦ rw (e, j) (k (use_token now i.digest s) h)
      ]
    ]

pub serve-Belongs :
    (p : Provider) (x : ℕ) (r : AuthIdentity) (q : Request) (s : State)
    → Belongs p x r s
    → Belongs p x r (serve q s).0
unfolding serve sign_in link find_or_create link_account
serve-Belongs p x r (signing_in now u w i) s h =
    with_identity-Belongs p x r now i (find_or_create now u w i) s
      (λ t.
        sign_in_as-Belongs p x r now u w i (identity_of i.provider i.subject t.auth_identities) t)
      h
serve-Belongs p x r (linking now u i) s h =
    with_identity-Belongs p x r now i (link_account u i) s
      (λ t. link_address-Belongs p x r u i i.email (load_session_subject t.memberships u none) t) h

pub serve_all-Belongs :
    (p : Provider) (x : ℕ) (r : AuthIdentity) (qs : List Request) (s : State)
    → Belongs p x r s
    → Belongs p x r (serve_all qs s)
unfolding serve_all
serve_all-Belongs p x r [] s h = h
serve_all-Belongs p x r (q ∷ qs) s h =
    serve_all-Belongs p x r qs (serve q s).0 (serve-Belongs p x r q s h)
