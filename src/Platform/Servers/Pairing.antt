-- ===== src/Platform/Servers/Pairing.antt =====
-- A server never has two tokens that can pair an agent.
use monitc.Prelude.{
  ℕ, ◌+◌, ◌≤◌, Bool, ◌&&◌, not, List, [], ◌∷◌, ◌≡◌, refl, arith, map, any, select, count_if,
  count_if-append, ◌==◌, Option, none, Bool-cases, inl, inr,
}
use monitc.Platform.Servers.{
  EncryptedSecret, ConnectionMode, PairingToken, State, Answer, is_open, revoke_token,
  is_agent_server, create_server, update_server, delete_server, create_pairing_token,
}

pub data Request : Type 0 where
  creating : ℕ → ℕ → ℕ → ConnectionMode → Option EncryptedSecret → Request
  updating : ℕ → ℕ → Option ℕ → Option EncryptedSecret → Request
  deleting : ℕ → ℕ → Request
  pairing : ℕ → ℕ → ℕ → ℕ → Request

abbrev pub is_open_for : ℕ → PairingToken → Bool
is_open_for id t = t.server_id == id && is_open t

-- At most one token of the server is open.
abbrev pub IsSingle : ℕ → State → Type 0
IsSingle id s = count_if (is_open_for id) s.tokens ≤ 1

count-revoke_token :
    (now id x : ℕ) (ts : List PairingToken)
    → (count_if (is_open_for id) (map (revoke_token now id) ts) ≡ 0)
      × (count_if (is_open_for id) (map (revoke_token now x) ts) ≤ count_if (is_open_for id) ts)
count-revoke_token now id x [] = (refl, omega arith)
count-revoke_token now id x (t ∷ ts) = ground (arith, count-revoke_token now id x ts)

count-select_token :
    (id x : ℕ) (ts : List PairingToken)
    → count_if (is_open_for id) (select (λ t. not (t.server_id == x)) ts)
      ≤ count_if (is_open_for id) ts
count-select_token id x [] = omega arith
count-select_token id x (t ∷ ts) = ground (arith, count-select_token id x ts)

module _ (decrypts : EncryptedSecret → Bool) where
  unfoldable pub serve : Request → State → State × Answer
  serve (creating w id name mode secret) s = create_server decrypts w id name mode secret s
  serve (updating w id name secret) s = update_server decrypts w id name secret s
  serve (deleting w id) s = delete_server w id s
  serve (pairing now w id hash) s = create_pairing_token now w id hash s

  unfoldable pub serve_all : List Request → State → State
  serve_all [] s = s
  serve_all (r ∷ rs) s = serve_all rs (serve r s).0

  create_pairing_token-IsSingle :
      (id now w x hash : ℕ) (s : State)
      → IsSingle id s
      → IsSingle id (create_pairing_token now w x hash s).0
  unfolding create_pairing_token
  create_pairing_token-IsSingle id now w x hash s h =
      let one : PairingToken = record {
        server_id = x;
        token_hash = hash;
        expires_at = now + 900000;
        used_at = none;
        revoked_at = none;
      } in
      let more = count_if-append (is_open_for id) (map (revoke_token now x) s.tokens) (one ∷ []) in
      let fewer = (count-revoke_token now id x s.tokens).1 in
      let gone = (count-revoke_token now x x s.tokens).0 in
      elim (Bool-cases (any (is_agent_server x w) s.servers)) [
        | inr e ↦ rw e h
        | inl e ↦ elim (Bool-cases (any (λ t. t.token_hash == hash) s.tokens)) [
          | inl i ↦ rw (e, i) h
          | inr i ↦
              rw (e, i, more)
                (elim (Bool-cases (x == id)) [
                  | inl j ↦
                      let same : x ≡ id = ground (arith, j) in
                      let gone_here = (count-revoke_token now id id s.tokens).0 in
                      rw same (ground (arith, gone_here))
                  | inr j ↦ ground (arith, j, fewer, h)
                ])
        ]
      ]

  serve-IsSingle : (id : ℕ) (r : Request) (s : State) → IsSingle id s → IsSingle id (serve r s).0
  unfolding serve create_server update_server delete_server
  serve-IsSingle id (creating w x name mode secret) s h = ground (arith, h)
  serve-IsSingle id (updating w x name secret) s h = ground (arith, h)
  serve-IsSingle id (deleting w x) s h = ground (arith, h, count-select_token id x s.tokens)
  serve-IsSingle id (pairing now w x hash) s h = create_pairing_token-IsSingle id now w x hash s h

  -- Whatever is asked for, a server that has at most one token that is neither used nor revoked keeps at
  -- most one.
  pub serve_all-IsSingle :
      (id : ℕ) (rs : List Request) (s : State) → IsSingle id s → IsSingle id (serve_all rs s)
  unfolding serve_all
  serve_all-IsSingle id [] s h = h
  serve_all-IsSingle id (r ∷ rs) s h =
      serve_all-IsSingle id rs (serve r s).0 (serve-IsSingle id r s h)
