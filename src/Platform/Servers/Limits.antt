-- ===== src/Platform/Servers/Limits.antt =====
-- The limit of servers of a plan.
use monitc.Prelude.{
  ap, ℕ, ◌+◌, ◌≤◌, Bool, true, false, ◌&&◌, not, List, [], ◌∷◌, ◌≡◌, refl, arith, any, count_if,
  count_if-append, length, ◌==◌, Option, none, some, Bool-cases, inl, inr, leb, ◌∙◌,
}
use monitc.Platform.Servers.{
  EncryptedSecret, ConnectionMode, ssh, Server, Plan, State, in_workspace, is_agent, is_complete,
  opens, plan_of, create_server,
}

module _ (decrypts : EncryptedSecret → Bool) where
  abbrev pub servers_in : ℕ → State → ℕ
  servers_in w s = count_if (in_workspace w) s.servers

  -- A creation adds the server of its workspace, or changes nothing.
  pub create_server-limited :
      (w id name : ℕ) (mode : ConnectionMode) (secret : Option EncryptedSecret) (s : State)
      (p : Plan) (limit : ℕ)
      → plan_of w s.plans ≡ some p
      → p.server_limit ≡ some limit
      → servers_in w s ≤ limit
      → servers_in w (create_server decrypts w id name mode secret s).0 ≤ limit
  unfolding create_server
  create_server-limited w id name mode secret s p limit e l h =
      let one : Server = record {
        id = id;
        workspace_id = w;
        name = name;
        connection_mode = mode;
        secret = secret;
      } in
      let more = count_if-append (in_workspace w) s.servers (one ∷ []) in
      elim (Bool-cases (is_complete mode secret)) [
        | inr a ↦ rw a h
        | inl a ↦ elim (Bool-cases (opens decrypts secret)) [
          | inr b ↦ rw (a, b) h
          | inl b ↦ elim (Bool-cases (leb limit (servers_in w s))) [
            | inl c ↦ rw (a, b, e, l, c) h
            | inr c ↦ elim (Bool-cases (is_agent mode && not p.agent_mode)) [
              | inl k ↦ rw (a, b, e, l, c, k) h
              | inr k ↦ elim (Bool-cases (any (λ x. x.id == id) s.servers)) [
                | inl m ↦ rw (a, b, e, l, c, k, m) h
                | inr m ↦ rw (a, b, e, l, c, k, m) (ground (arith, more, c))
              ]
            ]
          ]
        ]
      ]

  -- Servers with credentials for SSH that are created one after the other.
  unfoldable pub create_all : ℕ → ℕ → EncryptedSecret → List ℕ → State → State
  create_all w name e [] s = s
  create_all w name e (id ∷ ids) s =
      create_all w name e ids (create_server decrypts w id name ssh (some e) s).0

  -- The ids that are drawn are new.
  unfoldable pub all_new : ℕ → ℕ → EncryptedSecret → List ℕ → State → Bool
  unfolding create_all
  all_new w name e [] s = true
  all_new w name e (id ∷ ids) s =
      let rest = all_new w name e ids (create_server decrypts w id name ssh (some e) s).0 in
      not (any (λ x. x.id == id) s.servers) && rest

  create_server-unlimited :
      (w id name : ℕ) (e : EncryptedSecret) (s : State)
      → decrypts e ≡ true
      → plan_of w s.plans ≡ none
      → any (λ x. x.id == id) s.servers ≡ false
      → (servers_in w (create_server decrypts w id name ssh (some e) s).0 ≡ servers_in w s + 1)
        × ((create_server decrypts w id name ssh (some e) s).0.plans ≡ s.plans)
  unfolding create_server
  create_server-unlimited w id name e s d n f =
      let one : Server = record {
        id = id;
        workspace_id = w;
        name = name;
        connection_mode = ssh;
        secret = some e;
      } in
      let more = count_if-append (in_workspace w) s.servers (one ∷ []) in
      rw (d, n, f) (ground (arith, more), refl)

  -- In a workspace without a subscription that counts, servers are created without a limit: each of any
  -- number of creations adds one, as long as the vault opens the credentials and the ids are new.
  pub create_all-unlimited :
      (w name : ℕ) (e : EncryptedSecret) (ids : List ℕ) (s : State)
      → decrypts e ≡ true
      → plan_of w s.plans ≡ none
      → all_new w name e ids s ≡ true
      → servers_in w (create_all w name e ids s) ≡ servers_in w s + length ids
  unfolding create_all all_new
  create_all-unlimited w name e [] s d n f = omega arith
  create_all-unlimited w name e (id ∷ ids) s d n f =
      let fresh : any (λ x. x.id == id) s.servers ≡ false = ground (arith, f) in
      let (one, plans) = create_server-unlimited w id name e s d n fresh in
      let t = (create_server decrypts w id name ssh (some e) s).0 in
      let rest =
        create_all-unlimited w name e ids t d (ap (plan_of w) plans ∙ n) (ground (arith, f)) in
      rest ∙ omega (arith, one)
