-- ===== src/Platform/Servers/Tests.antt =====
-- Servers of a workspace with and without a plan, and the theorem at a concrete input.
use monitc.Prelude.{ℕ, ◌+◌, Bool, true, none, some, List, [], ◌∷◌, ◌≡◌, refl, length}
use monitc.Platform.Servers.{
  EncryptedSecret, ssh, agent, State, plan_limit_reached, validation_error, create_server,
}
use monitc.Platform.Servers.Limits.{servers_in, create_all, all_new, create_all-unlimited}

abbrev opens_all : EncryptedSecret → Bool
opens_all _ = true

abbrev empty : State
empty = record { servers = []; plans = []; tokens = [] }

abbrev one_plan : State
one_plan = record empty {
  plans = record { workspace_id = 3; server_limit = some 1; agent_mode = true } ∷ [];
}

abbrev ids : List ℕ
ids = 1 ∷ 2 ∷ 3 ∷ 4 ∷ []

plan_is_full :
    (create_server opens_all 3 2 0 agent none
      (create_server opens_all 3 1 0 agent none one_plan).0).1
    ≡ plan_limit_reached
unfolding create_server
plan_is_full = refl

ssh_needs_secret : (create_server opens_all 3 1 0 ssh none one_plan).1 ≡ validation_error
unfolding create_server
ssh_needs_secret = refl

ids_are_new : all_new opens_all 3 0 (5, 6) ids empty ≡ true
unfolding all_new create_server
ids_are_new = refl

create_all-unlimited_example :
    servers_in opens_all 3 (create_all opens_all 3 0 (5, 6) ids empty)
    ≡ servers_in opens_all 3 empty + length ids
create_all-unlimited_example =
    create_all-unlimited opens_all 3 0 (5, 6) ids empty refl refl ids_are_new
