-- ===== src/Platform/Members/Tests.antt =====
-- Two workspaces, requests on them, and the theorems at concrete inputs.
use monitc.Prelude.{◌⊎◌, any, List, true, false, some, [], ◌∷◌, ◌≡◌, refl}
use monitc.Platform.Members.{
  no_content, remove_member, delete_account, owned, add_member, is_shared, register, Database,
  Request, registering, adding, removing, deleting, grant_viewer, grant_operator,
  plan_limit_reached, ownership_transfer_required, serve, serve_all,
}
use monitc.Platform.Members.Owners.{IsOwned, serve_all-IsOwned}
use monitc.Platform.Members.Seats.{Fits, serve_all-Fits}
use monitc.Platform.Members.Access.{delete_account-Erases, IsErased, is_done}

abbrev empty : Database
empty = record {
  workspaces = [];
  members = [];
  users = [];
  capacities = [];
  sessions = [];
  auth_identities = [];
  passkey_credentials = [];
  mobile_licenses = [];
  contact_requests = [];
  billing_transactions = [];
  audits = [];
  access_revoked = [];
}

abbrev requests : List Request
requests =
    registering 11 1 100
    ∷ registering 22 2 200
    ∷ adding 100 1 22 grant_viewer
    ∷ removing 5 100 1 2
    ∷ deleting 6 99 2
    ∷ []

-- A plan with two seats for the first workspace.
abbrev team : Database
team = record (serve_all (registering 11 1 100 ∷ registering 22 2 200 ∷ []) empty) {
  capacities = record { workspace_id = 100; seat_limit = some 2 } ∷ [];
}

abbrev shared : Database
shared = (serve (adding 100 1 22 grant_viewer) team).0

community_is_full :
    (serve
      (adding 100 1 22 grant_viewer)
      (serve_all (registering 11 1 100 ∷ registering 22 2 200 ∷ []) empty)).1
    ≡ plan_limit_reached
unfolding serve serve_all register add_member
community_is_full = refl

owner_of_shared_stays : (serve (deleting 6 99 1) shared).1 ≡ ownership_transfer_required
unfolding serve serve_all register add_member delete_account
owner_of_shared_stays = refl

serve_all-IsOwned_example : IsOwned 100 (serve_all requests empty)
serve_all-IsOwned_example = serve_all-IsOwned 100 requests empty refl

Fits-at_first : Fits 100 team
unfolding serve serve_all register
Fits-at_first = refl

serve_all-Fits_example : Fits 100 (serve_all requests team)
serve_all-Fits_example = serve_all-Fits 100 requests team Fits-at_first

removal_is_done : is_done (serve (removing 5 100 1 2) shared).1 ≡ true
unfolding serve serve_all register add_member remove_member
removal_is_done = refl

addition_is_refused : is_done (serve (adding 100 1 33 grant_operator) shared).1 ≡ false
unfolding serve serve_all register add_member
addition_is_refused = refl

delete_account-Erases_example :
    ((any (is_shared shared.members) (owned 2 shared.members) ≡ true)
      × (delete_account 6 99 2 shared ≡ (shared, ownership_transfer_required)))
    ⊎ ((any (is_shared shared.members) (owned 2 shared.members) ≡ false)
        × ((delete_account 6 99 2 shared).1 ≡ no_content)
        × IsErased 2 99 (owned 2 shared.members) shared (delete_account 6 99 2 shared).0)
delete_account-Erases_example = delete_account-Erases 6 99 2 shared
