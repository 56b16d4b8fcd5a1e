-- ===== src/Platform/Access/Tests.antt =====
-- Requests for a server, and the theorems at concrete inputs.
use monitc.Prelude.{true, none, some, [], ◌∷◌, ◌≡◌, refl, codes, Chars}
use monitc.Platform.Access.{
  Server, delete_file, container_inspect, root_delete_blocked, validation_error, server_not_found,
  serve, serve_loaded, safe_path, issue_ticket, take_ticket, issued,
}
use monitc.Platform.Access.Granted.{grants, serve-grants}
use monitc.Platform.Access.Tickets.{issuing, taking, run, take_ticket_once}

abbrev same : Chars → Chars
same p = p

abbrev server : Server
server = record {
  id = 4;
  workspace_id = 3;
  secret_ciphertext = some 5;
  secret_key_id = some 6;
  entitlements = record {
    web_terminal = true;
    sftp = true;
    workload_logs = true;
    workload_actions = true;
  };
}

root_stays : serve same none (server ∷ []) 3 4 (delete_file (codes "/")) ≡ root_delete_blocked
unfolding serve serve_loaded safe_path
root_stays = refl

options_are_no_names :
    serve same none (server ∷ []) 3 4 (container_inspect (codes "-v")) ≡ validation_error
unfolding serve serve_loaded
options_are_no_names = refl

other_workspace :
    serve same none (server ∷ []) 9 4 (container_inspect (codes "web")) ≡ server_not_found
unfolding serve serve_loaded
other_workspace = refl

serve-grants_example :
    grants 3 4
      (delete_file (codes "/tmp"))
      (serve same none (server ∷ []) 3 4 (delete_file (codes "/tmp")))
    ≡ true
serve-grants_example = serve-grants same none (server ∷ []) 3 4 (delete_file (codes "/tmp"))

issue_is_answered : (issue_ticket 100 7 2 3 4 (server ∷ []) []).1 ≡ issued 7
unfolding issue_ticket
issue_is_answered = refl

take_ticket_once_example :
    (take_ticket 300 7 (
      run
        (server ∷ [])
        (issuing 200 8 2 3 4 ∷ taking 250 8 ∷ [])
        (take_ticket 150 7 (issue_ticket 100 7 2 3 4 (server ∷ []) []).0).0)).1
    ≡ none
take_ticket_once_example =
    take_ticket_once 150 300 7 (server ∷ []) (issuing 200 8 2 3 4 ∷ taking 250 8 ∷ [])
      (issue_ticket 100 7 2 3 4 (server ∷ []) []).0 refl
