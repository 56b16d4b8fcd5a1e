-- ===== src/Platform/Access/Terminal/Tests.antt =====
-- A terminal from its ticket to its shell, and the theorems at concrete inputs.
use monitc.Prelude.{true, some, List, [], ◌∷◌, ◌++◌, ◌≡◌, refl, take, map, codes}
use monitc.Platform.Access.{Server, Ticket}
use monitc.Platform.Access.Terminal.{
  Event, initial, max_input, negative, size, falsy, input, resize, socket_closed, ticket_answered,
  server_loaded, connected, shell_opened, shell_closed, step, run, on_input, on_resize, on_shell,
}
use monitc.Platform.Access.Terminal.Bounds.{is_bounded, run-bounded}
use monitc.Platform.Access.Terminal.Stream.{concat, inputs, is_opening, shell_receives}
use monitc.Platform.Access.Terminal.Ending.{is_connecting, is_past, early_close_orphans}

abbrev ticket : Ticket
ticket = record { ticket = 1; user_id = 2; workspace_id = 3; server_id = 4; expires_at = 30000 }

abbrev server : Server
server = record {
  id = 4;
  workspace_id = 3;
  secret_ciphertext = some 5;
  secret_key_id = some 6;
  entitlements = record {
    web_terminal = true;
    sftp = true;
    workload_logs = true;
    workload_actions = true;
  };
}

-- Up to the connection, with a message in between, and up to the shell.
abbrev begun : List Event
begun = ticket_answered (some ticket) true ∷ input (codes "ls") ∷ server_loaded (some server) ∷ []

abbrev ready : List Event
ready = begun ++ connected ∷ input (codes " -l") ∷ []

begun-is_connecting : is_connecting (run begun initial) ≡ true
unfolding run step on_input
begun-is_connecting = refl

begun-listens : (run begun initial).close_listens ≡ true
unfolding run step on_input
begun-listens = refl

ready-is_opening : is_opening (run ready initial) ≡ true
unfolding run step on_input
ready-is_opening = refl

ready-is_past : is_past (run ready initial) ≡ true
unfolding run step on_input
ready-is_past = refl

ready-listens : (run ready initial).close_listens ≡ true
unfolding run step on_input
ready-listens = refl

windows_are_clamped :
    (run
      (ready ++ resize negative (size 900) ∷ shell_opened ∷ resize (size 80) falsy ∷ [])
      initial).windows
    ≡ (20, 200) ∷ (80, 32) ∷ []
unfolding run step on_input on_resize on_shell
windows_are_clamped = refl

run-bounded_example :
    is_bounded (run (ready ++ resize negative (size 900) ∷ shell_opened ∷ []) initial) ≡ true
run-bounded_example = run-bounded (ready ++ resize negative (size 900) ∷ shell_opened ∷ [])

shell_receives_example :
    concat (run (map input (codes "q" ∷ [])) (step shell_opened (run ready initial))).written
    ≡ take max_input (inputs ready) ++ concat (map (take max_input) (codes "q" ∷ []))
shell_receives_example = shell_receives ready (codes "q" ∷ []) ready-is_opening

early_close_orphans_example :
    (run
      (shell_closed ∷ [])
      (step shell_opened (step connected (step socket_closed (run begun initial))))).ssh_open
    ≡ true
early_close_orphans_example =
    early_close_orphans begun (shell_closed ∷ []) begun-is_connecting begun-listens refl
