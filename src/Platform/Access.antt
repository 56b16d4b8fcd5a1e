-- ===== src/Platform/Access.antt =====
-- Access to servers: the routes of platform/apps/api/src/routes/access.ts up to what they ask of a
-- server, and the tickets for terminals, which Redis keeps for thirty seconds. `path.normalize` is the
-- argument `normalize`, and the joined rows of servers, subscriptions and plans are a list.
pub mod Terminal
pub mod Granted
pub mod Tickets
mod Tests
use monitc.Prelude.{
  ℕ, ◌+◌, Bool, true, false, ◌||◌, ◌&&◌, not, Option, none, some, List, [], ◌∷◌, ◌++◌, all, any,
  find, select, length, if◌then◌else◌, ◌==◌, ltb, leb, is_some, Chars, codes, chars_eq,
}
use monitc.Platform.Shell.{
  DockerAction, docker_logs, docker_inspect, docker_action, kubernetes_logs, kubernetes_describe,
  kubernetes_delete, kubectl,
}

pub record Entitlements : Type 0 where
  pub web_terminal : Bool
  pub sftp : Bool
  pub workload_logs : Bool
  pub workload_actions : Bool

-- A row of the join: a server whose workspace has a subscription that counts.
pub record Server : Type 0 where
  pub id : ℕ
  pub workspace_id : ℕ
  pub secret_ciphertext : Option ℕ
  pub secret_key_id : Option ℕ
  pub entitlements : Entitlements

abbrev pub is_server : ℕ → ℕ → Server → Bool
is_server id w s = s.id == id && s.workspace_id == w

abbrev pub load_server : ℕ → ℕ → List Server → Option Server
load_server id w servers = find (is_server id w) servers

abbrev pub has_secret : Server → Bool
has_secret s = is_some s.secret_ciphertext && is_some s.secret_key_id

-- `configured` is APP_REVIEW_WORKSPACE_ID.
abbrev pub is_review_sandbox : Option ℕ → Server → Bool
is_review_sandbox none s = false
is_review_sandbox (some configured) s = s.workspace_id == configured && not (has_secret s)

-- `workloadNameSchema`.
abbrev pub is_alphanumeric : ℕ → Bool
is_alphanumeric c = leb b'A' c && leb c b'Z' || leb b'a' c && leb c b'z' || leb b'0' c && leb c b'9'

abbrev pub is_name_char : ℕ → Bool
is_name_char c = is_alphanumeric c || c == b'_' || c == b'.' || c == b'-'

abbrev pub starts_name : Chars → Bool
starts_name [] = false
starts_name (c ∷ s) = is_alphanumeric c && all is_name_char s

abbrev pub is_workload_name : Chars → Bool
is_workload_name s = starts_name s && leb (length s) 253

-- `pathSchema`, and the parts of `workloadLogsQuerySchema`.
abbrev pub is_path : Chars → Bool
is_path p = leb 1 (length p) && leb (length p) 4096

abbrev pub is_tail : ℕ → Bool
is_tail n = leb 20 n && leb n 2000

abbrev pub is_container : Option Chars → Bool
is_container none = true
is_container (some c) = is_workload_name c

pub data Route : Type 0 where
  container_logs : Chars → ℕ → Route
  container_inspect : Chars → Route
  container_action : Chars → DockerAction → Route
  pod_logs : Chars → Chars → Option Chars → Bool → ℕ → Route
  pod_describe pod_action : Chars → Chars → Route
  list_files read_file write_file make_folder delete_file download_file upload_file : Chars → Route
  move_file copy_file : Chars → Chars → Route

abbrev pub allows : Entitlements → Route → Bool
allows e (container_logs _ _) = e.workload_logs
allows e (container_inspect _) = e.workload_logs
allows e (container_action _ _) = e.workload_actions
allows e (pod_logs _ _ _ _ _) = e.workload_logs
allows e (pod_describe _ _) = e.workload_logs
allows e (pod_action _ _) = e.workload_actions
allows e _ = e.sftp

abbrev pub is_valid : Route → Bool
is_valid (container_logs c tail) = is_workload_name c && is_tail tail
is_valid (container_inspect c) = is_workload_name c
is_valid (container_action c _) = is_workload_name c
is_valid (pod_logs n p c _ tail) =
    is_workload_name n && (is_workload_name p && (is_container c && is_tail tail))
is_valid (pod_describe n p) = is_workload_name n && is_workload_name p
is_valid (pod_action n p) = is_workload_name n && is_workload_name p
is_valid (list_files p) = is_path p
is_valid (read_file p) = is_path p
is_valid (write_file p) = is_path p
is_valid (make_folder p) = is_path p
is_valid (delete_file p) = is_path p
is_valid (download_file p) = is_path p
is_valid (upload_file p) = is_path p
is_valid (move_file p q) = is_path p && is_path q
is_valid (copy_file p q) = is_path p && is_path q

-- What a server is asked to do: a command, or an operation of SFTP on paths.
pub data Work : Type 0 where
  exec : Chars → Work
  readdir read write mkdir remove_recursive create_read_stream create_write_streams : Chars → Work
  rename copy_entry : Chars → Chars → Work

pub data Reply : Type 0 where
  server_not_found plan_upgrade_required validation_error root_delete_blocked : Reply
  ssh_not_configured invalid_path simulated : Reply
  -- The server that is connected to, and its work.
  connected : Server → Work → Reply

abbrev pub is_workload : Route → Bool
is_workload (container_logs _ _) = true
is_workload (container_inspect _) = true
is_workload (container_action _ _) = true
is_workload (pod_logs _ _ _ _ _) = true
is_workload (pod_describe _ _) = true
is_workload (pod_action _ _) = true
is_workload _ = false

-- `requiredSshSecret`.
abbrev pub on_server : Server → Work → Reply
on_server s work = if has_secret s then connected s work else ssh_not_configured

-- The path is computed before the connection is opened, or with the connection open.
abbrev pub at_path : Server → (Chars → Work) → Option Chars → Reply
at_path s work none = invalid_path
at_path s work (some t) = on_server s (work t)

abbrev pub unless_closed : Server → Reply
unless_closed s = if has_secret s then invalid_path else ssh_not_configured

abbrev pub inside : Server → (Chars → Work) → Option Chars → Reply
inside s work none = unless_closed s
inside s work (some t) = on_server s (work t)

abbrev pub at_paths : Server → (Chars → Chars → Work) → Option Chars → Option Chars → Reply
at_paths s work none q = unless_closed s
at_paths s work (some t) none = unless_closed s
at_paths s work (some t) (some u) = on_server s (work t u)

abbrev pub delete_at : Server → Option Chars → Reply
delete_at s none = invalid_path
delete_at s (some t) =
    if chars_eq t (codes "/") then root_delete_blocked else on_server s (remove_recursive t)

abbrev pub absolute : Chars → Chars
absolute [] = codes "/"
absolute (c ∷ p) = if c == b'/' then c ∷ p else b'/' ∷ c ∷ p

module _ (normalize : Chars → Chars) where
  unfoldable pub safe_path : Chars → Option Chars
  safe_path p = if any (λ c. c == 0) p then none else some (normalize (absolute p))

  abbrev pub perform : Server → Route → Reply
  perform s (container_logs c tail) = on_server s (exec (docker_logs tail c))
  perform s (container_inspect c) = on_server s (exec (docker_inspect c))
  perform s (container_action c a) = on_server s (exec (docker_action a c))
  perform s (pod_logs n p c previous tail) =
      on_server s (exec (kubectl (kubernetes_logs n p c previous tail)))
  perform s (pod_describe n p) = on_server s (exec (kubectl (kubernetes_describe n p)))
  perform s (pod_action n p) = on_server s (exec (kubectl (kubernetes_delete n p)))
  perform s (list_files p) = at_path s readdir (safe_path p)
  perform s (read_file p) = at_path s read (safe_path p)
  perform s (write_file p) = inside s write (safe_path p)
  perform s (make_folder p) = inside s mkdir (safe_path p)
  perform s (delete_file p) = delete_at s (safe_path p)
  perform s (download_file p) = at_path s create_read_stream (safe_path p)
  perform s (upload_file p) = at_path s create_write_streams (safe_path p)
  perform s (move_file p q) = at_paths s rename (safe_path p) (safe_path q)
  perform s (copy_file p q) = at_paths s copy_entry (safe_path p) (safe_path q)

  unfoldable pub serve_loaded : Option ℕ → Option Server → Route → Reply
  serve_loaded configured none r = server_not_found
  serve_loaded configured (some s) r =
      if allows s.entitlements r
      then (if is_valid r
          then (if is_workload r && is_review_sandbox configured s then simulated else perform s r)
          else validation_error)
      else plan_upgrade_required

  -- A request of a user of the workspace for the server.
  unfoldable pub serve : Option ℕ → List Server → ℕ → ℕ → Route → Reply
  unfolding serve_loaded
  serve configured servers w id r = serve_loaded configured (load_server id w servers) r

pub record Ticket : Type 0 where
  pub ticket : ℕ
  pub user_id : ℕ
  pub workspace_id : ℕ
  pub server_id : ℕ
  pub expires_at : ℕ

pub data TicketAnswer : Type 0 where
  no_server no_terminal no_ssh : TicketAnswer
  issued : ℕ → TicketAnswer

abbrev pub is_stored : ℕ → ℕ → Ticket → Bool
is_stored now ticket t = t.ticket == ticket && ltb now t.expires_at

-- `redis.set(…, 'EX', 30, 'NX')`.
abbrev pub store_ticket : ℕ → Ticket → List Ticket → List Ticket
store_ticket now t ts = if any (is_stored now t.ticket) ts then ts else t ∷ ts

abbrev pub issue_for : ℕ → ℕ → ℕ → ℕ → ℕ → Option Server → List Ticket → List Ticket × TicketAnswer
issue_for now draw user w id none ts = (ts, no_server)
issue_for now draw user w id (some s) ts =
    if s.entitlements.web_terminal
    then (if has_secret s
        then (
          store_ticket now
              (record {
                ticket = draw;
                user_id = user;
                workspace_id = w;
                server_id = id;
                expires_at = now + 30000;
              })
              ts,
          issued draw,
        )
        else (ts, no_ssh))
    else (ts, no_terminal)

-- `/:id/access-ticket`; `draw` is the random ticket.
unfoldable pub issue_ticket :
    ℕ → ℕ → ℕ → ℕ → ℕ → List Server → List Ticket → List Ticket × TicketAnswer
issue_ticket now draw user w id servers ts =
    issue_for now draw user w id (load_server id w servers) ts

-- `GETDEL`.
unfoldable pub take_ticket : ℕ → ℕ → List Ticket → List Ticket × Option Ticket
take_ticket now ticket ts =
    (select (λ t. not (t.ticket == ticket)) ts, find (is_stored now ticket) ts)
