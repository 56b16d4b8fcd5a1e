-- ===== src/Platform/Access/Granted.antt =====
-- Which requests reach a server.
use monitc.Prelude.{
  ◌==◌, ℕ, Bool, true, false, ◌&&◌, not, Option, none, some, List, [], ◌∷◌, ◌≡◌, refl, arith, Chars,
  codes, chars_eq, Bool-cases, Option-cases, inl, inr,
}
use monitc.Platform.Shell.{
  docker_logs, docker_inspect, docker_action, kubernetes_logs, kubernetes_describe,
  kubernetes_delete, kubectl,
}
use monitc.Platform.Access.{
  container_logs, container_inspect, container_action, pod_logs, pod_describe, pod_action,
  read_file, write_file, make_folder, delete_file, download_file, upload_file, move_file, copy_file,
  at_path, at_paths, inside, delete_at, on_server, readdir, read, write, mkdir, create_read_stream,
  create_write_streams, rename, copy_entry, list_files, docker_logs, Server, Route, Work, Reply,
  connected, exec, remove_recursive, is_server, load_server, allows, is_valid, is_workload,
  is_review_sandbox, has_secret, safe_path, perform, serve_loaded, serve,
}

-- Work that deletes the root of the file system.
abbrev pub removes_root : Work → Bool
removes_root (remove_recursive t) = chars_eq t (codes "/")
removes_root _ = false

-- The server is the one asked for, of the caller's workspace, and the plan and the secret are there.
abbrev pub is_granted : ℕ → ℕ → Route → Server → Work → Bool
is_granted w id r s work =
    s.id == id
    && (s.workspace_id == w
        && (allows s.entitlements r && (is_valid r && (has_secret s && not (removes_root work)))))

abbrev pub grants : ℕ → ℕ → Route → Reply → Bool
grants w id r (connected s work) = is_granted w id r s work
grants w id r _ = true

found :
    (id w : ℕ) (servers : List Server) (s : Server)
    → load_server id w servers ≡ some s
    → is_server id w s ≡ true
found id w [] s h = ground arith
found id w (x ∷ xs) s h = elim (Bool-cases (is_server id w x)) [
  | inl e ↦ let same : x ≡ s = ground (arith, e, h) in rw⁻¹ same e
  | inr e ↦ found id w xs s (ground (arith, e, h))
]

module _ (w id : ℕ) (s : Server) (r : Route) (h : is_server id w s ≡ true)
    (a : allows s.entitlements r ≡ true) (v : is_valid r ≡ true) where
  on_server-grants :
      (work : Work) → removes_root work ≡ false → grants w id r (on_server s work) ≡ true
  on_server-grants work k = ground (arith, h, a, v, k)

  at_path-grants :
      (f : Chars → Work) (p : Option Chars)
      → ((t : Chars) → removes_root (f t) ≡ false)
      → grants w id r (at_path s f p) ≡ true
  at_path-grants f none k = refl
  at_path-grants f (some t) k = on_server-grants (f t) (k t)

  inside-grants :
      (f : Chars → Work) (p : Option Chars)
      → ((t : Chars) → removes_root (f t) ≡ false)
      → grants w id r (inside s f p) ≡ true
  inside-grants f none k = ground arith
  inside-grants f (some t) k = on_server-grants (f t) (k t)

  at_paths-grants :
      (f : Chars → Chars → Work) (p q : Option Chars)
      → ((t u : Chars) → removes_root (f t u) ≡ false)
      → grants w id r (at_paths s f p q) ≡ true
  at_paths-grants f none q k = ground arith
  at_paths-grants f (some t) none k = ground arith
  at_paths-grants f (some t) (some u) k = on_server-grants (f t u) (k t u)

  delete_at-grants : (t : Option Chars) → grants w id r (delete_at s t) ≡ true
  delete_at-grants none = refl
  delete_at-grants (some t) = elim (Bool-cases (chars_eq t (codes "/"))) [
    | inl e ↦ rw e refl
    | inr e ↦ rw e (on_server-grants (remove_recursive t) e)
  ]

perform-grants :
    (normalize : Chars → Chars) (w id : ℕ) (s : Server) (r : Route)
    → is_server id w s ≡ true
    → allows s.entitlements r ≡ true
    → is_valid r ≡ true
    → grants w id r (perform normalize s r) ≡ true
perform-grants n w id s (container_logs c tail) h a v =
    on_server-grants w id s (container_logs c tail) h a v (exec (docker_logs tail c)) refl
perform-grants n w id s (container_inspect c) h a v =
    on_server-grants w id s (container_inspect c) h a v (exec (docker_inspect c)) refl
perform-grants n w id s (container_action c x) h a v =
    on_server-grants w id s (container_action c x) h a v (exec (docker_action x c)) refl
perform-grants n w id s (pod_logs m p c b tail) h a v =
    on_server-grants w id s (pod_logs m p c b tail) h a v
      (exec (kubectl (kubernetes_logs m p c b tail))) refl
perform-grants n w id s (pod_describe m p) h a v =
    on_server-grants w id s (pod_describe m p) h a v (exec (kubectl (kubernetes_describe m p))) refl
perform-grants n w id s (pod_action m p) h a v =
    on_server-grants w id s (pod_action m p) h a v (exec (kubectl (kubernetes_delete m p))) refl
perform-grants n w id s (list_files p) h a v =
    at_path-grants w id s (list_files p) h a v readdir (safe_path n p) (λ t. refl)
perform-grants n w id s (read_file p) h a v =
    at_path-grants w id s (read_file p) h a v read (safe_path n p) (λ t. refl)
perform-grants n w id s (write_file p) h a v =
    inside-grants w id s (write_file p) h a v write (safe_path n p) (λ t. refl)
perform-grants n w id s (make_folder p) h a v =
    inside-grants w id s (make_folder p) h a v mkdir (safe_path n p) (λ t. refl)
perform-grants n w id s (delete_file p) h a v =
    delete_at-grants w id s (delete_file p) h a v (safe_path n p)
perform-grants n w id s (download_file p) h a v =
    at_path-grants w id s (download_file p) h a v create_read_stream (safe_path n p) (λ t. refl)
perform-grants n w id s (upload_file p) h a v =
    at_path-grants w id s (upload_file p) h a v create_write_streams (safe_path n p) (λ t. refl)
perform-grants n w id s (move_file p q) h a v =
    at_paths-grants w id s (move_file p q) h a v rename (safe_path n p) (safe_path n q)
      (λ t u. refl)
perform-grants n w id s (copy_file p q) h a v =
    at_paths-grants w id s (copy_file p q) h a v copy_entry (safe_path n p) (safe_path n q)
      (λ t u. refl)

serve_loaded-grants :
    (normalize : Chars → Chars) (configured : Option ℕ) (w id : ℕ) (s : Server) (r : Route)
    → is_server id w s ≡ true
    → grants w id r (serve_loaded normalize configured (some s) r) ≡ true
unfolding serve_loaded
serve_loaded-grants n configured w id s r h = elim (Bool-cases (allows s.entitlements r)) [
  | inr e ↦ rw e refl
  | inl e ↦ elim (Bool-cases (is_valid r)) [
    | inr i ↦ rw (e, i) refl
    | inl i ↦ elim (Bool-cases (is_workload r && is_review_sandbox configured s)) [
      | inl j ↦ rw (e, i, j) refl
      | inr j ↦ rw (e, i, j) (perform-grants n w id s r h e i)
    ]
  ]
]

-- Whatever a request does on a server, the server is the one that it names and belongs to the caller's
-- workspace, the plan has the capability of the route, the input is valid, the server has credentials,
-- and the root of its files is not removed.
pub serve-grants :
    (normalize : Chars → Chars) (configured : Option ℕ) (servers : List Server) (w id : ℕ)
    (r : Route)
    → grants w id r (serve normalize configured servers w id r) ≡ true
unfolding serve serve_loaded
serve-grants n configured servers w id r = elim (Option-cases (load_server id w servers)) [
  | inl e ↦ rw e refl
  | inr (s, e) ↦ rw e (serve_loaded-grants n configured w id s r (found id w servers s e))
]
