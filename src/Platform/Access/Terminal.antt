-- ===== src/Platform/Access/Terminal.antt =====
-- The socket of a terminal, `terminalSocketRoutes` of platform/apps/api/src/routes/access.ts: its local
-- variables, and an event for each message and for each way in which a waiting part goes on.
pub mod Bounds
pub mod Stream
pub mod Ending
mod Tests
use monitc.Prelude.{
  ℕ, min, max, Bool, true, false, Option, none, some, List, [], ◌∷◌, ◌++◌, take, if◌then◌else◌,
  Chars,
}
use monitc.Platform.Access.{Server, Ticket, has_secret}

-- What the connecting part waits for: the ticket, the server, the connection and the shell.
pub data Stage : Type 0 where
  redeeming loading connecting opening finished : Stage

-- `Number(message.cols)`: absent, zero or no number, below zero, or a whole number.
pub data Dimension : Type 0 where
  falsy negative : Dimension
  size : ℕ → Dimension

pub record Terminal : Type 0 where
  pub stage : Stage
  -- The variables `connection` and `shell`, where they are set.
  pub connection : Bool
  pub shell : Bool
  pub pending_input : Chars
  pub pending_window : Option (ℕ × ℕ)
  -- Whether the SSH connection that was made is open.
  pub ssh_open : Bool
  -- Whether the listeners of `once` still wait.
  pub close_listens : Bool
  pub error_listens : Bool
  pub written : List Chars
  pub windows : List (ℕ × ℕ)
  pub closes : List ℕ

abbrev pub initial : Terminal
initial = record {
  stage = redeeming;
  connection = false;
  shell = false;
  pending_input = [];
  pending_window = none;
  ssh_open = false;
  close_listens = true;
  error_listens = true;
  written = [];
  windows = [];
  closes = [];
}

abbrev pub max_input : ℕ
max_input = 16384

-- `Math.max(low, Math.min(high, Number(value) || default))`.
abbrev pub clamp : ℕ → ℕ → ℕ → Dimension → ℕ
clamp low high or_else falsy = max low (min high or_else)
clamp low high or_else negative = low
clamp low high or_else (size n) = max low (min high n)

abbrev pub close_socket : ℕ → Terminal → Terminal
close_socket code t = record t { closes = t.closes ++ code ∷ [] }

-- `close`.
abbrev pub close : Terminal → Terminal
close t = record t { connection = false; ssh_open = if t.connection then false else t.ssh_open }

abbrev pub finish : ℕ → Terminal → Terminal
finish code t = close_socket code (record t { stage = finished })

abbrev pub fail : Terminal → Terminal
fail t = close (finish 1011 t)

unfoldable pub on_input : Chars → Terminal → Terminal
on_input message t =
    let text = take max_input message in
    if t.shell
    then record t { written = t.written ++ text ∷ [] }
    else record t { pending_input = take max_input (t.pending_input ++ text) }

unfoldable pub on_resize : Dimension → Dimension → Terminal → Terminal
on_resize cols rows t =
    let window : ℕ × ℕ = (clamp 20 500 120 cols, clamp 5 200 32 rows) in
    if t.shell
    then record t { windows = t.windows ++ window ∷ [] }
    else record t { pending_window = some window }

abbrev pub on_ticket : Option Ticket → Bool → Terminal → Terminal
on_ticket none is_terminal t = finish 1008 t
on_ticket (some _) is_terminal t =
    if is_terminal then record t { stage = loading } else finish 1008 t

abbrev pub on_server : Option Server → Terminal → Terminal
on_server none t = finish 1008 t
on_server (some s) t =
    if s.entitlements.web_terminal
    then (if has_secret s then record t { stage = connecting } else fail t)
    else finish 1008 t

abbrev pub window_list : Option (ℕ × ℕ) → List (ℕ × ℕ)
window_list none = []
window_list (some w) = w ∷ []

abbrev pub input_list : Chars → List Chars
input_list [] = []
input_list (c ∷ s) = (c ∷ s) ∷ []

unfoldable pub on_shell : Terminal → Terminal
on_shell t = record t {
  stage = finished;
  shell = true;
  windows = t.windows ++ window_list t.pending_window;
  written = t.written ++ input_list t.pending_input;
  pending_window = none;
  pending_input = [];
}

pub data Event : Type 0 where
  input : Chars → Event
  resize : Dimension → Dimension → Event
  -- A message that is not JSON, and one of another type.
  unreadable other : Event
  socket_closed socket_error : Event
  query_invalid : Event
  -- The answer of GETDEL, and whether the capability is 'terminal'.
  ticket_answered : Option Ticket → Bool → Event
  server_loaded : Option Server → Event
  connected shell_opened shell_failed shell_closed : Event
  -- The connecting part throws.
  thrown : Event

unfoldable pub step : Event → Terminal → Terminal
unfolding on_input on_resize on_shell
step (input message) t = on_input message t
step (resize cols rows) t = on_resize cols rows t
step unreadable t = close_socket 1003 t
step other t = t
step socket_closed t = if t.close_listens then close (record t { close_listens = false }) else t
step socket_error t = if t.error_listens then close (record t { error_listens = false }) else t
step query_invalid t = elim (t.stage) [ redeeming ↦ finish 1008 t | _ ↦ t ]
step (ticket_answered answer is_terminal) t = elim (t.stage) [
  | redeeming ↦ on_ticket answer is_terminal t
  | _ ↦ t
]
step (server_loaded server) t = elim (t.stage) [ loading ↦ on_server server t | _ ↦ t ]
step connected t = elim (t.stage) [
  | connecting ↦ record t { stage = opening; connection = true; ssh_open = true }
  | _ ↦ t
]
step shell_opened t = elim (t.stage) [ opening ↦ on_shell t | _ ↦ t ]
step shell_failed t = elim (t.stage) [ opening ↦ close (finish 1011 t) | _ ↦ t ]
step shell_closed t = if t.shell then close_socket 1000 t else t
step thrown t = elim (t.stage) [ finished ↦ t | opening ↦ t | _ ↦ fail t ]

unfoldable pub run : List Event → Terminal → Terminal
run [] t = t
run (e ∷ es) t = run es (step e t)
