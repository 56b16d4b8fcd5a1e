-- ===== src/Platform/Access/Terminal/Ending.antt =====
-- When the connection of a terminal ends.
use monitc.Prelude.{Bool, true, false, ◌&&◌, ◌||◌, not, List, [], ◌∷◌, ◌≡◌, refl, arith, all}
use monitc.Platform.Access.Terminal.{
  Terminal, connecting, opening, finished, Event, socket_closed, socket_error, connected,
  shell_opened, initial, on_input, on_resize, on_shell, step, run,
}

-- The part that connects has not ended.
abbrev pub is_connecting : Terminal → Bool
is_connecting t = elim (t.stage) [ connecting ↦ true | _ ↦ false ]

-- An open connection that nothing refers to, or that no listener would close.
abbrev pub is_orphaned : Terminal → Bool
is_orphaned t =
    t.ssh_open
    && (not t.close_listens && (t.shell && elim (t.stage) [ finished ↦ true | _ ↦ false ]))

abbrev pub is_error : Event → Bool
is_error socket_error = true
is_error _ = false

step-orphaned :
    (e : Event) (t : Terminal)
    → is_error e ≡ false
    → is_orphaned t ≡ true
    → is_orphaned (step e t) ≡ true
unfolding step on_input on_resize on_shell
step-orphaned e t n h = ground (arith, n, h)

run-orphaned :
    (es : List Event) (t : Terminal)
    → all (λ e. not (is_error e)) es ≡ true
    → is_orphaned t ≡ true
    → is_orphaned (run es t) ≡ true
unfolding run
run-orphaned [] t n h = h
run-orphaned (e ∷ es) t n h =
    run-orphaned es (step e t) (ground (arith, n)) (step-orphaned e t (ground (arith, n)) h)

orphaned_now :
    (t : Terminal)
    → is_connecting t ≡ true
    → t.close_listens ≡ true
    → is_orphaned (step shell_opened (step connected (step socket_closed t))) ≡ true
unfolding step on_shell
orphaned_now t h k = ground (arith, h, k)

-- A socket that closes while the connection is made leaves it open: the connection and the shell come,
-- and no later event closes them, unless the closed socket still reports an error.
pub early_close_orphans :
    (es after : List Event)
    → is_connecting (run es initial) ≡ true
    → (run es initial).close_listens ≡ true
    → all (λ e. not (is_error e)) after ≡ true
    → (run after
        (step shell_opened (step connected (step socket_closed (run es initial))))).ssh_open
      ≡ true
early_close_orphans es after h k n =
    let t = step shell_opened (step connected (step socket_closed (run es initial))) in
    let orphaned = run-orphaned after t n (orphaned_now (run es initial) h k) in
    ground (arith, orphaned)

-- The connection is open only while the variable has it.
abbrev is_held : Terminal → Bool
is_held t = not t.ssh_open || t.connection

step-held : (e : Event) (t : Terminal) → is_held t ≡ true → is_held (step e t) ≡ true
unfolding step on_input on_resize on_shell
step-held e t h = ground (arith, h)

run-held : (es : List Event) (t : Terminal) → is_held t ≡ true → is_held (run es t) ≡ true
unfolding run
run-held [] t h = h
run-held (e ∷ es) t h = run-held es (step e t) (step-held e t h)

-- The connecting part is past the connection.
abbrev pub is_past : Terminal → Bool
is_past t = elim (t.stage) [ opening ↦ true | finished ↦ true | _ ↦ false ]

abbrev is_over : Terminal → Bool
is_over t = is_past t && not t.ssh_open

step-over : (e : Event) (t : Terminal) → is_over t ≡ true → is_over (step e t) ≡ true
unfolding step on_input on_resize on_shell
step-over e t h = ground (arith, h)

run-over : (es : List Event) (t : Terminal) → is_over t ≡ true → is_over (run es t) ≡ true
unfolding run
run-over [] t h = h
run-over (e ∷ es) t h = run-over es (step e t) (step-over e t h)

over_now :
    (t : Terminal)
    → is_past t ≡ true
    → t.close_listens ≡ true
    → is_held t ≡ true
    → is_over (step socket_closed t) ≡ true
unfolding step
over_now t h k l = ground (arith, h, k, l)

-- A socket that closes after the connection was made or refused ends it for good.
pub late_close_ends :
    (es after : List Event)
    → is_past (run es initial) ≡ true
    → (run es initial).close_listens ≡ true
    → (run after (step socket_closed (run es initial))).ssh_open ≡ false
late_close_ends es after h k =
    let t = run es initial in
    let over = run-over after (step socket_closed t) (over_now t h k (run-held es initial refl)) in
    ground (arith, over)
