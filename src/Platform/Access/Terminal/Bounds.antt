-- ===== src/Platform/Access/Terminal/Bounds.antt =====
-- The sizes of what a terminal keeps and passes on.
use monitc.Prelude.{
  ℕ, Bool, true, ◌&&◌, List, [], ◌∷◌, ◌++◌, ◌≡◌, refl, arith, take, length, length-take, all, leb,
  Chars,
}
use monitc.Platform.Access.Terminal.{
  Terminal, Dimension, falsy, negative, size, Event, initial, max_input, input, resize, unreadable,
  other, socket_closed, socket_error, query_invalid, ticket_answered, server_loaded, connected,
  shell_opened, shell_failed, shell_closed, thrown, clamp, input_list, window_list, on_input,
  on_resize, on_shell, step, run,
}

abbrev pub is_short : Chars → Bool
is_short s = leb (length s) max_input

abbrev pub is_sized : ℕ × ℕ → Bool
is_sized (cols, rows) = leb 20 cols && (leb cols 500 && (leb 5 rows && leb rows 200))

-- Pending and written input has at most 16384 characters, and windows have usual sizes.
abbrev pub is_bounded : Terminal → Bool
is_bounded t =
    is_short t.pending_input
    && (all is_short t.written
        && (all is_sized t.windows && all is_sized (window_list t.pending_window)))

module _ {ℓ} {A : Type ℓ} where
  all-append : (p : A → Bool) (xs ys : List A) → all p (xs ++ ys) ≡ (all p xs && all p ys)
  all-append p [] ys = refl
  all-append p (x ∷ xs) ys = ground (arith, all-append p xs ys)

clamp-sized : (cols rows : Dimension) → is_sized (clamp 20 500 120 cols, clamp 5 200 32 rows) ≡ true
clamp-sized falsy falsy = refl
clamp-sized falsy negative = refl
clamp-sized falsy (size n) = ground arith
clamp-sized negative falsy = refl
clamp-sized negative negative = refl
clamp-sized negative (size n) = ground arith
clamp-sized (size m) falsy = ground arith
clamp-sized (size m) negative = ground arith
clamp-sized (size m) (size n) = ground arith

short_take : (s : Chars) → is_short (take max_input s) ≡ true
short_take s = ground (arith, length-take max_input s)

input_list-short :
    (s : Chars) → all is_short (input_list s) ≡ (all is_short (input_list s) && is_short s)
input_list-short [] = refl
input_list-short (c ∷ s) = ground arith

step-bounded : (e : Event) (t : Terminal) → is_bounded t ≡ true → is_bounded (step e t) ≡ true
unfolding step on_input on_resize on_shell
step-bounded (input message) t h = ground (
  arith,
  h,
  short_take message,
  short_take (t.pending_input ++ take max_input message),
  all-append is_short t.written (take max_input message ∷ []),
)
step-bounded (resize cols rows) t h =
    let window : ℕ × ℕ = (clamp 20 500 120 cols, clamp 5 200 32 rows) in
    ground (arith, h, clamp-sized cols rows, all-append is_sized t.windows (window ∷ []))
step-bounded unreadable t h = h
step-bounded other t h = h
step-bounded socket_closed t h = ground (arith, h)
step-bounded socket_error t h = ground (arith, h)
step-bounded query_invalid t h = ground (arith, h)
step-bounded (ticket_answered answer b) t h = ground (arith, h)
step-bounded (server_loaded server) t h = ground (arith, h)
step-bounded connected t h = ground (arith, h)
step-bounded shell_opened t h = ground (
  arith,
  h,
  all-append is_sized t.windows (window_list t.pending_window),
  all-append is_short t.written (input_list t.pending_input),
  input_list-short t.pending_input,
)
step-bounded shell_failed t h = ground (arith, h)
step-bounded shell_closed t h = ground (arith, h)
step-bounded thrown t h = ground (arith, h)

run-bounded_from :
    (es : List Event) (t : Terminal) → is_bounded t ≡ true → is_bounded (run es t) ≡ true
unfolding run
run-bounded_from [] t h = h
run-bounded_from (e ∷ es) t h = run-bounded_from es (step e t) (step-bounded e t h)

-- Whatever a browser sends and whenever, the input that waits for the shell and each input that is
-- written to it have at most 16384 characters, and every window has 20 to 500 columns and 5 to 200 rows.
pub run-bounded : (es : List Event) → is_bounded (run es initial) ≡ true
run-bounded es = run-bounded_from es initial refl
