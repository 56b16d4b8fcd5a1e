-- ===== src/Platform/Access/Terminal/Stream.antt =====
-- What the shell receives.
use mathlib.Core.List.{append-nil, append_assoc}
use monitc.Prelude.{
  ◌||◌, sym, map, not, ◌≤◌, ℕ, zero, suc, Bool, true, false, List, [], ◌∷◌, ◌++◌, ◌≡◌, refl, ap,
  ◌∙◌, arith, take, Chars, Bool-cases, inl, inr,
}
use monitc.Platform.Access.Terminal.{
  finished, initial, input_list, Terminal, opening, Event, max_input, on_input, on_resize, on_shell,
  step, run, input, resize, unreadable, other, socket_closed, socket_error, query_invalid,
  ticket_answered, server_loaded, connected, shell_opened, shell_failed, shell_closed, thrown,
}

abbrev pub concat : List Chars → Chars
concat [] = []
concat (s ∷ ss) = s ++ concat ss

-- The text of a message, and of all input messages, as sent.
abbrev pub text_of : Event → Chars
text_of (input message) = message
text_of _ = []

abbrev pub inputs : List Event → Chars
inputs [] = []
inputs (e ∷ es) = text_of e ++ inputs es

module _ {ℓ} {A : Type ℓ} where
  take-append_take :
      (n m : ℕ) (xs ys : List A) → n ≤ m → take n (xs ++ take m ys) ≡ take n (xs ++ ys)
  take-append_take zero m xs ys h = refl
  take-append_take (suc n) zero xs ys h = let bad : ⊥ = omega arith in elim bad [ ]
  take-append_take (suc n) (suc m) [] [] h = refl
  take-append_take (suc n) (suc m) [] (y ∷ ys) h =
      ap (λ r. y ∷ r) (take-append_take n m [] ys (omega arith))
  take-append_take (suc n) (suc m) (x ∷ xs) ys h =
      ap (λ r. x ∷ r) (take-append_take n (suc m) xs ys (omega arith))

  take-take-append :
      (n m : ℕ) (xs ys : List A) → n ≤ m → take n (take m xs ++ ys) ≡ take n (xs ++ ys)
  take-take-append zero m xs ys h = refl
  take-take-append (suc n) zero xs ys h = let bad : ⊥ = omega arith in elim bad [ ]
  take-take-append (suc n) (suc m) [] ys h = refl
  take-take-append (suc n) (suc m) (x ∷ xs) ys h =
      ap (λ r. x ∷ r) (take-take-append n m xs ys (omega arith))

-- One more message, cut twice, is the same as cutting all that came.
add_message :
    (s message : Chars)
    → take max_input (take max_input s ++ take max_input message) ≡ take max_input (s ++ message)
add_message s message =
    take-take-append max_input max_input s (take max_input message) (omega arith)
    ∙ take-append_take max_input max_input s message (omega arith)

-- The shell has not come yet, and the pending input is what came first.
abbrev IsWaiting : Chars → Terminal → Type 0
IsWaiting s t = (t.shell ≡ false) × (t.pending_input ≡ take max_input s) × (t.written ≡ [])

-- Once the shell is there, it stays.
step-shell : (e : Event) (t : Terminal) → t.shell ≡ true → (step e t).shell ≡ true
unfolding step on_input on_resize on_shell
step-shell e t h = ground (arith, h)

run-shell : (es : List Event) (t : Terminal) → t.shell ≡ true → (run es t).shell ≡ true
unfolding run
run-shell [] t h = h
run-shell (e ∷ es) t h = run-shell es (step e t) (step-shell e t h)

step-IsWaiting :
    (e : Event) (s : Chars) (t : Terminal)
    → IsWaiting s t
    → (step e t).shell ≡ false
    → IsWaiting (s ++ text_of e) (step e t)
unfolding step on_input on_resize on_shell
step-IsWaiting (input message) s t (a, b, c) h = rw (a, b) (refl, add_message s message, c)
step-IsWaiting (resize cols rows) s t w h = rw (append-nil s) (ground (arith, w, h))
step-IsWaiting unreadable s t w h = rw (append-nil s) (ground (arith, w, h))
step-IsWaiting other s t w h = rw (append-nil s) (ground (arith, w, h))
step-IsWaiting socket_closed s t w h = rw (append-nil s) (ground (arith, w, h))
step-IsWaiting socket_error s t w h = rw (append-nil s) (ground (arith, w, h))
step-IsWaiting query_invalid s t w h = rw (append-nil s) (ground (arith, w, h))
step-IsWaiting (ticket_answered answer is_terminal) s t w h =
    rw (append-nil s) (ground (arith, w, h))
step-IsWaiting (server_loaded server) s t w h = rw (append-nil s) (ground (arith, w, h))
step-IsWaiting connected s t w h = rw (append-nil s) (ground (arith, w, h))
step-IsWaiting shell_opened s t w h = rw (append-nil s) (ground (arith, w, h))
step-IsWaiting shell_failed s t w h = rw (append-nil s) (ground (arith, w, h))
step-IsWaiting shell_closed s t w h = rw (append-nil s) (ground (arith, w, h))
step-IsWaiting thrown s t w h = rw (append-nil s) (ground (arith, w, h))

run-IsWaiting :
    (es : List Event) (s : Chars) (t : Terminal)
    → IsWaiting s t
    → (run es t).shell ≡ false
    → IsWaiting (s ++ inputs es) (run es t)
unfolding run
run-IsWaiting [] s t w h = rw (append-nil s) w
run-IsWaiting (e ∷ es) s t w h = elim (Bool-cases (step e t).shell) [
  | inl i ↦ let bad : ⊥ = ground (arith, run-shell es (step e t) i, h) in elim bad [ ]
  | inr i ↦
      rw⁻¹ (append_assoc s (text_of e) (inputs es))
        (run-IsWaiting es (s ++ text_of e) (step e t) (step-IsWaiting e s t w i) h)
]

-- The shell comes last.
abbrev pub is_opening : Terminal → Bool
is_opening t = elim (t.stage) [ opening ↦ true | _ ↦ false ]

abbrev is_finished : Terminal → Bool
is_finished t = elim (t.stage) [ finished ↦ true | _ ↦ false ]

abbrev shell_is_last : Terminal → Bool
shell_is_last t = not t.shell || is_finished t

step-last : (e : Event) (t : Terminal) → shell_is_last t ≡ true → shell_is_last (step e t) ≡ true
unfolding step on_input on_resize on_shell
step-last e t h = ground (arith, h)

run-last :
    (es : List Event) (t : Terminal) → shell_is_last t ≡ true → shell_is_last (run es t) ≡ true
unfolding run
run-last [] t h = h
run-last (e ∷ es) t h = run-last es (step e t) (step-last e t h)

step-written :
    (m : Chars) (t : Terminal)
    → t.shell ≡ true
    → (step (input m) t).written ≡ t.written ++ take max_input m ∷ []
unfolding step on_input
step-written m t h = rw h refl

written-run :
    (ms : List Chars) (t : Terminal)
    → t.shell ≡ true
    → (run (map input ms) t).written ≡ t.written ++ map (take max_input) ms
unfolding run
written-run [] t h = sym (append-nil t.written)
written-run (m ∷ ms) t h =
    written-run ms (step (input m) t) (step-shell (input m) t h)
    ∙ (ap (λ w. w ++ map (take max_input) ms) (step-written m t h)
        ∙ append_assoc t.written (take max_input m ∷ []) (map (take max_input) ms))

-- The moment when the shell opens.
step-shell_opened :
    (t : Terminal)
    → is_opening t ≡ true
    → ((step shell_opened t).shell ≡ true)
      × ((step shell_opened t).written ≡ t.written ++ input_list t.pending_input)
unfolding step on_shell
step-shell_opened t h = ground (arith, h)

concat-append : (ss ts : List Chars) → concat (ss ++ ts) ≡ concat ss ++ concat ts
concat-append [] ts = refl
concat-append (s ∷ ss) ts =
    ap (λ r. s ++ r) (concat-append ss ts) ∙ sym (append_assoc s (concat ss) (concat ts))

concat-input_list : (s : Chars) → concat (input_list s) ≡ s
concat-input_list [] = refl
concat-input_list (c ∷ s) = append-nil (c ∷ s)

-- When a shell opens, it receives the first 16384 characters of all the input that was sent before, and
-- after that the first 16384 characters of each message, in order.
pub shell_receives :
    (es : List Event) (ms : List Chars)
    → is_opening (run es initial) ≡ true
    → concat (run (map input ms) (step shell_opened (run es initial))).written
      ≡ take max_input (inputs es) ++ concat (map (take max_input) ms)
shell_receives es ms h =
    let t = run es initial in
    let last = run-last es initial refl in
    let (a, b, c) = run-IsWaiting es [] initial (refl, refl, refl) (ground (arith, h, last)) in
    let (there, first) = step-shell_opened t h in
    ap concat (written-run ms (step shell_opened t) there)
    ∙ (concat-append (step shell_opened t).written (map (take max_input) ms)
        ∙ ap (λ r. r ++ concat (map (take max_input) ms))
            (rw (first, b, c) (concat-input_list (take max_input (inputs es)))))
