-- ===== src/Platform/Access/Tickets.antt =====
-- A ticket opens one terminal.
use monitc.Prelude.{
  ℕ, ◌+◌, Bool, true, false, not, Option, none, some, List, [], ◌∷◌, ◌≡◌, refl, arith, find, any,
  all, select, if◌then◌else◌, ◌==◌, ltb, Bool-cases, inl, inr,
}
use monitc.Platform.Access.{
  Server, Ticket, is_stored, load_server, has_secret, issue_ticket, issue_for, take_ticket, issued,
}

-- What happens to the tickets: one is issued, with its random name, or taken.
pub data Event : Type 0 where
  issuing : ℕ → ℕ → ℕ → ℕ → ℕ → Event
  taking : ℕ → ℕ → Event

unfoldable pub happen : List Server → Event → List Ticket → List Ticket
happen servers (issuing now draw user w id) ts = (issue_ticket now draw user w id servers ts).0
happen servers (taking now ticket) ts = (take_ticket now ticket ts).0

unfoldable pub run : List Server → List Event → List Ticket → List Ticket
run servers [] ts = ts
run servers (e ∷ es) ts = run servers es (happen servers e ts)

-- No ticket of the name is drawn.
abbrev pub draws_other : ℕ → Event → Bool
draws_other ticket (issuing _ draw _ _ _) = not (draw == ticket)
draws_other ticket (taking _ _) = true

-- No row has the name.
abbrev pub lacks : ℕ → List Ticket → Bool
lacks ticket ts = all (λ t. not (t.ticket == ticket)) ts

lacks-select :
    (ticket x : ℕ) (ts : List Ticket)
    → lacks ticket ts ≡ true
    → lacks ticket (select (λ t. not (t.ticket == x)) ts) ≡ true
lacks-select ticket x [] h = refl
lacks-select ticket x (t ∷ ts) h = ground (arith, lacks-select ticket x ts)

lacks_taken :
    (ticket : ℕ) (ts : List Ticket)
    → lacks ticket (select (λ t. not (t.ticket == ticket)) ts) ≡ true
lacks_taken ticket [] = refl
lacks_taken ticket (t ∷ ts) = ground (arith, lacks_taken ticket ts)

find_lacking :
    (now ticket : ℕ) (ts : List Ticket)
    → lacks ticket ts ≡ true
    → find (is_stored now ticket) ts ≡ none
find_lacking now ticket [] h = refl
find_lacking now ticket (t ∷ ts) h = ground (arith, find_lacking now ticket ts)

lacks-issue_for :
    (ticket now draw user w id : ℕ) (s : Option Server) (ts : List Ticket)
    → not (draw == ticket) ≡ true
    → lacks ticket ts ≡ true
    → lacks ticket (issue_for now draw user w id s ts).0 ≡ true
lacks-issue_for ticket now draw user w id none ts d h = h
lacks-issue_for ticket now draw user w id (some s) ts d h = ground arith

lacks-run :
    (ticket : ℕ) (servers : List Server) (es : List Event) (ts : List Ticket)
    → all (draws_other ticket) es ≡ true
    → lacks ticket ts ≡ true
    → lacks ticket (run servers es ts) ≡ true
unfolding run happen issue_ticket take_ticket
lacks-run ticket servers [] ts d h = h
lacks-run ticket servers (issuing now draw user w id ∷ es) ts d h =
    lacks-run ticket servers es (issue_for now draw user w id (load_server id w servers) ts).0
      (ground (arith, d))
      (lacks-issue_for ticket now draw user w id (load_server id w servers) ts (ground (arith, d))
        h)
lacks-run ticket servers (taking now x ∷ es) ts d h =
    lacks-run ticket servers es (select (λ t. not (t.ticket == x)) ts) (ground (arith, d))
      (lacks-select ticket x ts h)

-- A ticket that has been taken is not there a second time, whenever it is asked for and whatever happens
-- meanwhile, unless the same name is drawn again.
pub take_ticket_once :
    (now later ticket : ℕ) (servers : List Server) (es : List Event) (ts : List Ticket)
    → all (draws_other ticket) es ≡ true
    → (take_ticket later ticket (run servers es (take_ticket now ticket ts).0)).1 ≡ none
unfolding take_ticket
take_ticket_once now later ticket servers es ts d =
    find_lacking later ticket (run servers es (select (λ t. not (t.ticket == ticket)) ts)) (
      lacks-run ticket servers es (select (λ t. not (t.ticket == ticket)) ts) d
        (lacks_taken ticket ts))

any_lacking :
    (now ticket : ℕ) (ts : List Ticket)
    → lacks ticket ts ≡ true
    → any (is_stored now ticket) ts ≡ false
any_lacking now ticket [] h = refl
any_lacking now ticket (t ∷ ts) h = ground (arith, any_lacking now ticket ts)

abbrev ticket_of : ℕ → ℕ → ℕ → ℕ → ℕ → Ticket
ticket_of now draw user w id = record {
  ticket = draw;
  user_id = user;
  workspace_id = w;
  server_id = id;
  expires_at = now + 30000;
}

issue_for_good :
    (now later draw user w id : ℕ) (s : Option Server) (ts : List Ticket)
    → lacks draw ts ≡ true
    → (issue_for now draw user w id s ts).1 ≡ issued draw
    → find (is_stored later draw) (issue_for now draw user w id s ts).0
      ≡ (if ltb later (now + 30000) then some (ticket_of now draw user w id) else none)
issue_for_good now later draw user w id none ts d h = ground arith
issue_for_good now later draw user w id (some s) ts d h =
    elim (Bool-cases s.entitlements.web_terminal) [
      | inr e ↦ ground (arith, e, h)
      | inl e ↦ elim (Bool-cases (has_secret s)) [
        | inr i ↦ ground (arith, e, i, h)
        | inl i ↦ ground (arith, e, i, any_lacking now draw ts d, find_lacking later draw ts d)
      ]
    ]

-- A new ticket, for the server and the user that asked, is good for less than thirty seconds.
pub issued_ticket_is_good :
    (now later draw user w id : ℕ) (servers : List Server) (ts : List Ticket)
    → lacks draw ts ≡ true
    → (issue_ticket now draw user w id servers ts).1 ≡ issued draw
    → (take_ticket later draw (issue_ticket now draw user w id servers ts).0).1 ≡ (
        if ltb later (now + 30000)
        then some (record {
          ticket = draw;
          user_id = user;
          workspace_id = w;
          server_id = id;
          expires_at = now + 30000;
        })
        else none)
unfolding issue_ticket take_ticket
issued_ticket_is_good now later draw user w id servers ts d h =
    issue_for_good now later draw user w id (load_server id w servers) ts d h
