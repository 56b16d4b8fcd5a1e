-- ===== src/Platform/Billing/Events.antt =====
-- How the rows of `billing_webhook_events` change, and that a delivery leaves the other events.
use monitc.Prelude.{
  ℕ, Bool, true, false, Option, none, some, List, [], ◌∷◌, ◌≡◌, ◌∙◌, refl, arith, find, any, ◌==◌,
  Bool-cases, inl, inr,
}
use monitc.Platform.Billing.{
  Draw, ok, failed, BlindIndex, Transaction, Owner, Persisted, persist_apple_purchase,
}
use monitc.Platform.Billing.Webhooks.{
  EventStatus, received, processed, ignored, failed_event, WebhookEvent, Store, Notification, Fate,
  finishes, crashes_before, crashes_after, is_settled_event, receive, set_status, hash_of,
  process_persisted, process_owned, process_transaction, process_received, process_notification,
  resolve_notification_owner,
}

abbrev pub event_of : ℕ → List WebhookEvent → Option WebhookEvent
event_of h events = find (λ e. e.event_hash == h) events

abbrev pub event : ℕ → EventStatus → WebhookEvent
event h status = record { event_hash = h; status = status }

-- An event that is there and has not failed.
abbrev pub is_settled : EventStatus → Bool
is_settled failed_event = false
is_settled _ = true

pub settled_any :
    (h : ℕ) (events : List WebhookEvent) (status : EventStatus)
    → event_of h events ≡ some (event h status)
    → is_settled status ≡ true
    → any (is_settled_event h) events ≡ true
settled_any h [] status e s = cc
settled_any h (x ∷ events) status e s = ground (arith, settled_any h events status)

pub settled_any_of :
    (k h : ℕ) (events : List WebhookEvent) (status : EventStatus)
    → (k == h) ≡ true
    → event_of h events ≡ some (event h status)
    → is_settled status ≡ true
    → any (is_settled_event k) events ≡ true
settled_any_of k h events status q e s = ground (arith, settled_any h events status)

pub event_of-receive_other :
    (h k : ℕ) (events : List WebhookEvent)
    → (k == h) ≡ false
    → event_of h (receive k events) ≡ event_of h events
event_of-receive_other h k [] e = ground arith
event_of-receive_other h k (x ∷ events) e = ground (arith, event_of-receive_other h k events e)

pub event_of-receive_own :
    (h : ℕ) (events : List WebhookEvent) → event_of h (receive h events) ≡ some (event h received)
event_of-receive_own h [] = ground arith
event_of-receive_own h (x ∷ events) = ground (arith, event_of-receive_own h events)

pub event_of-set_status_other :
    (h k : ℕ) (status : EventStatus) (events : List WebhookEvent)
    → (k == h) ≡ false
    → event_of h (set_status k status events) ≡ event_of h events
event_of-set_status_other h k status [] e = refl
event_of-set_status_other h k status (x ∷ events) e =
    ground (arith, event_of-set_status_other h k status events e)

pub event_of-set_status_own :
    (h : ℕ) (old status : EventStatus) (events : List WebhookEvent)
    → event_of h events ≡ some (event h old)
    → event_of h (set_status h status events) ≡ some (event h status)
event_of-set_status_own h old status [] e = cc
event_of-set_status_own h old status (x ∷ events) e =
    ground (arith, event_of-set_status_own h old status events)

module _ (blind : BlindIndex) where
  process_persisted-other :
      (fate : Fate) (k : ℕ) (st : Store) (r : Persisted blind) (h : ℕ)
      → (k == h) ≡ false
      → event_of h (process_persisted blind fate k st r).0.events ≡ event_of h st.events
  process_persisted-other crashes_after k st (b, r) h e = refl
  process_persisted-other finishes k st (b, ok a) h e =
      event_of-set_status_other h k processed st.events e
  process_persisted-other crashes_before k st (b, ok a) h e =
      event_of-set_status_other h k processed st.events e
  process_persisted-other finishes k st (b, failed a) h e =
      event_of-set_status_other h k failed_event st.events e
  process_persisted-other crashes_before k st (b, failed a) h e =
      event_of-set_status_other h k failed_event st.events e

  process_owned-other :
      (fate : Fate) (d : Draw) (n : Notification) (t : Transaction) (k : ℕ) (st : Store)
      (o : Option Owner) (h : ℕ)
      → (k == h) ≡ false
      → event_of h (process_owned blind fate d n t k st o).0.events ≡ event_of h st.events
  process_owned-other fate d n t k st none h e = event_of-set_status_other h k ignored st.events e
  process_owned-other fate d n t k st (some o) h e =
      process_persisted-other fate k st
        (persist_apple_purchase blind
          (record {
            owner = o;
            environment = n.environment;
            transaction = t;
            renewal = n.renewal;
            subscription_status = n.status;
          })
          d st.billing)
        h e

  process_transaction-other :
      (fate : Fate) (d : Draw) (n : Notification) (k : ℕ) (st : Store) (t : Option Transaction)
      (has_payload : Bool) (h : ℕ)
      → (k == h) ≡ false
      → event_of h (process_transaction blind fate d n k st t has_payload).0.events
        ≡ event_of h st.events
  process_transaction-other fate d n k st none b h e =
      event_of-set_status_other h k ignored st.events e
  process_transaction-other fate d n k st (some t) false h e =
      event_of-set_status_other h k ignored st.events e
  process_transaction-other fate d n k st (some t) true h e =
      process_owned-other fate d n t k st (resolve_notification_owner blind n t st) h e

  process_received-other :
      (fate : Fate) (d : Draw) (n : Notification) (k : ℕ) (st : Store) (h : ℕ)
      → (k == h) ≡ false
      → event_of h (process_received blind fate d n k st).0.events ≡ event_of h st.events
  process_received-other crashes_before d n k st h e = refl
  process_received-other finishes d n k st h e =
      process_transaction-other finishes d n k st n.transaction n.has_payload h e
  process_received-other crashes_after d n k st h e =
      process_transaction-other crashes_after d n k st n.transaction n.has_payload h e

  pub delivery_other :
      (fate : Fate) (d : Draw) (n : Notification) (st : Store) (h : ℕ)
      → (hash_of blind n == h) ≡ false
      → event_of h (process_notification blind fate d n st).0.events ≡ event_of h st.events
  unfolding process_notification
  delivery_other fate d n st h e =
      elim (Bool-cases (any (is_settled_event (hash_of blind n)) st.events)) [
        | inl a ↦ rw a refl
        | inr a ↦ rw a (
            process_received-other fate d n (hash_of blind n)
              (record st { events = receive (hash_of blind n) st.events }) h e
            ∙ event_of-receive_other h (hash_of blind n) st.events e)
      ]
