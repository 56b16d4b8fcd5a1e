-- ===== src/Platform/Billing/Outcomes.antt =====
-- How a delivery leaves its own event.
use mathlib.Core.Path.{subst}
use monitc.Prelude.{ℕ, Bool, true, false, Option, none, some, ◌≡◌, ◌≢◌, refl, arith, any}
use monitc.Platform.Billing.{
  Purchase, Draw, ok, failed, BlindIndex, Transaction, Owner, Persisted, persist_apple_purchase,
}
use monitc.Platform.Billing.Persisted.{Unchanged, persist_apple_purchase-Unchanged}
use monitc.Platform.Billing.Events.{event_of, event, event_of-receive_own, event_of-set_status_own}
use monitc.Platform.Billing.Webhooks.{
  received, processed, ignored, failed_event, Store, Notification, Fate, finishes, crashes_before,
  crashes_after, Answer, answer_processed, answer_ignored, lost, raised, is_settled_event, receive,
  hash_of, process_persisted, process_owned, process_transaction, process_received,
  process_notification, resolve_notification_owner,
}

module _ (blind : BlindIndex) where
  -- How an event stands after a delivery that began it.
  abbrev pub Outcome : ℕ → Store → Store → Fate → Answer → Type 0
  Outcome h before after fate answer_processed = event_of h after.events ≡ some (event h processed)
  Outcome h before after fate answer_ignored =
      (event_of h after.events ≡ some (event h ignored)) × (after.billing ≡ before.billing)
  Outcome h before after fate (raised problem) =
      (event_of h after.events ≡ some (event h failed_event)) × (after.billing ≡ before.billing)
  Outcome h before after fate lost =
      (fate ≢ finishes) × (event_of h after.events ≡ some (event h received))

  process_persisted-Outcome :
      (fate : Fate) (h : ℕ) (before st : Store) (r : Persisted blind)
      → st.billing ≡ before.billing
      → event_of h st.events ≡ some (event h received)
      → Unchanged blind before.billing r.0 r.1
      → Outcome h before
          (process_persisted blind fate h st r).0
          fate
          (process_persisted blind fate h st r).1
  process_persisted-Outcome crashes_after h before st (b, r) q e u = ((λ x. ground arith), e)
  process_persisted-Outcome finishes h before st (b, ok a) q e u =
      event_of-set_status_own h received processed st.events e
  process_persisted-Outcome crashes_before h before st (b, ok a) q e u =
      event_of-set_status_own h received processed st.events e
  process_persisted-Outcome finishes h before st (b, failed a) q e u =
      (event_of-set_status_own h received failed_event st.events e, u)
  process_persisted-Outcome crashes_before h before st (b, failed a) q e u =
      (event_of-set_status_own h received failed_event st.events e, u)

  process_owned-Outcome :
      (fate : Fate) (d : Draw) (n : Notification) (t : Transaction) (h : ℕ) (before st : Store)
      (o : Option Owner)
      → st.billing ≡ before.billing
      → event_of h st.events ≡ some (event h received)
      → Outcome h before
          (process_owned blind fate d n t h st o).0
          fate
          (process_owned blind fate d n t h st o).1
  process_owned-Outcome fate d n t h before st none q e =
      (event_of-set_status_own h received ignored st.events e, q)
  process_owned-Outcome fate d n t h before st (some o) q e =
      let purchase : Purchase = record {
        owner = o;
        environment = n.environment;
        transaction = t;
        renewal = n.renewal;
        subscription_status = n.status;
      } in
      process_persisted-Outcome fate h before st
        (persist_apple_purchase blind purchase d st.billing) q e
        (subst
          (λ b.
            Unchanged blind b (persist_apple_purchase blind purchase d st.billing).0
              (persist_apple_purchase blind purchase d st.billing).1)
          q (persist_apple_purchase-Unchanged blind purchase d st.billing))

  process_transaction-Outcome :
      (fate : Fate) (d : Draw) (n : Notification) (h : ℕ) (before st : Store)
      (t : Option Transaction) (has_payload : Bool)
      → st.billing ≡ before.billing
      → event_of h st.events ≡ some (event h received)
      → Outcome h before
          (process_transaction blind fate d n h st t has_payload).0
          fate
          (process_transaction blind fate d n h st t has_payload).1
  process_transaction-Outcome fate d n h before st none b q e =
      (event_of-set_status_own h received ignored st.events e, q)
  process_transaction-Outcome fate d n h before st (some t) false q e =
      (event_of-set_status_own h received ignored st.events e, q)
  process_transaction-Outcome fate d n h before st (some t) true q e =
      process_owned-Outcome fate d n t h before st (resolve_notification_owner blind n t st) q e

  process_received-Outcome :
      (fate : Fate) (d : Draw) (n : Notification) (h : ℕ) (before st : Store)
      → st.billing ≡ before.billing
      → event_of h st.events ≡ some (event h received)
      → Outcome h before
          (process_received blind fate d n h st).0
          fate
          (process_received blind fate d n h st).1
  process_received-Outcome crashes_before d n h before st q e = ((λ x. ground arith), e)
  process_received-Outcome finishes d n h before st q e =
      process_transaction-Outcome finishes d n h before st n.transaction n.has_payload q e
  process_received-Outcome crashes_after d n h before st q e =
      process_transaction-Outcome crashes_after d n h before st n.transaction n.has_payload q e

  -- A delivery of an event that is new, or whose last delivery failed, leaves it marked as it answers:
  -- processed, ignored or failed; if it is ignored or fails, no billing table has changed. Only a process
  -- that ends on the way leaves it as received.
  pub process_notification-Outcome :
      (fate : Fate) (d : Draw) (n : Notification) (st : Store)
      → any (is_settled_event (hash_of blind n)) st.events ≡ false
      → Outcome
          (hash_of blind n)
          st
          (process_notification blind fate d n st).0
          fate
          (process_notification blind fate d n st).1
  unfolding process_notification
  process_notification-Outcome fate d n st a = rw a (
      process_received-Outcome fate d n (hash_of blind n) st
        (record st { events = receive (hash_of blind n) st.events }) refl
        (event_of-receive_own (hash_of blind n) st.events))
