-- ===== src/Platform/Billing/Deliveries.antt =====
-- Sequences of notifications, with repetitions and a process that may end on the way.
use monitc.Prelude.{
  ℕ, true, false, some, List, [], ◌∷◌, ◌≡◌, ◌∙◌, refl, any, ◌==◌, Bool-cases, inl, inr,
}
use monitc.Platform.Billing.{Draw, BlindIndex}
use monitc.Platform.Billing.Events.{
  event_of, event, is_settled, settled_any, settled_any_of, event_of-receive_own, delivery_other,
}
use monitc.Platform.Billing.Webhooks.{
  EventStatus, received, Store, Notification, Fate, crashes_before, answer_processed,
  is_settled_event, receive, hash_of, process_notification,
}

pub record Delivery : Type 0 where
  pub fate : Fate
  pub draw : Draw
  pub notification : Notification

module _ (blind : BlindIndex) where
  pub run : List Delivery → Store → Store
  run [] st = st
  run (v ∷ vs) st = run vs (process_notification blind v.fate v.draw v.notification st).0

  -- A settled event is answered at once.
  settled_delivery :
      (fate : Fate) (d : Draw) (n : Notification) (st : Store)
      → any (is_settled_event (hash_of blind n)) st.events ≡ true
      → process_notification blind fate d n st ≡ (st, answer_processed)
  unfolding process_notification
  settled_delivery fate d n st a = rw a refl

  step-settled :
      (h : ℕ) (status : EventStatus) (v : Delivery) (st : Store)
      → event_of h st.events ≡ some (event h status)
      → is_settled status ≡ true
      → event_of h (process_notification blind v.fate v.draw v.notification st).0.events
        ≡ some (event h status)
  step-settled h status v st e s = elim (Bool-cases (hash_of blind v.notification == h)) [
    | inl q ↦
        rw
          (settled_delivery v.fate v.draw v.notification st
            (settled_any_of (hash_of blind v.notification) h st.events status q e s))
          e
    | inr q ↦ delivery_other blind v.fate v.draw v.notification st h q ∙ e
  ]

  run-settled :
      (h : ℕ) (status : EventStatus) (vs : List Delivery) (st : Store)
      → event_of h st.events ≡ some (event h status)
      → is_settled status ≡ true
      → event_of h (run vs st).events ≡ some (event h status)
  unfolding run
  run-settled h status [] st e s = e
  run-settled h status (v ∷ vs) st e s =
      run-settled h status vs (process_notification blind v.fate v.draw v.notification st).0
        (step-settled h status v st e s) s

  -- Once an event is received, processed or ignored, it keeps that status through any sequence of
  -- deliveries, and any later delivery of it is answered as processed and changes nothing.
  pub settled_forever :
      (n : Notification) (status : EventStatus) (vs : List Delivery) (st : Store) (fate : Fate)
      (d : Draw)
      → event_of (hash_of blind n) st.events ≡ some (event (hash_of blind n) status)
      → is_settled status ≡ true
      → (event_of (hash_of blind n) (run vs st).events ≡ some (event (hash_of blind n) status))
        × (process_notification blind fate d n (run vs st) ≡ (run vs st, answer_processed))
  settled_forever n status vs st fate d e s =
      let later = run-settled (hash_of blind n) status vs st e s in
      (
        later,
        settled_delivery fate d n (run vs st)
            (settled_any (hash_of blind n) (run vs st).events status later s),
      )

  -- If the process ends after it has received a new event and before the purchase is stored, then the
  -- purchase is lost: every later delivery of the event is answered as processed and changes nothing.
  pub crash_loses_purchase :
      (n : Notification) (vs : List Delivery) (st : Store) (fate : Fate) (d e : Draw)
      → any (is_settled_event (hash_of blind n)) st.events ≡ false
      → let crashed = (process_notification blind crashes_before d n st).0 in
        (crashed.billing ≡ st.billing)
        × (process_notification blind fate e n (run vs crashed)
            ≡ (run vs crashed, answer_processed))
  unfolding process_notification
  crash_loses_purchase n vs st fate d e a =
      let seen = event_of-receive_own (hash_of blind n) st.events in
      rw a (
        refl,
        (settled_forever n received vs (record st { events = receive (hash_of blind n) st.events })
            fate e seen refl).1,
      )
