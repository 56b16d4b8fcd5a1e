-- ===== src/Platform/Billing/Scale.antt =====
-- What every purchase and notification keeps.
use monitc.Prelude.{
  String, ℕ, Bool, true, false, Option, none, some, List, [], ◌∷◌, ◌≡◌, arith, Bool-cases, any,
  Option-cases, inl, inr,
}
use monitc.Platform.Billing.{
  store_transaction, stored_id, transaction_row, persist_product, Billing, Purchase, Draw,
  BlindIndex, Subscription, store_subscription, subscription_row, hosted_code,
  persist_apple_purchase, persist_identified, product_for, is_other, Transaction, ok, failed,
  Persisted, store_entitlement, ProductRow,
}
use monitc.Platform.Billing.Persisted.{subscription_of, is_manual_scale}
use monitc.Platform.Billing.Webhooks.{
  Store, Notification, Fate, finishes, crashes_before, crashes_after, process_persisted,
  is_settled_event, hash_of, receive, process_transaction, process_received, process_notification,
  resolve_notification_owner,
}
use monitc.Platform.Billing.Deliveries.{Delivery}

store_subscription-kept :
    (w : ℕ) (r row : Subscription) (subs : List Subscription)
    → subscription_of w subs ≡ some r
    → is_manual_scale r ≡ true
    → subscription_of w (store_subscription row subs) ≡ some r
store_subscription-kept w r row [] e m = cc
store_subscription-kept w r row (s ∷ subs) e m =
    ground (arith, store_subscription-kept w r row subs)

-- What changes the tables: a verified transaction that is posted, or a notification.
pub data Request : Type 0 where
  post : Purchase → Draw → Request
  notify : Delivery → Request

module _ (blind : BlindIndex) where
  pub serve : Request → Store → Store
  serve (post p d) st = record st { billing = (persist_apple_purchase blind p d st.billing).0 }
  serve (notify v) st = (process_notification blind v.fate v.draw v.notification st).0

  pub serve_all : List Request → Store → Store
  serve_all [] st = st
  serve_all (q ∷ qs) st = serve_all qs (serve q st)

module _ (blind : BlindIndex) (w : ℕ) (r : Subscription) where
  -- The workspace has the subscription `r`, assigned by hand.
  abbrev pub Keeps : Billing → Type 0
  Keeps s = (subscription_of w s.subscriptions ≡ some r) × (is_manual_scale r ≡ true)

  store_entitlement-Keeps :
      (p : Purchase) (d : Draw) (tid stored : ℕ) (product : ProductRow) (code : Option String)
      (s : Billing)
      → Keeps s
      → Keeps (store_entitlement blind p d tid stored product code s)
  store_entitlement-Keeps p d tid stored product (some code) s (e, m) = (
    store_subscription-kept w r (subscription_row blind p d tid product code) s.subscriptions e m,
    m,
  )
  store_entitlement-Keeps p d tid stored product none s k = k

  persist_product-Keeps :
      (p : Purchase) (d : Draw) (tid pid : ℕ) (s : Billing) (product : ProductRow)
      → Keeps s
      → Keeps (persist_product blind p d tid pid s (some product)).0
  persist_product-Keeps p d tid pid s product k =
      let row = transaction_row blind p d tid pid in
      let written =
        store_entitlement-Keeps p d tid (stored_id row s.transactions) product
          (hosted_code product.product_kind product.plan_code)
          (record s { transactions = store_transaction row s.transactions }) k in
      elim (Bool-cases d.is_refused) [ inl e ↦ simp e k | inr e ↦ simp e written ]

  persist_identified-Keeps :
      (p : Purchase) (d : Draw) (s : Billing) (tid pid : Option ℕ)
      → Keeps s
      → Keeps (persist_identified blind p d s tid pid).0
  persist_identified-Keeps p d s none pid k = k
  persist_identified-Keeps p d s (some tid) none k = k
  persist_identified-Keeps p d s (some tid) (some pid) k =
      elim (Bool-cases (is_other p.transaction.app_account_token p.owner.user_id)) [
        | inl e ↦ rw e k
        | inr e ↦ elim (Option-cases (product_for pid s.products)) [
          | inl f ↦ rw (e, f) k
          | inr (product, f) ↦ rw (e, f) (persist_product-Keeps p d tid pid s product k)
        ]
      ]

  persist-Keeps :
      (p : Purchase) (d : Draw) (s : Billing)
      → Keeps s
      → Keeps (persist_apple_purchase blind p d s).0
  unfolding persist_apple_purchase
  persist-Keeps p d s k =
      persist_identified-Keeps p d s p.transaction.transaction_id p.transaction.product_id k

  process_persisted-Keeps :
      (fate : Fate) (h : ℕ) (st : Store) (r : Persisted blind)
      → Keeps r.0
      → Keeps (process_persisted blind fate h st r).0.billing
  process_persisted-Keeps crashes_after h st (b, r) k = k
  process_persisted-Keeps finishes h st (b, ok _) k = k
  process_persisted-Keeps finishes h st (b, failed _) k = k
  process_persisted-Keeps crashes_before h st (b, ok _) k = k
  process_persisted-Keeps crashes_before h st (b, failed _) k = k

  process_transaction-Keeps :
      (fate : Fate) (d : Draw) (n : Notification) (h : ℕ) (st : Store) (t : Option Transaction)
      (has_payload : Bool)
      → Keeps st.billing
      → Keeps (process_transaction blind fate d n h st t has_payload).0.billing
  process_transaction-Keeps fate d n h st none b k = k
  process_transaction-Keeps fate d n h st (some t) false k = k
  process_transaction-Keeps fate d n h st (some t) true k =
      elim (Option-cases (resolve_notification_owner blind n t st)) [
        | inl e ↦ rw e k
        | inr (o, e) ↦
            let purchase : Purchase = record {
              owner = o;
              environment = n.environment;
              transaction = t;
              renewal = n.renewal;
              subscription_status = n.status;
            } in
            rw e (
              process_persisted-Keeps fate h st (persist_apple_purchase blind purchase d st.billing)
                (persist-Keeps purchase d st.billing k))
      ]

  process_received-Keeps :
      (fate : Fate) (d : Draw) (n : Notification) (h : ℕ) (st : Store)
      → Keeps st.billing
      → Keeps (process_received blind fate d n h st).0.billing
  process_received-Keeps crashes_before d n h st k = k
  process_received-Keeps finishes d n h st k =
      process_transaction-Keeps finishes d n h st n.transaction n.has_payload k
  process_received-Keeps crashes_after d n h st k =
      process_transaction-Keeps crashes_after d n h st n.transaction n.has_payload k

  process_notification-Keeps :
      (fate : Fate) (d : Draw) (n : Notification) (st : Store)
      → Keeps st.billing
      → Keeps (process_notification blind fate d n st).0.billing
  unfolding process_notification
  process_notification-Keeps fate d n st k =
      elim (Bool-cases (any (is_settled_event (hash_of blind n)) st.events)) [
        | inl e ↦ rw e k
        | inr e ↦ rw e (
            process_received-Keeps fate d n (hash_of blind n)
              (record st { events = receive (hash_of blind n) st.events }) k)
      ]

  -- A subscription to the plan scale that was assigned by hand stays as it is, whatever is bought and
  -- notified.
  pub serve_all-Keeps :
      (qs : List Request) (st : Store) → Keeps st.billing → Keeps (serve_all blind qs st).billing
  unfolding serve_all serve
  serve_all-Keeps [] st k = k
  serve_all-Keeps (post p d ∷ qs) st k =
      serve_all-Keeps qs (serve blind (post p d) st) (persist-Keeps p d st.billing k)
  serve_all-Keeps (notify v ∷ qs) st k =
      serve_all-Keeps qs (serve blind (notify v) st)
        (process_notification-Keeps v.fate v.draw v.notification st k)
