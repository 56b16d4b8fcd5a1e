-- ===== src/Platform/Billing/Tests.antt =====
-- A subscription that is bought and renewed, and the theorems at concrete inputs.
use monitc.Prelude.{true, false, none, some, List, [], ◌∷◌, ◌≡◌, ◌+◌, refl}
use monitc.Platform.Scopes.{owner}
use monitc.Platform.Billing.{
  Transaction, Billing, Purchase, Draw, BlindIndex, ProductRow, Subscription, sandbox, hosted_plan,
  monthly, active, persist_apple_purchase, status_active,
}
use monitc.Platform.Billing.Persisted.{persist_apple_purchase-Entitled, Entitled}
use monitc.Platform.Billing.Webhooks.{
  Store, Notification, finishes, crashes_before, answer_processed, process_notification, processed,
  resolve_notification_owner,
}
use monitc.Platform.Billing.Events.{event, event_of}
use monitc.Platform.Billing.Deliveries.{Delivery, run, settled_forever, crash_loses_purchase}
use monitc.Platform.Billing.Scale.{Keeps, post, notify, serve_all, serve_all-Keeps}

abbrev blind : BlindIndex
blind = record {
  transaction = λ n. n + 1000;
  original_transaction = λ n. n + 2000;
  webhook = λ n. n + 3000;
}

abbrev bought : Transaction
bought = record {
  transaction_id = some 11;
  original_transaction_id = some 10;
  product_id = some 5;
  app_account_token = some 7;
  purchase_date = some 100;
  expires_date = some 900;
  revocation_date = none;
  revocation_reason = none;
}

abbrev draw : Draw
draw = record { now = 200; id = 77; is_refused = false }

abbrev purchase : Purchase
purchase = record {
  owner = record { user_id = 7; workspace_id = 3 };
  environment = sandbox;
  transaction = bought;
  renewal = none;
  subscription_status = some status_active;
}

abbrev team : ProductRow
team = record {
  product_id = 5;
  product_kind = hosted_plan;
  plan_code = some "team";
  billing_period = monthly;
  is_active = true;
}

abbrev scale : Subscription
scale = record {
  workspace_id = 3;
  plan_code = "scale";
  status = active;
  source = "manual";
  billing_provider = "manual";
  billing_period = none;
  entitlement_hash = none;
  period_ends_at = none;
  auto_renews = false;
}

abbrev billing : List Subscription → Billing
billing subscriptions = record {
  products = team ∷ [];
  transactions = [];
  subscriptions = subscriptions;
  licenses = [];
}

abbrev store : List Subscription → Store
store subscriptions = record {
  billing = billing subscriptions;
  events = [];
  members = record { user_id = 7; workspace_id = 3; role = owner; created_at = 1 } ∷ [];
}

abbrev renewal : Notification
renewal = record {
  notification_uuid = some 40;
  payload_digest = 41;
  environment = sandbox;
  transaction = some bought;
  is_uuid = true;
  has_payload = true;
  renewal = some true;
  status = some status_active;
}

abbrev delivery : Delivery
delivery = record { fate = finishes; draw = draw; notification = renewal }

notification_is_processed :
    (process_notification blind finishes draw renewal (store [])).1 ≡ answer_processed
unfolding process_notification resolve_notification_owner persist_apple_purchase
notification_is_processed = refl

persist_apple_purchase-Entitled_example :
    Entitled blind purchase draw
      (some 11)
      (billing [])
      (persist_apple_purchase blind purchase draw (billing [])).0
      (persist_apple_purchase blind purchase draw (billing [])).1
persist_apple_purchase-Entitled_example =
    persist_apple_purchase-Entitled blind purchase draw (billing [])

settled_forever_example :
    let st = record (store []) { events = event 3040 processed ∷ [] } in
    (event_of 3040 (run blind (delivery ∷ []) st).events ≡ some (event 3040 processed))
    × (process_notification blind finishes draw renewal (run blind (delivery ∷ []) st)
        ≡ (run blind (delivery ∷ []) st, answer_processed))
settled_forever_example =
    settled_forever blind renewal processed (delivery ∷ [])
      (record (store []) { events = event 3040 processed ∷ [] }) finishes draw refl refl

crash_loses_purchase_example :
    let crashed = (process_notification blind crashes_before draw renewal (store [])).0 in
    (crashed.billing ≡ billing [])
    × (process_notification blind finishes draw renewal (run blind (delivery ∷ []) crashed)
        ≡ (run blind (delivery ∷ []) crashed, answer_processed))
crash_loses_purchase_example =
    crash_loses_purchase blind renewal (delivery ∷ []) (store []) finishes draw draw refl

serve_all-Keeps_example :
    Keeps blind 3 scale
      (serve_all blind (post purchase draw ∷ notify delivery ∷ []) (store (scale ∷ []))).billing
serve_all-Keeps_example =
    serve_all-Keeps blind 3 scale (post purchase draw ∷ notify delivery ∷ []) (store (scale ∷ []))
      (refl, refl)
