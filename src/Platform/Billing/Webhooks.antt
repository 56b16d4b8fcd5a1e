-- ===== src/Platform/Billing/Webhooks.antt =====
-- Notifications of the App Store: `resolveNotificationOwner` and `processNotification` of
-- platform/apps/api/src/routes/mobile-billing.ts. The process may end between the first insertion
-- and the last update; rows with equal `updated_at` are taken in the order of the table.
use monitc.Prelude.{
  ℕ, Bool, true, false, ◌||◌, ◌&&◌, Option, none, some, List, [], ◌∷◌, map, any, if◌then◌else◌,
  ◌==◌, ltb, leb,
}
use monitc.Platform.Billing.{
  Environment, Status, Transaction, TransactionRow, Billing, Owner, Purchase, Draw, Problem, ok,
  failed, BlindIndex, upsert, Persisted, persist_apple_purchase,
}
use monitc.Platform.Scopes.{WorkspaceRole, owner, admin, operator, viewer}

pub data EventStatus : Type 0 where
  received processed ignored failed_event : EventStatus

-- A row of `billing_webhook_events` of the provider Apple.
pub record WebhookEvent : Type 0 where
  pub event_hash : ℕ
  pub status : EventStatus

-- A membership of a user who is not disabled; an identifier is a UUID if its flag says so.
pub record Member : Type 0 where
  pub user_id : ℕ
  pub workspace_id : ℕ
  pub role : WorkspaceRole
  pub created_at : ℕ

pub record Store : Type 0 where
  pub billing : Billing
  pub events : List WebhookEvent
  pub members : List Member

-- `VerifiedAppleNotification`. `has_payload` tells whether `data.signedTransactionInfo` is there, and
-- `is_uuid` whether the account token of the transaction is a UUID.
pub record Notification : Type 0 where
  pub notification_uuid : Option ℕ
  pub payload_digest : ℕ
  pub environment : Environment
  pub transaction : Option Transaction
  pub is_uuid : Bool
  pub has_payload : Bool
  pub renewal : Option Bool
  pub status : Option Status

-- How far the process comes.
pub data Fate : Type 0 where
  finishes crashes_before crashes_after : Fate

pub data Answer : Type 0 where
  answer_processed answer_ignored lost : Answer
  raised : Problem → Answer

abbrev pub event_id : Option ℕ → ℕ → ℕ
event_id none digest = digest
event_id (some uuid) digest = uuid

-- `ORDER BY updated_at DESC LIMIT 1`.
abbrev pub later : TransactionRow → Option TransactionRow → TransactionRow
later r none = r
later r (some best) = if ltb r.updated_at best.updated_at then best else r

abbrev pub latest : (TransactionRow → Bool) → List TransactionRow → Option TransactionRow
latest p [] = none
latest p (r ∷ rows) = let best = latest p rows in if p r then some (later r best) else best

abbrev pub rank : WorkspaceRole → ℕ
rank owner = 0
rank admin = 1
rank operator = 2
rank viewer = 2

-- `ORDER BY CASE role … END, created_at LIMIT 1`.
abbrev pub precedes : Member → Member → Bool
precedes a b =
    ltb (rank a.role) (rank b.role) || rank a.role == rank b.role && leb a.created_at b.created_at

abbrev pub first_member : Member → Option Member → Member
first_member m none = m
first_member m (some best) = if precedes m best then m else best

abbrev pub main_member : ℕ → List Member → Option Member
main_member user [] = none
main_member user (m ∷ members) =
    let best = main_member user members in
    if m.user_id == user then some (first_member m best) else best

abbrev pub owner_of_row : TransactionRow → Owner
owner_of_row r = record { user_id = r.user_id; workspace_id = r.workspace_id }

abbrev pub owner_of_member : Option Member → Option Owner
owner_of_member none = none
owner_of_member (some m) = some (record { user_id = m.user_id; workspace_id = m.workspace_id })

abbrev pub account_owner : Option ℕ → Bool → List Member → Option Owner
account_owner none is_uuid members = none
account_owner (some token) is_uuid members =
    if is_uuid then owner_of_member (main_member token members) else none

-- The query for rows with a hash, if the identifier is there.
abbrev pub row_with :
    (ℕ → TransactionRow → Bool) → Option ℕ → List TransactionRow → Option TransactionRow
row_with p none rows = none
row_with p (some id) rows = latest (p id) rows

abbrev pub or_owner : Option TransactionRow → Option Owner → Option Owner
or_owner (some r) rest = some (owner_of_row r)
or_owner none rest = rest

abbrev pub is_settled_event : ℕ → WebhookEvent → Bool
is_settled_event h e = e.event_hash == h && elim e.status [ failed_event ↦ false | _ ↦ true ]

abbrev pub receive : ℕ → List WebhookEvent → List WebhookEvent
receive h events =
    upsert (λ e. e.event_hash == h) (λ e. record e { status = received })
      (record { event_hash = h; status = received }) events

-- `UPDATE billing_webhook_events SET status = … WHERE id = $1`.
abbrev pub set_status : ℕ → EventStatus → List WebhookEvent → List WebhookEvent
set_status h status events =
    map (λ e. if e.event_hash == h then record e { status = status } else e) events

module _ (blind : BlindIndex) where
  unfoldable pub resolve_notification_owner : Notification → Transaction → Store → Option Owner
  resolve_notification_owner n t st =
      let rows = st.billing.transactions in
      or_owner (row_with (λ id r. r.transaction_hash == blind.transaction id) t.transaction_id rows)
        (or_owner
          (row_with (λ id r. r.original_hash == blind.original_transaction id)
            t.original_transaction_id rows)
          (account_owner t.app_account_token n.is_uuid st.members))

  abbrev pub hash_of : Notification → ℕ
  hash_of n = blind.webhook (event_id n.notification_uuid n.payload_digest)

  abbrev pub mark : ℕ → EventStatus → Answer → Store → Store × Answer
  mark h status answer st = (record st { events = set_status h status st.events }, answer)

  -- From the answer of `persistApplePurchase` on.
  abbrev pub process_persisted : Fate → ℕ → Store → Persisted blind → Store × Answer
  process_persisted crashes_after h st (billing, result) = (record st { billing = billing }, lost)
  process_persisted _ h st (billing, ok _) =
      mark h processed answer_processed (record st { billing = billing })
  process_persisted _ h st (billing, failed problem) =
      mark h failed_event (raised problem) (record st { billing = billing })

  abbrev pub process_owned :
      Fate → Draw → Notification → Transaction → ℕ → Store → Option Owner → Store × Answer
  process_owned fate d n t h st none = mark h ignored answer_ignored st
  process_owned fate d n t h st (some o) =
      let purchase : Purchase = record {
        owner = o;
        environment = n.environment;
        transaction = t;
        renewal = n.renewal;
        subscription_status = n.status;
      } in
      process_persisted fate h st (persist_apple_purchase blind purchase d st.billing)

  abbrev pub process_transaction :
      Fate → Draw → Notification → ℕ → Store → Option Transaction → Bool → Store × Answer
  process_transaction fate d n h st none has_payload = mark h ignored answer_ignored st
  process_transaction fate d n h st (some t) false = mark h ignored answer_ignored st
  process_transaction fate d n h st (some t) true =
      process_owned fate d n t h st (resolve_notification_owner n t st)

  -- After the insertion.
  abbrev pub process_received : Fate → Draw → Notification → ℕ → Store → Store × Answer
  process_received crashes_before d n h st = (st, lost)
  process_received fate d n h st = process_transaction fate d n h st n.transaction n.has_payload

  unfoldable pub process_notification : Fate → Draw → Notification → Store → Store × Answer
  process_notification fate d n st =
      if any (is_settled_event (hash_of n)) st.events
      then (st, answer_processed)
      else process_received fate d n (hash_of n)
          (record st { events = receive (hash_of n) st.events })
