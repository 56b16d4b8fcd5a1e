-- ===== src/Platform/Billing.antt =====
-- Purchases in the App Store: platform/apps/api/src/services/billing-state.ts and the writes of
-- platform/apps/api/src/routes/mobile-billing.ts, over its tables. Identifiers are numbers that the
-- code only compares; an identifier that is absent or the empty text is `none`. Payloads that are
-- stored encrypted and never read back are left out, and so are columns that no statement here writes.
pub mod States
pub mod Webhooks
pub mod Persisted
pub mod Events
pub mod Outcomes
pub mod Deliveries
pub mod Scale
mod Tests
use monitc.Prelude.{
  ℕ, Bool, true, false, ◌||◌, ◌&&◌, not, Option, none, some, List, [], ◌∷◌, ◌++◌, map, any, find,
  if◌then◌else◌, ◌==◌, leb, String, str_eq, is_text,
}

pub data Environment : Type 0 where
  sandbox production : Environment

abbrev pub environment_eq : Environment → Environment → Bool
environment_eq sandbox sandbox = true
environment_eq production production = true
environment_eq _ _ = false

-- `subscriptionStatus` of Apple's library; `other` is a number that the switch does not list.
pub data Status : Type 0 where
  status_active status_expired status_retry status_grace status_revoked other : Status

pub data BillingState : Type 0 where
  active grace_period billing_retry expired revoked refunded : BillingState

-- `JWSTransactionDecodedPayload`, the fields that the code reads.
pub record Transaction : Type 0 where
  pub transaction_id : Option ℕ
  pub original_transaction_id : Option ℕ
  pub product_id : Option ℕ
  pub app_account_token : Option ℕ
  pub purchase_date : Option ℕ
  pub expires_date : Option ℕ
  pub revocation_date : Option ℕ
  pub revocation_reason : Option ℕ

-- A date that is absent or 0 counts as missing: `value ? … : null`, also `dateFromMillis`.
unfoldable pub date_from_millis : Option ℕ → Option ℕ
date_from_millis none = none
date_from_millis (some d) = if d == 0 then none else some d

abbrev pub is_past : ℕ → Option ℕ → Bool
is_past now none = false
is_past now (some d) = leb d now

abbrev pub state_of_revocation : Option ℕ → BillingState
state_of_revocation none = revoked
state_of_revocation (some _) = refunded

-- The switch of `billingState`.
abbrev pub state_of_status : ℕ → Option ℕ → Option Status → BillingState
state_of_status now expires (some status_active) = active
state_of_status now expires (some status_grace) = grace_period
state_of_status now expires (some status_retry) = billing_retry
state_of_status now expires (some status_revoked) = revoked
state_of_status now expires (some status_expired) = expired
state_of_status now expires (some other) = if is_past now expires then expired else active
state_of_status now expires none = if is_past now expires then expired else active

unfoldable pub billing_state : ℕ → Transaction → Option Status → BillingState
unfolding date_from_millis
billing_state now t status = elim (date_from_millis t.revocation_date) [
  | some _ ↦ state_of_revocation t.revocation_reason
  | none ↦ state_of_status now (date_from_millis t.expires_date) status
]

unfoldable pub entitlement_state : BillingState → BillingState
entitlement_state refunded = revoked
entitlement_state s = s

-- `autoRenewStatus === AutoRenewStatus.ON`, if there is renewal information.
unfoldable pub renewal_enabled : Option Bool → Bool
renewal_enabled none = true
renewal_enabled (some is_on) = is_on

pub data ProductKind : Type 0 where
  hosted_plan self_hosted_mobile : ProductKind

pub data BillingPeriod : Type 0 where
  monthly annual : BillingPeriod

-- A row of `billing_products` of the provider Apple.
pub record ProductRow : Type 0 where
  pub product_id : ℕ
  pub product_kind : ProductKind
  pub plan_code : Option String
  pub billing_period : BillingPeriod
  pub is_active : Bool

-- A row of `billing_transactions` of the provider Apple.
pub record TransactionRow : Type 0 where
  pub id : ℕ
  pub workspace_id : ℕ
  pub user_id : ℕ
  pub environment : Environment
  pub transaction_hash : ℕ
  pub original_hash : ℕ
  pub product_id : ℕ
  pub status : BillingState
  pub auto_renews : Bool
  pub purchased_at : Option ℕ
  pub expires_at : Option ℕ
  pub revoked_at : Option ℕ
  pub updated_at : ℕ

pub record Subscription : Type 0 where
  pub workspace_id : ℕ
  pub plan_code : String
  pub status : BillingState
  pub source : String
  pub billing_provider : String
  pub billing_period : Option BillingPeriod
  pub entitlement_hash : Option ℕ
  pub period_ends_at : Option ℕ
  pub auto_renews : Bool

pub record License : Type 0 where
  pub user_id : ℕ
  pub workspace_id : ℕ
  pub provider : String
  pub transaction_id : ℕ
  pub status : BillingState
  pub period_ends_at : Option ℕ
  pub auto_renews : Bool

-- The tables.
pub record Billing : Type 0 where
  pub products : List ProductRow
  pub transactions : List TransactionRow
  pub subscriptions : List Subscription
  pub licenses : List License

pub record Owner : Type 0 where
  pub user_id : ℕ
  pub workspace_id : ℕ

-- The argument of `persistApplePurchase`. What the blind index of an identifier is, the identity of a
-- new row and whether the database refuses a statement are arguments too.
pub record Purchase : Type 0 where
  pub owner : Owner
  pub environment : Environment
  pub transaction : Transaction
  pub renewal : Option Bool
  pub subscription_status : Option Status

pub record Draw : Type 0 where
  pub now : ℕ
  pub id : ℕ
  pub is_refused : Bool

pub data Problem : Type 0 where
  missing_identifiers other_account unsupported_product database_error : Problem

pub data Result (A : Type 0) : Type 0 where
  ok : A → Result A
  failed : Problem → Result A

-- `blindIndex` (lib/pii.ts, a keyed hash of node:crypto) in its three contexts.
pub record BlindIndex : Type 0 where
  pub transaction : ℕ → ℕ
  pub original_transaction : ℕ → ℕ
  pub webhook : ℕ → ℕ

-- `INSERT … ON CONFLICT … DO UPDATE SET … WHERE …`: a row in conflict is replaced if it passes the
-- guard, and a row is added if there is no conflict.
abbrev pub upsert {ℓ} : {A : Type ℓ} → (A → Bool) → (A → A) → A → List A → List A
upsert conflicts set fresh [] = fresh ∷ []
upsert conflicts set fresh (r ∷ rows) =
    let rest = upsert conflicts set fresh rows in if conflicts r then set r ∷ rows else r ∷ rest

-- The first statement of the transaction. The identity of an existing row stays.
abbrev pub same_transaction : TransactionRow → TransactionRow → Bool
same_transaction row r =
    environment_eq r.environment row.environment && r.transaction_hash == row.transaction_hash

abbrev pub store_transaction : TransactionRow → List TransactionRow → List TransactionRow
store_transaction row rows = upsert (same_transaction row) (λ r. record row { id = r.id }) row rows

-- `RETURNING id`.
abbrev pub stored_id : TransactionRow → List TransactionRow → ℕ
stored_id row [] = row.id
stored_id row (r ∷ rows) = if same_transaction row r then r.id else stored_id row rows

-- `WHERE subscriptions.source <> 'manual' OR subscriptions.plan_code <> 'scale'`.
abbrev pub may_replace : Subscription → Bool
may_replace s = not (str_eq s.source "manual") || not (str_eq s.plan_code "scale")

abbrev pub store_subscription : Subscription → List Subscription → List Subscription
store_subscription row rows =
    upsert (λ r. r.workspace_id == row.workspace_id) (λ r. if may_replace r then row else r) row
      rows

abbrev pub store_license : License → List License → List License
store_license row rows = upsert (λ r. r.user_id == row.user_id) (λ r. row) row rows

abbrev pub product_for : ℕ → List ProductRow → Option ProductRow
product_for id products = find (λ p. p.product_id == id && p.is_active) products

-- `product.product_kind === 'hosted_plan' && product.plan_code`.
abbrev pub hosted_code : ProductKind → Option String → Option String
hosted_code hosted_plan (some code) = if is_text code then some code else none
hosted_code hosted_plan none = none
hosted_code self_hosted_mobile _ = none

-- `transaction.appAccountToken && transaction.appAccountToken !== owner.userId`.
abbrev pub is_other : Option ℕ → ℕ → Bool
is_other none user = false
is_other (some token) user = not (token == user)

module _ (blind : BlindIndex) where
  open blind use {transaction, original_transaction}

  abbrev pub original_hash_of : Option ℕ → ℕ → ℕ
  original_hash_of none tid = transaction tid
  original_hash_of (some original) tid = original_transaction original

  abbrev pub state_of : Purchase → Draw → BillingState
  state_of p d = billing_state d.now p.transaction p.subscription_status

  unfoldable pub transaction_row : Purchase → Draw → ℕ → ℕ → TransactionRow
  transaction_row p d tid pid = record {
    id = d.id;
    workspace_id = p.owner.workspace_id;
    user_id = p.owner.user_id;
    environment = p.environment;
    transaction_hash = transaction tid;
    original_hash = original_hash_of p.transaction.original_transaction_id tid;
    product_id = pid;
    status = state_of p d;
    auto_renews = renewal_enabled p.renewal;
    purchased_at = date_from_millis p.transaction.purchase_date;
    expires_at = date_from_millis p.transaction.expires_date;
    revoked_at = date_from_millis p.transaction.revocation_date;
    updated_at = d.now;
  }

  unfoldable pub subscription_row : Purchase → Draw → ℕ → ProductRow → String → Subscription
  subscription_row p d tid product code = record {
    workspace_id = p.owner.workspace_id;
    plan_code = code;
    status = entitlement_state (state_of p d);
    source = "apple_store";
    billing_provider = "apple";
    billing_period = some product.billing_period;
    entitlement_hash = some (original_hash_of p.transaction.original_transaction_id tid);
    period_ends_at = date_from_millis p.transaction.expires_date;
    auto_renews = renewal_enabled p.renewal;
  }

  unfoldable pub license_row : Purchase → Draw → ℕ → License
  license_row p d stored = record {
    user_id = p.owner.user_id;
    workspace_id = p.owner.workspace_id;
    provider = "apple";
    transaction_id = stored;
    status = entitlement_state (state_of p d);
    period_ends_at = date_from_millis p.transaction.expires_date;
    auto_renews = renewal_enabled p.renewal;
  }

  -- The second statement of the transaction.
  abbrev pub store_entitlement :
      Purchase → Draw → ℕ → ℕ → ProductRow → Option String → Billing → Billing
  store_entitlement p d tid stored product (some code) s = record s {
    subscriptions = store_subscription (subscription_row p d tid product code) s.subscriptions;
  }
  store_entitlement p d tid stored product none s = record s {
    licenses = store_license (license_row p d stored) s.licenses;
  }

  -- The transaction from BEGIN to COMMIT.
  abbrev pub write_purchase : Purchase → Draw → ℕ → ℕ → ProductRow → Billing → Billing
  write_purchase p d tid pid product s =
      let row = transaction_row p d tid pid in
      store_entitlement p d tid (stored_id row s.transactions) product
        (hosted_code product.product_kind product.plan_code)
        (record s { transactions = store_transaction row s.transactions })

  abbrev pub Persisted : Type 0
  Persisted = Billing × Result (ℕ × (BillingState × ProductRow))

  -- From the answer of `productFor` on.
  abbrev pub persist_product : Purchase → Draw → ℕ → ℕ → Billing → Option ProductRow → Persisted
  persist_product p d tid pid s none = (s, failed unsupported_product)
  persist_product p d tid pid s (some product) =
      if d.is_refused then (s, failed database_error) else (
        write_purchase p d tid pid product s,
        ok (stored_id (transaction_row p d tid pid) s.transactions, (state_of p d, product)),
      )

  abbrev pub persist_identified : Purchase → Draw → Billing → Option ℕ → Option ℕ → Persisted
  persist_identified p d s none pid = (s, failed missing_identifiers)
  persist_identified p d s (some tid) none = (s, failed missing_identifiers)
  persist_identified p d s (some tid) (some pid) =
      if is_other p.transaction.app_account_token p.owner.user_id
      then (s, failed other_account)
      else persist_product p d tid pid s (product_for pid s.products)

  unfoldable pub persist_apple_purchase : Purchase → Draw → Billing → Persisted
  persist_apple_purchase p d s =
      persist_identified p d s p.transaction.transaction_id p.transaction.product_id
