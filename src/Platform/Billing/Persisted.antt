-- ===== src/Platform/Billing/Persisted.antt =====
-- What `persistApplePurchase` leaves in the tables.
use mathlib.Core.List.{Memᴰ}
use monitc.Prelude.{
  find-found, true, ap, ◌∙◌, ℕ, Bool, false, ◌&&◌, not, Option, none, some, List, [], ◌∷◌, ◌≡◌,
  refl, sym, arith, find, if◌then◌else◌, ◌==◌, String, str_eq, is_some, Bool-cases, Option-cases,
  inl, inr,
}
use monitc.Platform.Billing.{
  Environment, sandbox, production, environment_eq, TransactionRow, same_transaction, Billing,
  Purchase, Draw, Result, ok, failed, BlindIndex, Subscription, store_subscription,
  subscription_row, license_row, state_of, hosted_code, persist_apple_purchase, persist_identified,
  store_license, store_entitlement, transaction_row, product_for, is_other, BillingState, stored_id,
  store_transaction, License, ProductRow, Problem, missing_identifiers, other_account,
  unsupported_product, database_error,
}

abbrev pub subscription_of : ℕ → List Subscription → Option Subscription
subscription_of w subs = find (λ r. r.workspace_id == w) subs

abbrev pub transaction_of : Environment → ℕ → List TransactionRow → Option TransactionRow
transaction_of e hash rows =
    find (λ r. environment_eq r.environment e && r.transaction_hash == hash) rows

abbrev pub license_of : ℕ → List License → Option License
license_of u licenses = find (λ r. r.user_id == u) licenses

-- A manual assignment of the plan scale.
abbrev pub is_manual_scale : Subscription → Bool
is_manual_scale s = str_eq s.source "manual" && str_eq s.plan_code "scale"

abbrev pub kept_or : Subscription → Option Subscription → Subscription
kept_or row none = row
kept_or row (some s) = if is_manual_scale s then s else row

store_subscription-own :
    (row : Subscription) (subs : List Subscription)
    → subscription_of row.workspace_id (store_subscription row subs)
      ≡ some (kept_or row (subscription_of row.workspace_id subs))
store_subscription-own row [] = ground arith
store_subscription-own row (s ∷ subs) = ground (arith, store_subscription-own row subs)

store_subscription-other :
    (w : ℕ) (row : Subscription) (subs : List Subscription)
    → (row.workspace_id == w) ≡ false
    → subscription_of w (store_subscription row subs) ≡ subscription_of w subs
store_subscription-other w row [] h = ground arith
store_subscription-other w row (s ∷ subs) h = ground (arith, store_subscription-other w row subs h)

-- The answer of a purchase that is refused, before it reaches the database.
abbrev pub refusal : Purchase → Draw → Billing → Option ℕ → Option ℕ → Option Problem
refusal p d s none pid = some missing_identifiers
refusal p d s (some tid) none = some missing_identifiers
refusal p d s (some tid) (some pid) =
    if is_other p.transaction.app_account_token p.owner.user_id
    then some other_account
    else (if not (is_some (product_for pid s.products))
        then some unsupported_product
        else (if d.is_refused then some database_error else none))

-- The stored row is found again, with the id of the row that was there.
store_transaction-own :
    (row : TransactionRow) (rows : List TransactionRow)
    → environment_eq row.environment row.environment ≡ true
    → transaction_of row.environment row.transaction_hash (store_transaction row rows)
      ≡ some (record row { id = stored_id row rows })
store_transaction-own row [] h = ground (arith, h)
store_transaction-own row (r ∷ rows) h = elim (Bool-cases (same_transaction row r)) [
  | inl e ↦ rw e (ground (arith, h))
  | inr e ↦ rw (e, find, e) (store_transaction-own row rows h)
]

environment_eq_refl : (e : Environment) → environment_eq e e ≡ true
environment_eq_refl sandbox = refl
environment_eq_refl production = refl

module _ (blind : BlindIndex) where
  abbrev pub answer_of : Result (ℕ × (BillingState × ProductRow)) → Option Problem
  answer_of (ok _) = none
  answer_of (failed problem) = some problem

  persist_identified-refusal :
      (p : Purchase) (d : Draw) (s : Billing) (tid pid : Option ℕ)
      → answer_of (persist_identified blind p d s tid pid).1 ≡ refusal p d s tid pid
  persist_identified-refusal p d s none pid = refl
  persist_identified-refusal p d s (some tid) none = refl
  persist_identified-refusal p d s (some tid) (some pid) = ground arith

  -- A purchase fails exactly for missing identifiers, for an account token of another user, for a
  -- product that is not offered or when the database refuses it, in this order.
  pub persist_apple_purchase-refusal :
      (p : Purchase) (d : Draw) (s : Billing)
      → answer_of (persist_apple_purchase blind p d s).1
        ≡ refusal p d s p.transaction.transaction_id p.transaction.product_id
  unfolding persist_apple_purchase
  persist_apple_purchase-refusal p d s =
      persist_identified-refusal p d s p.transaction.transaction_id p.transaction.product_id

  -- What the buyer has after a purchase, by the plan code of the product.
  abbrev pub Bought :
      Purchase → Draw → Option ℕ → Billing → Billing → ℕ → ProductRow → Option String → Type 0
  Bought p d tid before after id product (some code) =
      (after.licenses ≡ before.licenses)
      × (t : ℕ) × (tid ≡ some t)
      × (subscription_of p.owner.workspace_id after.subscriptions
          ≡ some (
              kept_or (subscription_row blind p d t product code)
                (subscription_of p.owner.workspace_id before.subscriptions)))
  Bought p d tid before after id product none =
      (after.subscriptions ≡ before.subscriptions)
      × (license_of p.owner.user_id after.licenses ≡ some (license_row blind p d id))

  -- The product that was paid for, which is offered.
  abbrev pub IsProduct : Purchase → Billing → ProductRow → Type 0
  IsProduct p before product =
      (Memᴰ product before.products)
      × (p.transaction.product_id ≡ some product.product_id)
      × (product.is_active ≡ true)

  -- The row of the transaction, with the id of the answer.
  abbrev pub IsRecorded : Purchase → Option ℕ → Billing → ℕ → BillingState → ProductRow → Type 0
  IsRecorded p tid after id state product =
      (t : ℕ) × (tid ≡ some t)
      × (row : TransactionRow) × (transaction_of p.environment (blind.transaction t)
            after.transactions
          ≡ some row)
      × (row.id ≡ id)
      × (row.workspace_id ≡ p.owner.workspace_id)
      × (row.user_id ≡ p.owner.user_id)
      × (row.product_id ≡ product.product_id)
      × (row.status ≡ state)

  abbrev pub Entitled :
      Purchase
      → Draw
      → Option ℕ
      → Billing
      → Billing
      → Result (ℕ × (BillingState × ProductRow))
      → Type 0
  Entitled p d tid before after (failed problem) = after ≡ before
  Entitled p d tid before after (ok (id, (state, product))) =
      (state ≡ state_of blind p d)
      × (IsProduct p before product)
      × (IsRecorded p tid after id state product)
      × Bought p d tid before after id product (hosted_code product.product_kind product.plan_code)

  store_license-own :
      (row : License) (rows : List License)
      → license_of row.user_id (store_license row rows) ≡ some row
  store_license-own row [] = ground arith
  store_license-own row (r ∷ rows) = ground (arith, store_license-own row rows)

  write_purchase-Bought :
      (p : Purchase) (d : Draw) (tid pid : ℕ) (product : ProductRow) (s mid : Billing) (id : ℕ)
      (code : Option String)
      → mid.licenses ≡ s.licenses
      → mid.subscriptions ≡ s.subscriptions
      → Bought p d
          (some tid)
          s
          (store_entitlement blind p d tid id product code mid)
          id
          product
          code
  unfolding subscription_row license_row
  write_purchase-Bought p d tid pid product s mid id (some code) h k = (
    h,
    tid,
    refl,
    rw (sym k)
        (store_subscription-own (subscription_row blind p d tid product code) mid.subscriptions),
  )
  write_purchase-Bought p d tid pid product s mid id none h k =
      (k, store_license-own (license_row blind p d id) mid.licenses)

  write_purchase-IsRecorded :
      (p : Purchase) (d : Draw) (tid pid : ℕ) (product : ProductRow) (s : Billing)
      (code : Option String)
      → product.product_id ≡ pid
      → IsRecorded p
          (some tid)
          (store_entitlement blind p d tid
            (stored_id (transaction_row blind p d tid pid) s.transactions)
            product
            code
            (record s {
              transactions = store_transaction (transaction_row blind p d tid pid) s.transactions;
            }))
          (stored_id (transaction_row blind p d tid pid) s.transactions)
          (state_of blind p d)
          product
  unfolding transaction_row
  write_purchase-IsRecorded p d tid pid product s (some code) e =
      let row = transaction_row blind p d tid pid in
      (
        tid,
        refl,
        record row { id = stored_id row s.transactions },
        store_transaction-own row s.transactions (environment_eq_refl p.environment),
        refl,
        refl,
        refl,
        sym e,
        refl,
      )
  write_purchase-IsRecorded p d tid pid product s none e =
      let row = transaction_row blind p d tid pid in
      (
        tid,
        refl,
        record row { id = stored_id row s.transactions },
        store_transaction-own row s.transactions (environment_eq_refl p.environment),
        refl,
        refl,
        refl,
        sym e,
        refl,
      )

  persist_identified-Entitled :
      (p : Purchase) (d : Draw) (s : Billing) (tid pid : Option ℕ)
      → p.transaction.product_id ≡ pid
      → Entitled p d tid s
          (persist_identified blind p d s tid pid).0
          (persist_identified blind p d s tid pid).1
  unfolding transaction_row subscription_row license_row
  persist_identified-Entitled p d s none pid q = refl
  persist_identified-Entitled p d s (some tid) none q = refl
  persist_identified-Entitled p d s (some tid) (some pid) q =
      elim (Bool-cases (is_other p.transaction.app_account_token p.owner.user_id)) [
        | inl e ↦ rw e refl
        | inr e ↦ elim (Option-cases (product_for pid s.products)) [
          | inl f ↦ rw (e, f) refl
          | inr (product, f) ↦ elim (Bool-cases d.is_refused) [
            | inl g ↦ rw (e, f, g) refl
            | inr g ↦
                let (listed, same) =
                  find-found (λ (x : ProductRow). x.product_id == pid && x.is_active) s.products
                    product f in
                let ours : product.product_id ≡ pid = ground (arith, same) in
                rw (e, f, g)
                  (
                    refl,
                    (listed, q ∙ ap some (sym ours), ground (arith, same)),
                    write_purchase-IsRecorded p d tid pid product s
                        (hosted_code product.product_kind product.plan_code) ours,
                    write_purchase-Bought p d tid pid product s
                        (record s {
                          transactions =
                              store_transaction (transaction_row blind p d tid pid) s.transactions;
                        })
                        (stored_id (transaction_row blind p d tid pid) s.transactions)
                        (hosted_code product.product_kind product.plan_code) refl refl,
                  )
          ]
        ]
      ]

  -- A purchase that fails changes no table. One that succeeds answers with the state of the
  -- transaction and with a product that is in the table, is active and has the id that was paid for. The
  -- row of the transaction (by the environment and the hash of its id) has the id of the answer, the
  -- buyer, the workspace, this product and this state. For a hosted plan the subscription of the
  -- workspace becomes the bought one, unless it is the plan scale assigned by hand, which stays; for any
  -- other product the user has the license of this transaction. The other of the two tables stays.
  pub persist_apple_purchase-Entitled :
      (p : Purchase) (d : Draw) (s : Billing)
      → Entitled p d p.transaction.transaction_id s
          (persist_apple_purchase blind p d s).0
          (persist_apple_purchase blind p d s).1
  unfolding persist_apple_purchase
  persist_apple_purchase-Entitled p d s =
      persist_identified-Entitled p d s p.transaction.transaction_id p.transaction.product_id refl

  abbrev pub Unchanged : Billing → Billing → Result (ℕ × (BillingState × ProductRow)) → Type 0
  Unchanged before after (ok _) = Unit
  Unchanged before after (failed _) = after ≡ before

  Unchanged-of-Entitled :
      (p : Purchase) (d : Draw) (tid : Option ℕ) (before after : Billing)
      (r : Result (ℕ × (BillingState × ProductRow)))
      → Entitled p d tid before after r
      → Unchanged before after r
  Unchanged-of-Entitled p d tid before after (ok _) e = tt
  Unchanged-of-Entitled p d tid before after (failed _) e = e

  pub persist_apple_purchase-Unchanged :
      (p : Purchase) (d : Draw) (s : Billing)
      → Unchanged s (persist_apple_purchase blind p d s).0 (persist_apple_purchase blind p d s).1
  persist_apple_purchase-Unchanged p d s =
      Unchanged-of-Entitled p d p.transaction.transaction_id s
        (persist_apple_purchase blind p d s).0 (persist_apple_purchase blind p d s).1
        (persist_apple_purchase-Entitled p d s)
