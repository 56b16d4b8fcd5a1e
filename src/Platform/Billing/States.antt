-- ===== src/Platform/Billing/States.antt =====
-- What the state of a transaction entitles to.
use monitc.Prelude.{ℕ, Bool, true, false, ◌&&◌, not, Option, none, some, ◌≡◌, refl, arith, is_some}
use monitc.Platform.Billing.{
  Transaction, Status, status_active, status_expired, status_retry, status_grace, status_revoked,
  other, BillingState, active, grace_period, billing_state, entitlement_state, date_from_millis,
  state_of_revocation, state_of_status, is_past,
}

-- The states with which `loadWork` and `loadSessionSubject` grant the plan.
abbrev pub grants : BillingState → Bool
grants active = true
grants grace_period = true
grants _ = false

-- The subscription status says so, or there is none that is known and the period has not passed.
abbrev pub is_current : ℕ → Option ℕ → Option Status → Bool
is_current now expires (some status_active) = true
is_current now expires (some status_grace) = true
is_current now expires (some other) = not (is_past now expires)
is_current now expires none = not (is_past now expires)
is_current now expires (some _) = false

state_of_status-grants :
    (now : ℕ) (expires : Option ℕ) (status : Option Status)
    → grants (entitlement_state (state_of_status now expires status))
      ≡ is_current now expires status
unfolding entitlement_state
state_of_status-grants now expires none = ground arith
state_of_status-grants now expires (some status_active) = refl
state_of_status-grants now expires (some status_grace) = refl
state_of_status-grants now expires (some status_retry) = refl
state_of_status-grants now expires (some status_revoked) = refl
state_of_status-grants now expires (some status_expired) = refl
state_of_status-grants now expires (some other) = ground arith

state_of_revocation-grants :
    (reason : Option ℕ) → grants (entitlement_state (state_of_revocation reason)) ≡ false
unfolding entitlement_state
state_of_revocation-grants none = refl
state_of_revocation-grants (some _) = refl

-- A transaction grants the plan exactly if it has no revocation date, and is current by the status of
-- the subscription or, where that is missing or unknown, has no expiry date in the past. A date of 0
-- counts as none.
pub billing_state-grants :
    (now : ℕ) (t : Transaction) (status : Option Status)
    → grants (entitlement_state (billing_state now t status)) ≡ (
        not (is_some (date_from_millis t.revocation_date))
        && is_current now (date_from_millis t.expires_date) status)
unfolding billing_state
billing_state-grants now t status = ground (
  arith,
  state_of_status-grants now (date_from_millis t.expires_date) status,
  state_of_revocation-grants t.revocation_reason,
)
