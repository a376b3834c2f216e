-- ===== src/Billing/Attempts.antt =====
-- src/modules/payments/payment-attempts.service.ts: the life of a payment attempt.
pub mod Lifecycle
mod Tests
use bondzi_backend.Prelude.{
  ℕ, ◌+◌, ◌-◌, Bool, true, false, ◌&&◌, Option, none, some, List, [], ◌∷◌, ltb, ◌==◌, if◌then◌else◌,
  or_else, find?, count_if, update_where, Result, ok, err, internal, ◌>>=◌,
}
use bondzi_backend.Enums.{BillingInterval, PaymentAttemptStatus, pending, paid, failed, abandoned}
use bondzi_backend.Billing.{PaymentAttempt, FailureReason}

pub record CreatePending : Type 0 where
  pub user_id : ℕ
  pub plan_id : ℕ
  pub billing_interval : Option BillingInterval
  pub amount_minor : ℕ
  pub provider : ℕ
  pub provider_reference : ℕ
  pub promo_code_id : Option ℕ
  pub discount_amount : Option ℕ

abbrev pub is_pending : PaymentAttemptStatus → Bool
is_pending pending = true
is_pending _ = false

abbrev pub is_paid : PaymentAttemptStatus → Bool
is_paid paid = true
is_paid _ = false

abbrev pub is_refunded : PaymentAttemptStatus → Bool
is_refunded PaymentAttemptStatus.refunded = true
is_refunded _ = false

-- PAID or REFUNDED
abbrev pub is_settled : PaymentAttemptStatus → Bool
is_settled paid = true
is_settled PaymentAttemptStatus.refunded = true
is_settled _ = false

abbrev pub with_id : ℕ → PaymentAttempt → Bool
with_id id a = a.id == id

-- `findByReference`
abbrev pub find_by_reference : ℕ → List PaymentAttempt → Option PaymentAttempt
find_by_reference reference = find? (λ a. a.provider_reference == reference)

-- `findById`
abbrev pub find_by_id : ℕ → List PaymentAttempt → Option PaymentAttempt
find_by_id id = find? (with_id id)

-- `findOneOrFail`
abbrev pub find_or_fail : ℕ → List PaymentAttempt → Result PaymentAttempt
find_or_fail id rows = elim (find_by_id id rows) [ none ↦ err internal | some a ↦ ok a ]

-- `repo.save(row)`
abbrev pub save : PaymentAttempt → List PaymentAttempt → List PaymentAttempt
save a = update_where (with_id a.id) (λ _. a)

-- `createPending`: the new row
unfoldable pub pending_attempt : ℕ → ℕ → CreatePending → PaymentAttempt
pending_attempt id now input = record {
  id = id;
  user_id = input.user_id;
  subscription_id = none;
  plan_id = some input.plan_id;
  billing_interval = input.billing_interval;
  amount_minor = input.amount_minor;
  provider = input.provider;
  provider_reference = input.provider_reference;
  provider_event_id = none;
  provider_customer_id = none;
  promo_code_id = input.promo_code_id;
  discount_amount = input.discount_amount;
  status = pending;
  initiated_at = now;
  paid_at = none;
  failed_at = none;
  failure_reason = none;
  refunded_at = none;
  abandoned_at = none;
  alarm = none;
}

-- what `markPaid` makes of the row; `event` and `customer` are the identifiers that the caller has
unfoldable pub paid_row : Option ℕ → Option ℕ → ℕ → PaymentAttempt → PaymentAttempt
paid_row event customer now a =
    if is_paid a.status
    then record a {
      provider_event_id = or_else a.provider_event_id event;
      provider_customer_id = or_else a.provider_customer_id customer;
    }
    else record a {
      status = paid;
      paid_at = some now;
      provider_event_id = or_else event a.provider_event_id;
      provider_customer_id = or_else customer a.provider_customer_id;
    }

-- `markPaid`
unfoldable pub mark_paid :
    ℕ → Option ℕ → Option ℕ → ℕ → List PaymentAttempt → Result (List PaymentAttempt)
mark_paid id event customer now rows = do
  a ← find_or_fail id rows
  ok (save (paid_row event customer now a) rows)

unfoldable pub failed_row : FailureReason → ℕ → PaymentAttempt → PaymentAttempt
failed_row reason now a =
    if is_settled a.status
    then a
    else record a { status = failed; failed_at = some now; failure_reason = some reason }

-- `markFailed`
unfoldable pub mark_failed :
    ℕ → FailureReason → ℕ → List PaymentAttempt → Result (List PaymentAttempt)
mark_failed id reason now rows = do
  a ← find_or_fail id rows
  ok (save (failed_row reason now a) rows)

-- `markFailedByReference`
unfoldable pub mark_failed_by_reference :
    ℕ → FailureReason → ℕ → List PaymentAttempt → Result (List PaymentAttempt)
mark_failed_by_reference reference reason now rows = elim (find_by_reference reference rows) [
  | none ↦ ok rows
  | some a ↦ mark_failed a.id reason now rows
]

unfoldable pub refunded_row : ℕ → PaymentAttempt → PaymentAttempt
refunded_row now a =
    if is_refunded a.status
    then a
    else record a { status = PaymentAttemptStatus.refunded; refunded_at = some now }

-- `markRefunded`
unfoldable pub mark_refunded : ℕ → ℕ → List PaymentAttempt → Result (List PaymentAttempt)
mark_refunded id now rows = do a ← find_or_fail id rows; ok (save (refunded_row now a) rows)

-- `linkSubscription`
unfoldable pub link_subscription : ℕ → ℕ → List PaymentAttempt → List PaymentAttempt
link_subscription id subscription =
    update_where (with_id id) (λ a. record a { subscription_id = some subscription })

abbrev pub is_stale : ℕ → PaymentAttempt → Bool
is_stale cutoff a = is_pending a.status && ltb a.initiated_at cutoff

-- `sweepAbandoned`: the number of rows and the rows
unfoldable pub sweep_abandoned : ℕ → ℕ → List PaymentAttempt → ℕ × List PaymentAttempt
sweep_abandoned older_than_ms now rows =
    let cutoff = now - older_than_ms in
    (
      count_if (is_stale cutoff) rows,
      update_where (is_stale cutoff) (λ a. record a { status = abandoned; abandoned_at = some now })
          rows,
    )
