-- ===== src/Billing/Webhook.antt =====
-- src/modules/payments/webhooks/webhook-handler.service.ts: the provider's events, and
-- the plan that an event is about.
-- Signatures are checked and payloads parsed before an event gets here. E-mails are left out.
pub mod Renewal
pub mod Charge
pub mod Rows
pub mod Refunded
pub mod Dispatch
pub mod Process
pub mod Gate
pub mod Once
pub mod Revived
use bondzi_backend.Prelude.{
  ℕ, Bool, true, false, not, ◌&&◌, Option, none, some, List, [], ◌∷◌, ◌||◌, if◌then◌else◌, is_some,
  or_default, or_else, holds_id, find?, update_where, Result, ok, err,
}
use bondzi_backend.Enums.{
  BillingInterval, SubscriptionStatus, PaymentKind, one_time, recurring, cancelled,
}
use bondzi_backend.Plans.{Plan, is_one_time, plan_by_id, get_by_id, interval_for_provider_plan_code}
use bondzi_backend.Billing.{
  Subscription, PaymentAttempt, FinancialEventType, activation, cancellation, status_correction,
  refund, FinancialEvent, BillingLogStatus, success, no_matching_payment, error, Provider,
  refund_transaction, Store, is_active_status, is_cancelled_status, invalidate_cache, with_id,
}
use bondzi_backend.Billing.Monad.{Action, pure, gets, modify, lift, ◌>>=◌, ◌>>◌}
use bondzi_backend.Billing.Attempts.{find_by_id, find_by_reference}
use bondzi_backend.Billing.Logs.{LogRefs, no_refs, mark_processed, record_event}
use bondzi_backend.Billing.Refund.{sub_by_reference, apply_refund}
use bondzi_backend.Billing.Activation.{
  sub_by_code, apply_webhook_activation, record_pending_renewal_attempt, save_status,
}

pub data EventType : Type 0 where
  charge_success subscription_create subscription_disable : EventType
  subscription_not_renew invoice_failed invoice_update refund_processed unknown : EventType

-- `NormalizedWebhookEvent`
pub record Event : Type 0 where
  pub id : ℕ
  pub kind : EventType
  pub user_id : Option ℕ
  pub reference : Option ℕ
  pub plan_code : Option ℕ
  pub customer_id : Option ℕ
  pub subscription_id : Option ℕ
  pub amount_minor : Option ℕ
  pub next_payment_date : Option ℕ
  pub claimed_at : Option ℕ

-- the key of the only provider there is, 'paystack'
abbrev pub paystack : ℕ
paystack = 1

-- `findLatestByCustomer`
abbrev pub sub_by_customer : ℕ → List Subscription → Option Subscription
sub_by_customer customer = find? (λ s. holds_id s.provider_customer_id customer)

-- `findByProviderPlanCode`
abbrev pub plan_by_code : ℕ → List Plan → Option Plan
plan_by_code code = find? (λ p.
    holds_id p.provider_plan_monthly code
    || (holds_id p.provider_plan_six_month code || holds_id p.provider_plan_annual code))

abbrev pub mark : ℕ → BillingLogStatus → LogRefs → Action (Unit {0})
mark log status refs = modify (mark_processed log status refs)

abbrev pub refs_of : Subscription → LogRefs
refs_of sub = record {
  payment_attempt_id = none;
  subscription_id = some (some sub.id);
  user_id = some (some sub.user_id);
}

abbrev pub attempt_refs : PaymentAttempt → LogRefs
attempt_refs a = record {
  payment_attempt_id = some (some a.id);
  subscription_id = none;
  user_id = some (some a.user_id);
}

-- the plan of a row that was found, if it names one; a plan that is gone throws
abbrev pub plan_of_row :
    Option Subscription → (Unit {0} → Store → Result (Option Plan)) → Store → Result (Option Plan)
plan_of_row none next s = next tt s
plan_of_row (some sub) next s = elim sub.plan_id [
  | none ↦ next tt s
  | some id ↦ elim (get_by_id id s.plans) [ ok p ↦ ok (some p) | err e ↦ err e ]
]

abbrev pub plan_by_customer : Event → Store → Result (Option Plan)
plan_by_customer event s = elim event.customer_id [
  | none ↦ ok none
  | some c ↦ plan_of_row (sub_by_customer c s.subs) (λ _ _. ok none) s
]

abbrev pub plan_by_row : Event → Store → Result (Option Plan)
plan_by_row event s = elim event.reference [
  | none ↦ plan_by_customer event s
  | some r ↦ plan_of_row (sub_by_reference r s.subs) (λ _. plan_by_customer event) s
]

-- `resolvePlan`
unfoldable pub resolve_plan : Event → Store → Result (Option Plan)
resolve_plan event s = elim event.plan_code [
  | none ↦ plan_by_row event s
  | some code ↦ elim (plan_by_code code s.plans) [
    | some p ↦ ok (some p)
    | none ↦ plan_by_row event s
  ]
]
