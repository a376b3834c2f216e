-- ===== src/Billing/Webhook/Renewal.antt =====
-- A charge that we did not start, in webhook-handler.service.ts: an automatic renewal, or a debit to
-- pay back.
use bondzi_backend.Prelude.{
  ℕ, Bool, true, not, Option, none, some, ◌∷◌, if◌then◌else◌, or_default, ok,
}
use bondzi_backend.Enums.{BillingInterval}
use bondzi_backend.Plans.{is_one_time, plan_by_id}
use bondzi_backend.Billing.{
  Subscription, PaymentAttempt, refund_transaction, Store, is_active_status,
}
use bondzi_backend.Billing.Monad.{Action, pure, gets, modify, ◌>>=◌, ◌>>◌}
use bondzi_backend.Billing.Activation.{sub_by_code, record_pending_renewal_attempt}
use bondzi_backend.Billing.Webhook.{Event, paystack}

-- The plan and the interval of an active recurring row; a plan that is gone counts as recurring.
unfoldable pub renewable : Subscription → Option (ℕ × BillingInterval)
renewable sub = elim sub.plan_id [
  | none ↦ none
  | some plan ↦ elim sub.billing_interval [
    | none ↦ none
    | some interval ↦ if is_active_status sub.status then some (plan, interval) else none
  ]
]

abbrev pub is_recurring_plan : ℕ → Store → Bool
is_recurring_plan id s = elim (plan_by_id id s.plans) [
  | none ↦ true
  | some p ↦ not (is_one_time p.payment_kind)
]

-- the debit of a subscription that we stopped is paid back, as far as the provider goes along
abbrev pub refund_debit : Event → ℕ → Store → Store
refund_debit event reference s = record s {
  provider_calls = refund_transaction reference event.amount_minor ∷ s.provider_calls;
}

unfoldable pub plant_renewal :
    Event → ℕ → Subscription → ℕ → BillingInterval → ℕ → Action (Option PaymentAttempt)
plant_renewal event reference sub plan interval now = do
  row ←
      record_pending_renewal_attempt
        (record {
          user_id = sub.user_id;
          plan_id = plan;
          billing_interval = some interval;
          amount_minor = or_default event.amount_minor 0;
          provider = paystack;
          provider_reference = reference;
          promo_code_id = none;
          discount_amount = none;
        })
        now
  pure (some row)

-- a charge that we did not start: an automatic renewal, if the row of its code is active
unfoldable pub renewal_for : Event → ℕ → Option Subscription → ℕ → Action (Option PaymentAttempt)
renewal_for event reference none now s = (ok none, s)
renewal_for event reference (some sub) now s = elim (renewable sub) [
  | none ↦ (modify (refund_debit event reference) >> pure none) s
  | some (plan, interval) ↦
      if is_recurring_plan plan s
      then plant_renewal event reference sub plan interval now s
      else (ok none, s)
]

unfoldable pub renewal_attempt : Event → ℕ → ℕ → Action (Option PaymentAttempt)
renewal_attempt event reference now = elim event.subscription_id [
  | none ↦ pure none
  | some code ↦ gets (λ s. sub_by_code code s.subs) >>= λ sub. renewal_for event reference sub now
]
