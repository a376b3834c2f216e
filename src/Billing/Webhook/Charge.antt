-- ===== src/Billing/Webhook/Charge.antt =====
-- `onChargeSuccess` of webhook-handler.service.ts.
use bondzi_backend.Prelude.{
  ℕ, Bool, true, false, not, ◌&&◌, Option, none, some, if◌then◌else◌, is_some,
}
use bondzi_backend.Enums.{BillingInterval, one_time, recurring}
use bondzi_backend.Plans.{Plan, is_one_time, interval_for_provider_plan_code}
use bondzi_backend.Billing.{
  PaymentAttempt, activation, success, no_matching_payment, error, Provider,
}
use bondzi_backend.Billing.Monad.{Action, gets, modify, lift, ◌>>=◌, ◌>>◌}
use bondzi_backend.Billing.Attempts.{find_by_id, find_by_reference}
use bondzi_backend.Billing.Logs.{LogRefs, no_refs, record_event}
use bondzi_backend.Billing.Activation.{apply_webhook_activation}
use bondzi_backend.Billing.Webhook.{Event, mark, attempt_refs, resolve_plan}
use bondzi_backend.Billing.Webhook.Renewal.{renewal_attempt}

-- the interval of the charge
unfoldable pub interval_of : Event → PaymentAttempt → Plan → Option BillingInterval
interval_of event attempt plan = elim plan.payment_kind [
  | one_time ↦ none
  | recurring ↦ elim event.plan_code [
    | some code ↦ interval_for_provider_plan_code plan code
    | none ↦ attempt.billing_interval
  ]
]

abbrev pub linked_refs : PaymentAttempt → Option PaymentAttempt → LogRefs
linked_refs a linked = record {
  payment_attempt_id = some (some a.id);
  subscription_id = some (elim linked [ none ↦ none | some l ↦ l.subscription_id ]);
  user_id = some (some a.user_id);
}

-- what is written after the activation; a duplicate is an alarm and no activation
unfoldable pub after_activation : Event → ℕ → PaymentAttempt → Bool → Action (Unit {0})
after_activation event log a true = gets (λ s. find_by_id a.id s.attempts) >>= λ linked.
    mark log no_matching_payment (linked_refs a linked)
after_activation event log a false = do
  modify (
      record_event (record {
        kind = activation;
        user_id = some a.user_id;
        subscription_id = none;
        provider_event_id = event.id;
      }))
  linked ← gets (λ s. find_by_id a.id s.attempts)
  mark log success (linked_refs a linked)

unfoldable pub charge_plan :
    Provider → Event → ℕ → ℕ → PaymentAttempt → Bool → Plan → ℕ → Action (Unit {0})
charge_plan provider event log reference a is_renewal plan now =
    let interval = interval_of event a plan in
    if not (is_one_time plan.payment_kind) && not (is_some interval)
    then mark log error (attempt_refs a)
    else do
      alarm ←
          apply_webhook_activation provider
            (record {
              user_id = a.user_id;
              plan = plan;
              interval = interval;
              provider_reference = some reference;
              provider_subscription_id =
                  if is_one_time plan.payment_kind then none else event.subscription_id;
              provider_customer_id = event.customer_id;
              amount_display = event.amount_minor;
              expires_at = event.next_payment_date;
              is_renewal = is_renewal;
            })
            now
      after_activation event log a alarm

unfoldable pub charge_attempt :
    Provider → Event → ℕ → ℕ → Option PaymentAttempt → Bool → ℕ → Action (Unit {0})
charge_attempt provider event log reference none is_renewal now =
    mark log no_matching_payment no_refs
charge_attempt provider event log reference (some a) is_renewal now = do
  answer ← gets (resolve_plan event)
  plan ← lift answer
  elim plan [
    | none ↦ mark log error (attempt_refs a)
    | some p ↦ charge_plan provider event log reference a is_renewal p now
  ]

unfoldable pub charge_reference : Provider → Event → ℕ → ℕ → ℕ → Action (Unit {0})
charge_reference provider event log reference now = do
  found ← gets (λ s. find_by_reference reference s.attempts)
  elim found [
    | some a ↦ charge_attempt provider event log reference (some a) false now
    | none ↦ do
      planted ← renewal_attempt event reference now
      charge_attempt provider event log reference planted (is_some planted) now
  ]

-- `onChargeSuccess`
unfoldable pub on_charge_success : Provider → Event → ℕ → ℕ → Action (Unit {0})
on_charge_success provider event log now = elim event.reference [
  | none ↦ mark log no_matching_payment no_refs
  | some reference ↦ charge_reference provider event log reference now
]
