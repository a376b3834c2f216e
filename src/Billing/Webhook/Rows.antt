-- ===== src/Billing/Webhook/Rows.antt =====
-- The handlers of webhook-handler.service.ts that look for the row of the event.
use bondzi_backend.Prelude.{ℕ, none, some, if◌then◌else◌, update_where}
use bondzi_backend.Enums.{SubscriptionStatus}
use bondzi_backend.Billing.{
  Subscription, FinancialEventType, cancellation, status_correction, FinancialEvent, success,
  is_cancelled_status, invalidate_cache, with_id,
}
use bondzi_backend.Billing.Monad.{Action, gets, modify, ◌>>=◌, ◌>>◌}
use bondzi_backend.Billing.Logs.{no_refs, record_event}
use bondzi_backend.Billing.Activation.{sub_by_code, save_status}
use bondzi_backend.Billing.Webhook.{Event, sub_by_customer, mark, refs_of}

-- The handlers that look for the row of the event's subscription code; without one they only log.
abbrev pub with_code_row : Event → ℕ → (Subscription → Action (Unit {0})) → Action (Unit {0})
with_code_row event log f = elim event.subscription_id [
  | none ↦ mark log success no_refs
  | some code ↦ do
    found ← gets (λ s. sub_by_code code s.subs)
    elim found [ none ↦ mark log success no_refs | some sub ↦ f sub ]
]

abbrev pub with_code : ℕ → Subscription → Subscription
with_code code s = record s { provider_subscription_id = some code }

unfoldable pub set_code : Subscription → ℕ → ℕ → Action (Unit {0})
set_code sub code log = do
  modify (λ s. record s { subs = update_where (with_id sub.id) (λ _. with_code code sub) s.subs })
  modify (invalidate_cache sub.user_id)
  mark log success (refs_of sub)

-- `onSubscriptionCreate`
unfoldable pub on_subscription_create : Event → ℕ → Action (Unit {0})
on_subscription_create event log = elim event.subscription_id [
  | none ↦ mark log success no_refs
  | some code ↦ elim event.customer_id [
    | none ↦ mark log success no_refs
    | some customer ↦ do
      found ← gets (λ s. sub_by_customer customer s.subs)
      elim found [ none ↦ mark log success no_refs | some sub ↦ set_code sub code log ]
  ]
]

abbrev pub sub_event : FinancialEventType → Event → Subscription → FinancialEvent
sub_event kind event sub = record {
  kind = kind;
  user_id = some sub.user_id;
  subscription_id = some sub.id;
  provider_event_id = event.id;
}

unfoldable pub change_status : Event → SubscriptionStatus → ℕ → Subscription → Action (Unit {0})
change_status event status log sub = do
  modify (save_status status sub)
  modify (invalidate_cache sub.user_id)
  mark log success (refs_of sub)
  modify (
      record_event (
        sub_event (if is_cancelled_status status then cancellation else status_correction) event
          sub))

-- `onStatusChange`
unfoldable pub on_status_change : Event → SubscriptionStatus → ℕ → Action (Unit {0})
on_status_change event status log = with_code_row event log (change_status event status log)

-- `onInvoiceFailed`: the paid period goes on
unfoldable pub on_invoice_failed : Event → ℕ → Action (Unit {0})
on_invoice_failed event log = with_code_row event log λ sub. do
  modify (record_event (sub_event status_correction event sub))
  mark log success (refs_of sub)

-- `onSubscriptionNotRenew`
unfoldable pub on_subscription_not_renew : Event → ℕ → Action (Unit {0})
on_subscription_not_renew event log =
    with_code_row event log
      λ sub. do modify (invalidate_cache sub.user_id); mark log success (refs_of sub)

-- `onInvoiceUpdate`
unfoldable pub on_invoice_update : Event → ℕ → Action (Unit {0})
on_invoice_update event log = with_code_row event log λ sub. mark log success (refs_of sub)
