-- ===== src/Billing/Webhook/Refunded.antt =====
-- `onRefundProcessed` of webhook-handler.service.ts.
use bondzi_backend.Prelude.{ℕ, Option, none, some, if◌then◌else◌, is_some, or_else, ok}
use bondzi_backend.Billing.{Subscription, PaymentAttempt, refund, success, Store, invalidate_cache}
use bondzi_backend.Billing.Monad.{Action}
use bondzi_backend.Billing.Attempts.{find_by_reference}
use bondzi_backend.Billing.Logs.{mark_processed, record_event}
use bondzi_backend.Billing.Refund.{apply_refund}
use bondzi_backend.Billing.Webhook.{Event}

abbrev pub drop_cache_of : Option ℕ → Store → Store
drop_cache_of none s = s
drop_cache_of (some user) s = invalidate_cache user s

abbrev pub refund_reference : Option ℕ → ℕ → Store → Option Subscription × Store
refund_reference none now s = (none, s)
refund_reference (some reference) now s = apply_refund reference now s

abbrev pub attempt_of : Option ℕ → Store → Option PaymentAttempt
attempt_of none s = none
attempt_of (some reference) s = find_by_reference reference s.attempts

abbrev pub refunded_user : Event → Option PaymentAttempt → Option Subscription → Option ℕ
refunded_user event attempt (some sub) = some sub.user_id
refunded_user event attempt none =
    or_else event.user_id (elim attempt [ none ↦ none | some a ↦ some a.user_id ])

-- the rows after the refund, of which `sub` is the one taken away, if there is one
unfoldable pub log_refund : Event → ℕ → Option PaymentAttempt → Option Subscription → Store → Store
log_refund event log attempt sub s =
    let user = refunded_user event attempt sub in
    let sub_id : Option ℕ = elim sub [ none ↦ none | some r ↦ some r.id ] in
    let t = if is_some sub then s else drop_cache_of user s in
    mark_processed log success
      (record {
        payment_attempt_id = some (elim attempt [ none ↦ none | some a ↦ some a.id ]);
        subscription_id = some sub_id;
        user_id = some user;
      })
      (record_event
        (record {
          kind = refund;
          user_id = user;
          subscription_id = sub_id;
          provider_event_id = event.id;
        })
        t)

-- `onRefundProcessed`
unfoldable pub on_refund_processed : Event → ℕ → ℕ → Action (Unit {0})
on_refund_processed event log now s =
    let attempt = attempt_of event.reference s in
    let (sub, t) = refund_reference event.reference now s in
    (ok tt, log_refund event log attempt sub t)
