-- ===== src/Billing/Refund.antt =====
-- `applyRefund` of src/modules/subscriptions/subscriptions.service.ts, under the user's lock.
pub mod Access
use bondzi_backend.Prelude.{
  ℕ, Bool, true, false, Option, none, some, List, [], ◌∷◌, ◌==◌, if◌then◌else◌, holds_id, find?,
  update_where, Result, ok, err,
}
use bondzi_backend.Enums.{SubscriptionStatus}
use bondzi_backend.Billing.{Subscription, PaymentAttempt, Store, invalidate_cache, with_id}
use bondzi_backend.Billing.Attempts.{is_refunded, find_by_reference, mark_refunded}

abbrev or_same {ℓ} : {A : Type ℓ} → Result A → A → A
or_same (ok a) b = a
or_same (err e) b = b

-- the attempt first: it is what the user's payment history shows
abbrev pub refund_attempt : ℕ → ℕ → List PaymentAttempt → List PaymentAttempt
refund_attempt reference now rows = elim (find_by_reference reference rows) [
  | none ↦ rows
  | some a ↦ if is_refunded a.status then rows else or_same (mark_refunded a.id now rows) rows
]

abbrev pub is_refunded_status : SubscriptionStatus → Bool
is_refunded_status SubscriptionStatus.refunded = true
is_refunded_status _ = false

abbrev pub refunded_subscription : Subscription → Subscription
refunded_subscription s = record s { status = SubscriptionStatus.refunded }

abbrev pub sub_by_reference : ℕ → List Subscription → Option Subscription
sub_by_reference reference = find? (λ s. holds_id s.provider_reference reference)

-- `applyRefund`: the subscription that it took away, if there is one
unfoldable pub apply_refund : ℕ → ℕ → Store → Option Subscription × Store
apply_refund reference now s =
    let t = record s { attempts = refund_attempt reference now s.attempts } in
    elim (sub_by_reference reference s.subs) [
      | none ↦ (none, t)
      | some sub ↦
          if is_refunded_status sub.status then (some sub, invalidate_cache sub.user_id t) else (
            some (refunded_subscription sub),
            invalidate_cache sub.user_id (record t {
              subs = update_where (with_id sub.id) (λ _. refunded_subscription sub) s.subs;
            }),
          )
    ]
