-- ===== src/Billing/Activation.antt =====
-- `applyWebhookActivation`, `recordPendingRenewalAttempt` and `applyWebhookStatus` of
-- src/modules/subscriptions/subscriptions.service.ts: what the webhook handler asks of the
-- subscriptions.
use bondzi_backend.Prelude.{
  ℕ, ◌+◌, Bool, false, not, ◌&&◌, Option, none, some, List, ◌∷◌, ◌==◌, if◌then◌else◌, is_some,
  holds_id, find?, update_where, ok, conflict,
}
use bondzi_backend.Enums.{BillingInterval, SubscriptionStatus}
use bondzi_backend.Plans.{Plan, is_one_time}
use bondzi_backend.Billing.{
  Subscription, PaymentAttempt, renewal_race, Provider, Store, is_active_status, invalidate_cache,
  with_id,
}
use bondzi_backend.Billing.Monad.{Action, pure, gets, modify, ◌>>=◌, ◌>>◌, throw_if}
use bondzi_backend.Billing.Attempts.{
  CreatePending, pending_attempt, find_by_id, find_by_reference, mark_paid, mark_failed,
}
use bondzi_backend.Billing.Consume.{consume_paid_attempt, or_same}
use bondzi_backend.Billing.Verify.{on_attempts, no_options}

pub record Activation : Type 0 where
  pub user_id : ℕ
  pub plan : Plan
  pub interval : Option BillingInterval
  pub provider_reference : Option ℕ
  pub provider_subscription_id : Option ℕ
  pub provider_customer_id : Option ℕ
  pub amount_display : Option ℕ
  pub expires_at : Option ℕ
  pub is_renewal : Bool

-- `findLatestBySubscriptionId`, and the search inside the lock
abbrev pub sub_by_code : ℕ → List Subscription → Option Subscription
sub_by_code code = find? (λ s. holds_id s.provider_subscription_id code)

abbrev is_live : Option Subscription → Bool
is_live none = false
is_live (some s) = is_active_status s.status

-- a renewal whose subscription is no longer active
abbrev pub lost_race : Activation → Store → Bool
lost_race args s = elim args.provider_subscription_id [
  | none ↦ false
  | some code ↦ args.is_renewal && not (is_live (sub_by_code code s.subs))
]

-- `.catch(log)` around `markFailed`
abbrev pub fail_renewal : PaymentAttempt → ℕ → Store → Store
fail_renewal attempt now s = record s {
  attempts = or_same (mark_failed attempt.id renewal_race now s.attempts) s.attempts;
}

-- the attempt is marked as paid and consumed
unfoldable pub promote : Provider → PaymentAttempt → Activation → ℕ → Action Bool
promote provider attempt args now = do
  on_attempts (mark_paid attempt.id none args.provider_customer_id now)
  refreshed ← gets (λ s. find_by_id attempt.id s.attempts)
  elim refreshed [
    | none ↦ pure false
    | some a ↦ do
      done ←
          consume_paid_attempt provider a args.plan
            (record no_options {
              provider_customer_id = args.provider_customer_id;
              provider_subscription_id = args.provider_subscription_id;
              amount_display = args.amount_display;
              expires_at_override = args.expires_at;
              is_renewal = args.is_renewal;
            })
            now
      pure done.1
  ]

unfoldable pub activate_attempt : Provider → PaymentAttempt → Activation → ℕ → Action Bool
activate_attempt provider attempt args now =
    if not (attempt.user_id == args.user_id) then pure false else do
      lost ← gets (lost_race args)
      if lost
          then (modify (fail_renewal attempt now) >> pure false)
          else promote provider attempt args now

-- what runs under the user's lock
unfoldable pub activate_locked : Provider → Activation → ℕ → Action Bool
activate_locked provider args now = elim args.provider_reference [
  | none ↦ pure false
  | some reference ↦ do
    found ← gets (λ s. find_by_reference reference s.attempts)
    elim found [ none ↦ pure false | some attempt ↦ activate_attempt provider attempt args now ]
]

-- `applyWebhookActivation`: whether the charge is a duplicate
unfoldable pub apply_webhook_activation : Provider → Activation → ℕ → Action Bool
apply_webhook_activation provider args now = do
  throw_if (is_one_time args.plan.payment_kind && is_some args.interval) conflict
  throw_if (not (is_one_time args.plan.payment_kind) && not (is_some args.interval)) conflict
  alarm ← activate_locked provider args now
  modify (invalidate_cache args.user_id)
  pure alarm

-- the row that `recordPendingRenewalAttempt` finds or inserts
unfoldable pub record_pending_renewal_attempt : CreatePending → ℕ → Action PaymentAttempt
record_pending_renewal_attempt input now s =
    elim (find_by_reference input.provider_reference s.attempts) [
      | some a ↦ (ok a, s)
      | none ↦
          let row = pending_attempt s.next_id now input in
          (ok row, record s { attempts = row ∷ s.attempts; next_id = s.next_id + 1 })
    ]

abbrev pub set_status : SubscriptionStatus → Subscription → Subscription
set_status status s = record s { status = status }

-- `save(sub)` with the new status
abbrev pub save_status : SubscriptionStatus → Subscription → Store → Store
save_status status sub s = record s {
  subs = update_where (with_id sub.id) (λ _. set_status status sub) s.subs;
}

-- `applyWebhookStatus`
unfoldable pub apply_webhook_status : ℕ → SubscriptionStatus → Store → Store
apply_webhook_status id status s = elim (find? (with_id id) s.subs) [
  | none ↦ s
  | some sub ↦ invalidate_cache sub.user_id (save_status status sub s)
]
