-- ===== src/Billing/Verify.antt =====
-- `verify` of src/modules/subscriptions/subscriptions.service.ts, under the user's lock: the client
-- comes back from the checkout and the provider is asked.
pub mod Trust
use bondzi_backend.Prelude.{
  ℕ, ◌+◌, Bool, true, false, not, ◌&&◌, Option, none, some, List, ◌==◌, leb, if◌then◌else◌,
  or_default, find?, Result, ok, err, conflict, not_found, internal,
}
use bondzi_backend.Plans.{Plan, get_active_for_checkout}
use bondzi_backend.Billing.{
  Subscription, PaymentAttempt, FailureReason, verification_failed, Provider, VerifiedTransaction,
  Store, with_id,
}
use bondzi_backend.Billing.Monad.{Action, pure, throw, gets, or_throw, lift, ◌>>=◌, ◌>>◌, throw_if}
use bondzi_backend.Billing.Attempts.{
  is_pending, is_paid, find_by_id, find_by_reference, mark_paid, mark_failed,
}
use bondzi_backend.Billing.Consume.{ConsumeOptions, consume_paid_attempt}

-- AMOUNT_MATCH_TOLERANCE_MINOR
abbrev pub amount_tolerance : ℕ
amount_tolerance = 100

-- `Math.abs(paid - expected) <= tolerance`
abbrev pub amount_matches : ℕ → ℕ → Bool
amount_matches paid expected =
    leb paid (expected + amount_tolerance) && leb expected (paid + amount_tolerance)

-- a method of `PaymentAttemptsService` called from another service
abbrev pub on_attempts : (List PaymentAttempt → Result (List PaymentAttempt)) → Action (Unit {0})
on_attempts f s = elim (f s.attempts) [
  | ok rows ↦ (ok tt, record s { attempts = rows })
  | err e ↦ (err e, s)
]

-- the plan of the attempt, as long as it is on sale
abbrev pub plan_on_sale : Option ℕ → Action Plan
plan_on_sale none = throw conflict
plan_on_sale (some id) = gets (λ s. get_active_for_checkout id s.plans) >>= λ r. lift r

-- the row as it is read again for the view
abbrev pub reloaded : Subscription → Store → Subscription
reloaded sub s = or_default (find? (with_id sub.id) s.subs) sub

abbrev pub no_options : ConsumeOptions
no_options = record {
  provider_customer_id = none;
  provider_subscription_id = none;
  amount_display = none;
  expires_at_override = none;
  is_renewal = false;
}

abbrev pub linked_sub : PaymentAttempt → Store → Option Subscription
linked_sub attempt s = elim attempt.subscription_id [
  | none ↦ none
  | some id ↦ find? (with_id id) s.subs
]

-- a paid attempt without a subscription is repaired
unfoldable pub repair : Provider → PaymentAttempt → ℕ → Action Subscription
repair provider attempt now = do
  plan ← plan_on_sale attempt.plan_id
  done ← consume_paid_attempt provider attempt plan no_options now
  gets (reloaded done.0)

unfoldable pub verify_paid : Provider → PaymentAttempt → ℕ → Action Subscription
verify_paid provider attempt now = do
  linked ← gets (linked_sub attempt)
  elim linked [ some sub ↦ pure sub | none ↦ repair provider attempt now ]

-- after the provider confirmed the charge
unfoldable pub settle : Provider → PaymentAttempt → VerifiedTransaction → ℕ → Action Subscription
settle provider attempt result now = do
  throw_if (not (amount_matches result.amount_minor attempt.amount_minor)) conflict
  plan ← plan_on_sale attempt.plan_id
  on_attempts (mark_paid attempt.id none result.customer_id now)
  found ← gets (λ s. find_by_id attempt.id s.attempts)
  refreshed ← or_throw found conflict
  done ←
      consume_paid_attempt provider refreshed plan
        (record no_options {
          provider_customer_id = result.customer_id;
          amount_display = some result.amount_minor;
        })
        now
  gets (reloaded done.0)

-- `none` is a `verifyTransaction` that threw
unfoldable pub verify_pending : Provider → PaymentAttempt → ℕ → Action Subscription
verify_pending provider attempt now = elim (provider.verify_answer attempt.provider_reference) [
  | none ↦ throw internal
  | some result ↦
      if result.is_success
      then settle provider attempt result now
      else on_attempts (mark_failed attempt.id verification_failed now) >> throw conflict
]

unfoldable pub verify_attempt : Provider → PaymentAttempt → ℕ → Action Subscription
verify_attempt provider attempt now =
    if is_paid attempt.status
    then verify_paid provider attempt now
    else if is_pending attempt.status
    then verify_pending provider attempt now
    else throw conflict

-- `verify`
unfoldable pub verify : Provider → ℕ → ℕ → ℕ → Action Subscription
verify provider user reference now = do
  found ← gets (λ s. find_by_reference reference s.attempts)
  attempt ← or_throw found not_found
  throw_if (not (attempt.user_id == user)) conflict
  verify_attempt provider attempt now
