-- ===== src/Billing/Consume/Twice.antt =====
-- A one-time payment that is confirmed twice: by `verify`, and by the provider's webhook.
use mathlib.Core.Path.{subst}
use bondzi_backend.Prelude.{
  ℕ, ◌≡◌, refl, sym, ap, ◌∙◌, ==_refl, Bool, true, false, Option, none, some, ◌∷◌, inl, inr, find?,
  Option-cases, Result, ok, err,
}
use bondzi_backend.Enums.{BillingInterval, one_time, level_eq_refl, account_eq_refl}
use bondzi_backend.Plans.{Plan, plan_by_id}
use bondzi_backend.Billing.{Subscription, PaymentAttempt, Provider, refund_transaction, Store}
use bondzi_backend.Billing.Attempts.{find_by_id}
use bondzi_backend.Billing.Consume.{
  ConsumeOptions, is_owned, new_subscription, existing_for, charge_interval, charge_once, charge,
  follow_up, activate, consume_paid_attempt,
}
use bondzi_backend.Billing.Consume.Unique.{consume_paid_attempt-cases}
use bondzi_backend.Billing.Consume.Duplicate.{consume_paid_attempt_duplicate}

abbrev row_of : Result (Subscription × Bool) → Subscription → Subscription
row_of (ok r) d = r.0
row_of (err e) d = d

one_time_bare :
    (o : Option BillingInterval) (i : BillingInterval)
    → charge_interval one_time o ≡ ok (some i)
    → ⊥
unfolding charge_interval
one_time_bare none i h = cc
one_time_bare (some j) i h = cc

activated_once :
    (provider : Provider) (attempt : PaymentAttempt) (plan : Plan) (opts : ConsumeOptions)
    (i : Option BillingInterval) (now : ℕ) (s t : Store) (sub : Subscription)
    → plan.payment_kind ≡ one_time
    → plan_by_id plan.id s.plans ≡ some plan
    → charge_interval plan.payment_kind attempt.billing_interval ≡ ok i
    → activate provider attempt plan opts i now s ≡ (ok (sub, false), t)
    → (existing_for attempt.user_id plan t ≡ some sub)
      × (sub.provider_reference ≡ some attempt.provider_reference)
unfolding activate charge charge_once charge_interval follow_up new_subscription
activated_once provider attempt plan opts (some i) now s t sub kind listed ci h =
    let no = rw (kind) at ci in absurd (one_time_bare attempt.billing_interval i no)
activated_once provider attempt plan opts none now s t sub kind listed ci h =
    elim (Option-cases (existing_for attempt.user_id plan s)) [
      | inr (e, n) ↦ let no = rw (n, activate, charge) at h in absurd (cc)
      | inl n ↦
          let run = rw (n, activate, charge) at h in
          let row = new_subscription s.next_id attempt plan opts none none none now in
          let same : row ≡ sub =
            ap (λ (r : Result (Subscription × Bool) × Store). row_of r.0 row) run in
          let rows : row ∷ s.subs ≡ t.subs =
            ap (λ (r : Result (Subscription × Bool) × Store). r.1.subs) run in
          let plans : s.plans ≡ t.plans =
            ap (λ (r : Result (Subscription × Bool) × Store). r.1.plans) run in
          let head : find? (is_owned s.plans attempt.user_id plan) (row ∷ s.subs) ≡ some row =
            rw
              (
                listed,
                ==_refl attempt.user_id,
                level_eq_refl plan.level,
                account_eq_refl plan.account,
              )
              refl in
          (
            subst (λ l. find? (is_owned l attempt.user_id plan) t.subs ≡ some sub) plans
                (subst (λ l. find? (is_owned s.plans attempt.user_id plan) l ≡ some sub) rows
                  (head ∙ ap some same)),
            rw (← same) refl,
          )
    ]

-- a first purchase is the row that a second one finds
first_purchase :
    (provider : Provider) (attempt : PaymentAttempt) (plan : Plan) (opts : ConsumeOptions) (now : ℕ)
    (s t : Store) (sub : Subscription)
    → plan.payment_kind ≡ one_time
    → plan_by_id plan.id s.plans ≡ some plan
    → consume_paid_attempt provider attempt plan opts now s ≡ (ok (sub, false), t)
    → (existing_for attempt.user_id plan t ≡ some sub)
      × (sub.provider_reference ≡ some attempt.provider_reference)
first_purchase provider attempt plan opts now s t sub kind listed h =
    elim (consume_paid_attempt-cases provider attempt plan opts now s) [
      | inl e ↦ let no = sym e ∙ h in absurd (cc)
      | inr (i, ci, e) ↦
          activated_once provider attempt plan opts i now s t sub kind listed ci (sym e ∙ h)
    ]

-- The payment that bought a Plus, confirmed a second time: whatever way the second confirmation
-- comes, unless as a renewal, the row that the payment itself made counts as a Plus that the payer
-- has already, so the call reports a duplicate and asks the provider to pay the money back.
pub consume_paid_attempt_twice :
    (provider : Provider) (attempt again x : PaymentAttempt) (plan : Plan)
    (opts more : ConsumeOptions) (now later : ℕ) (s t : Store) (sub : Subscription)
    → plan.payment_kind ≡ one_time
    → plan_by_id plan.id s.plans ≡ some plan
    → consume_paid_attempt provider attempt plan opts now s ≡ (ok (sub, false), t)
    → again.user_id ≡ attempt.user_id
    → again.provider_reference ≡ attempt.provider_reference
    → again.billing_interval ≡ none
    → find_by_id again.id t.attempts ≡ some x
    → more.is_renewal ≡ false
    → (sub.provider_reference ≡ some again.provider_reference)
      × (u : Store) × (consume_paid_attempt provider again plan more later t ≡ (ok (sub, true), u))
      × (u.subs ≡ t.subs)
      × (u.provider_calls
          ≡ refund_transaction again.provider_reference (some again.amount_minor)
            ∷ t.provider_calls)
consume_paid_attempt_twice provider attempt again x plan opts more now later s t sub kind listed
      first user ref bare at fresh =
    let (owned, reference) =
      first_purchase provider attempt plan opts now s t sub kind listed first in
    let mine : existing_for again.user_id plan t ≡ some sub = rw (user) owned in
    let (u, a, run, subs, promo, calls, found, alarm, status) =
      consume_paid_attempt_duplicate provider again x plan more later t sub kind bare fresh mine
        at in
    (rw (ref) reference, u, run, subs, calls)
