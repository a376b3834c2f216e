-- ===== src/Billing/Consume.antt =====
-- `consumePaidAttempt` of src/modules/subscriptions/subscriptions.service.ts: the one place where a
-- paid attempt becomes a subscription.
pub mod Unique
pub mod Access
pub mod Duplicate
pub mod Twice
use bondzi_backend.Prelude.{
  ℕ, ◌+◌, ◌*◌, Bool, true, false, not, ◌&&◌, Option, none, some, List, [], ◌∷◌, ◌==◌, if◌then◌else◌,
  or_default, or_else, is_some, holds_id, find?, update_where, HttpError, conflict, Result, ok, err,
}
use bondzi_backend.Enums.{
  BillingInterval, PaymentKind, one_time, recurring, active, level_eq, account_eq,
}
use bondzi_backend.Plans.{Plan, cadence_for}
use bondzi_backend.Promo
use bondzi_backend.Billing.{
  Subscription, PaymentAttempt, RefundOutcome, settled, awaiting, refused, Provider, RefundStatus,
  processed, on_its_way, rejected, ProviderCall, refund_transaction, cancel_subscription, Store,
  is_cancelled_status, is_kept_status, plan_of, plan_matches, invalidate_cache, with_id,
}
use bondzi_backend.Billing.Monad.{Action, pure, lift, gets, ◌>>=◌, ◌>>◌, throw_if}
use bondzi_backend.Billing.Attempts.{save, mark_refunded, link_subscription}

pub record ConsumeOptions : Type 0 where
  pub provider_customer_id : Option ℕ
  pub provider_subscription_id : Option ℕ
  pub amount_display : Option ℕ
  pub expires_at_override : Option ℕ
  pub is_renewal : Bool

-- a row of the user on the level and the account of the plan, neither refunded nor expired
abbrev pub is_owned : List Plan → ℕ → Plan → Subscription → Bool
is_owned plans user plan s =
    s.user_id == user
    && (is_kept_status s.status
        && plan_matches (λ p. level_eq p.level plan.level && account_eq p.account plan.account)
            (plan_of plans s))

abbrev pub existing_for : ℕ → Plan → Store → Option Subscription
existing_for user plan s = find? (is_owned s.plans user plan) s.subs

-- A one-time payment has no interval, a recurring one has one.
unfoldable pub charge_interval :
    PaymentKind → Option BillingInterval → Result (Option BillingInterval)
charge_interval one_time (some i) = err conflict
charge_interval one_time none = ok none
charge_interval recurring none = err conflict
charge_interval recurring (some i) = ok (some i)

abbrev pub is_cancelled_row : Option Subscription → Bool
is_cancelled_row none = false
is_cancelled_row (some e) = is_cancelled_status e.status

abbrev pub outcome_of : Option RefundStatus → RefundOutcome
outcome_of none = refused
outcome_of (some processed) = settled
outcome_of (some on_its_way) = awaiting
outcome_of (some rejected) = refused

abbrev pub is_refund_settled : RefundOutcome → Bool
is_refund_settled settled = true
is_refund_settled _ = false

-- `.catch(log)`: a failure leaves the rows as they are
abbrev pub or_same {ℓ} : {A : Type ℓ} → Result A → A → A
or_same (ok a) b = a
or_same (err e) b = b

-- the attempt with the flags of a duplicate charge
unfoldable pub alarmed : Provider → PaymentAttempt → Subscription → PaymentAttempt
alarmed provider attempt existing = record attempt {
  alarm = some (record {
    duplicate_of = existing.id;
    auto_refund = outcome_of (provider.refund_answer attempt.provider_reference);
  });
  subscription_id = some existing.id;
}

-- a second charge for a Plus that the user has: refund it and flag the attempt
unfoldable pub refund_duplicate : Provider → PaymentAttempt → Subscription → ℕ → Store → Store
refund_duplicate provider attempt existing now s =
    let outcome = outcome_of (provider.refund_answer attempt.provider_reference) in
    let rows = save (alarmed provider attempt existing) s.attempts in
    record s {
      attempts =
          if is_refund_settled outcome
          then or_same (mark_refunded attempt.id now rows) rows
          else rows;
      provider_calls =
          refund_transaction attempt.provider_reference (some attempt.amount_minor)
          ∷ s.provider_calls;
    }

abbrev insert_subscription : Subscription → Store → Store
insert_subscription row s = record s { subs = row ∷ s.subs; next_id = s.next_id + 1 }

-- the row that a first purchase inserts
unfoldable pub new_subscription :
    ℕ
    → PaymentAttempt
    → Plan
    → ConsumeOptions
    → Option BillingInterval
    → Option ℕ
    → Option ℕ
    → ℕ
    → Subscription
new_subscription id attempt plan opts interval provider_subscription_id expires now = record {
  id = id;
  user_id = attempt.user_id;
  plan_id = some plan.id;
  billing_interval = interval;
  provider = some plan.provider;
  status = active;
  provider_reference = some attempt.provider_reference;
  provider_subscription_id = provider_subscription_id;
  provider_customer_id = opts.provider_customer_id;
  amount = some (or_default opts.amount_display attempt.amount_minor);
  xp_redemption_id = none;
  promo_code_id = attempt.promo_code_id;
  country_code = plan.country_code;
  starts_at = now;
  expires_at = expires;
}

-- the assignments to the row that a renewal or a second purchase finds
unfoldable pub renewed :
    PaymentAttempt → Plan → ConsumeOptions → BillingInterval → ℕ → Subscription → Subscription
renewed attempt plan opts interval expiry existing = record existing {
  status = active;
  plan_id = some plan.id;
  billing_interval = some interval;
  provider = some plan.provider;
  provider_reference = some attempt.provider_reference;
  provider_subscription_id =
      or_else opts.provider_subscription_id existing.provider_subscription_id;
  provider_customer_id = or_else opts.provider_customer_id existing.provider_customer_id;
  amount = some (or_default opts.amount_display attempt.amount_minor);
  expires_at = some expiry;
  promo_code_id = or_else attempt.promo_code_id existing.promo_code_id;
}

-- the provider's code to cancel when the interval changes
unfoldable pub superseded : ConsumeOptions → Subscription → Option ℕ
superseded opts existing = elim opts.provider_subscription_id [
  | none ↦ none
  | some new ↦ elim existing.provider_subscription_id [
    | none ↦ none
    | some old ↦
        if not (old == new)
          && (is_some existing.provider && not (is_cancelled_status existing.status))
        then some old
        else none
  ]
]

abbrev cancel_superseded : Option ℕ → List ProviderCall → List ProviderCall
cancel_superseded none calls = calls
cancel_superseded (some old) calls = cancel_subscription old ∷ calls

unfoldable pub new_expiry : Plan → ConsumeOptions → BillingInterval → ℕ → ℕ
new_expiry plan opts interval now =
    or_default opts.expires_at_override
      (now + (cadence_for plan interval).duration_days * 86400 * 1000)

-- the subscription, whether the charge is a duplicate, and the tables
unfoldable pub charge_once :
    Provider
    → PaymentAttempt
    → Plan
    → ConsumeOptions
    → Option Subscription
    → ℕ
    → Store
    → (Subscription × Bool) × Store
charge_once provider attempt plan opts (some existing) now s =
    ((existing, true), refund_duplicate provider attempt existing now s)
charge_once provider attempt plan opts none now s =
    let row = new_subscription s.next_id attempt plan opts none none none now in
    ((row, false), insert_subscription row s)

unfoldable pub charge_recurring :
    PaymentAttempt
    → Plan
    → ConsumeOptions
    → BillingInterval
    → Option Subscription
    → ℕ
    → Store
    → (Subscription × Bool) × Store
charge_recurring attempt plan opts interval (some existing) now s =
    let row = renewed attempt plan opts interval (new_expiry plan opts interval now) existing in
    (
      (row, false),
      record s {
        subs = update_where (with_id existing.id) (λ _. row) s.subs;
        provider_calls = cancel_superseded (superseded opts existing) s.provider_calls;
      },
    )
charge_recurring attempt plan opts interval none now s =
    let row =
      new_subscription s.next_id attempt plan opts (some interval) opts.provider_subscription_id
        (some (new_expiry plan opts interval now)) now in
    ((row, false), insert_subscription row s)

unfoldable pub charge :
    Provider
    → PaymentAttempt
    → Plan
    → ConsumeOptions
    → Option BillingInterval
    → ℕ
    → Store
    → (Subscription × Bool) × Store
charge provider attempt plan opts none now s =
    charge_once provider attempt plan opts (existing_for attempt.user_id plan s) now s
charge provider attempt plan opts (some interval) now s =
    charge_recurring attempt plan opts interval (existing_for attempt.user_id plan s) now s

-- the redemption, best effort
unfoldable pub redeem : PaymentAttempt → ℕ → Bool → Promo.Store → Promo.Store
redeem attempt subscription true promo = promo
redeem attempt subscription false promo = elim attempt.promo_code_id [
  | none ↦ promo
  | some code ↦
      or_same
        (Promo.record_redemption
          (record {
            promo_code_id = code;
            user_id = attempt.user_id;
            subscription_id = some subscription;
            discount_amount = or_default attempt.discount_amount 0;
          })
          promo)
        promo
]

-- A duplicate charge has linked the attempt already.
abbrev link_attempt : PaymentAttempt → ℕ → Bool → List PaymentAttempt → List PaymentAttempt
link_attempt attempt subscription true rows = rows
link_attempt attempt subscription false rows =
    if holds_id attempt.subscription_id subscription
    then rows
    else link_subscription attempt.id subscription rows

-- what follows the change of the subscription
unfoldable pub follow_up : PaymentAttempt → ℕ → Bool → Store → Store
follow_up attempt subscription duplicate s = invalidate_cache attempt.user_id (record s {
  attempts = link_attempt attempt subscription duplicate s.attempts;
  promo = redeem attempt subscription duplicate s.promo;
})

-- the part of `consumePaidAttempt` behind its guards
unfoldable pub activate :
    Provider
    → PaymentAttempt
    → Plan
    → ConsumeOptions
    → Option BillingInterval
    → ℕ
    → Action (Subscription × Bool)
activate provider attempt plan opts interval now s =
    let (r, s') = charge provider attempt plan opts interval now s in
    (ok r, follow_up attempt r.0.id r.1 s')

-- `consumePaidAttempt`
unfoldable pub consume_paid_attempt :
    Provider → PaymentAttempt → Plan → ConsumeOptions → ℕ → Action (Subscription × Bool)
unfolding ◌>>=◌
consume_paid_attempt provider attempt plan opts now = do
  interval ← lift (charge_interval plan.payment_kind attempt.billing_interval)
  existing ← gets (existing_for attempt.user_id plan)
  throw_if (opts.is_renewal && is_cancelled_row existing) conflict
  activate provider attempt plan opts interval now
