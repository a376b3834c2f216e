-- ===== src/Billing/Consume/Duplicate.antt =====
-- A second charge for a Plus that the payer has.
use bondzi_backend.Prelude.{
  ℕ, ◌≡◌, refl, true, false, ◌||◌, none, some, List, ◌∷◌, inl, inr, Bool-cases, ok,
}
use bondzi_backend.Enums.{one_time}
use bondzi_backend.Plans.{Plan}
use bondzi_backend.Billing.{Subscription, PaymentAttempt, Provider, refund_transaction, Store}
use bondzi_backend.Billing.Attempts.{find_by_id, is_refunded, save}
use bondzi_backend.Billing.Attempts.Lifecycle.{find_by_id-save, mark_refunded_found}
use bondzi_backend.Billing.Consume.{
  ConsumeOptions, existing_for, charge_interval, charge_once, charge, outcome_of, is_refund_settled,
  alarmed, refund_duplicate, redeem, follow_up, activate, consume_paid_attempt,
}

-- the attempt's row after the duplicate charge was dealt with
abbrev flagged_attempts : Provider → PaymentAttempt → Subscription → ℕ → Store → List PaymentAttempt
flagged_attempts provider attempt e now s = (refund_duplicate provider attempt e now s).attempts

alarmed-id :
    (provider : Provider) (attempt : PaymentAttempt) (e : Subscription)
    → (alarmed provider attempt e).id ≡ attempt.id
unfolding alarmed
alarmed-id provider attempt e = refl

flagged :
    (provider : Provider) (attempt x : PaymentAttempt) (e : Subscription) (now : ℕ) (s : Store)
    → find_by_id attempt.id s.attempts ≡ some x
    → (a : PaymentAttempt) × (find_by_id attempt.id (flagged_attempts provider attempt e now s)
        ≡ some a)
      × (a.alarm
          ≡ some (record {
            duplicate_of = e.id;
            auto_refund = outcome_of (provider.refund_answer attempt.provider_reference);
          }))
      × (is_refunded a.status ≡ (
          is_refund_settled (outcome_of (provider.refund_answer attempt.provider_reference))
          || is_refunded attempt.status))
unfolding refund_duplicate alarmed
flagged provider attempt x e now s n =
    let row = alarmed provider attempt e in
    let outcome = outcome_of (provider.refund_answer attempt.provider_reference) in
    let found : find_by_id attempt.id (save row s.attempts) ≡ some row =
      find_by_id-save row x s.attempts n in
    elim (Bool-cases (is_refund_settled outcome)) [
      | inl h ↦
          let (after, b, run, at, refunded, same) =
            mark_refunded_found attempt.id now (save row s.attempts) row found in
          (b, rw (h, run, refund_duplicate) at, same, rw (h) refunded)
      | inr h ↦ (row, rw (h, refund_duplicate) found, refl, rw (h) refl)
    ]

-- A Plus charge that is no renewal, for an attempt of the table, when the payer has a kept Plus row
-- on the level: it changes no subscription and uses up no promo code, asks the provider for the
-- attempt's money back, flags the attempt with the row that it doubles and the outcome, and marks
-- it refunded when the provider has settled the refund.
pub consume_paid_attempt_duplicate :
    (provider : Provider) (attempt x : PaymentAttempt) (plan : Plan) (opts : ConsumeOptions)
    (now : ℕ) (s : Store) (e : Subscription)
    → plan.payment_kind ≡ one_time
    → attempt.billing_interval ≡ none
    → opts.is_renewal ≡ false
    → existing_for attempt.user_id plan s ≡ some e
    → find_by_id attempt.id s.attempts ≡ some x
    → (t : Store) × (a : PaymentAttempt) × (consume_paid_attempt provider attempt plan opts now s
        ≡ (ok (e, true), t))
      × (t.subs ≡ s.subs)
      × (t.promo ≡ s.promo)
      × (t.provider_calls
          ≡ refund_transaction attempt.provider_reference (some attempt.amount_minor)
            ∷ s.provider_calls)
      × (find_by_id attempt.id t.attempts ≡ some a)
      × (a.alarm
          ≡ some (record {
            duplicate_of = e.id;
            auto_refund = outcome_of (provider.refund_answer attempt.provider_reference);
          }))
      × (is_refunded a.status ≡ (
          is_refund_settled (outcome_of (provider.refund_answer attempt.provider_reference))
          || is_refunded attempt.status))
unfolding consume_paid_attempt activate charge charge_once charge_interval follow_up redeem
    refund_duplicate
consume_paid_attempt_duplicate provider attempt x plan opts now s e kind interval fresh found at =
    let (a, n, alarm, status) = flagged provider attempt x e now s at in
    (
      follow_up attempt e.id true (refund_duplicate provider attempt e now s),
      a,
      rw (kind, interval, fresh, found, consume_paid_attempt) refl,
      refl,
      refl,
      refl,
      n,
      alarm,
      status,
    )
