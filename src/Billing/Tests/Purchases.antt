-- ===== src/Billing/Tests/Purchases.antt =====
-- The theorems of purchases, cancellations and refunds at the concrete shop.
use bondzi_backend.Prelude.{arith, ◌≤◌, ◌≡◌, ◌≢◌, refl, none, some, [], ◌∷◌, true, false, ◌||◌, ok}
use bondzi_backend.Enums.{
  AccountType, pro, wassce, SubscriptionStatus, cancelled, BillingInterval, paid,
}
use bondzi_backend.Billing.{
  Subscription, PaymentAttempt, processed, refund_transaction, Store, not_expired,
}
use bondzi_backend.Billing.Attempts.{find_by_id, is_refunded, link_subscription}
use bondzi_backend.Billing.Entitlement.{account_rank, resolve, entitlement_for}
use bondzi_backend.Billing.Consume.{
  ConsumeOptions, outcome_of, is_refund_settled, consume_paid_attempt, charge_interval, activate,
  charge, charge_recurring, renewed, new_expiry, superseded, follow_up, redeem,
}
use bondzi_backend.Billing.Consume.Unique.{IsUnique}
use bondzi_backend.Billing.Consume.Access.{consume_paid_attempt_grants}
use bondzi_backend.Billing.Consume.Duplicate.{consume_paid_attempt_duplicate}
use bondzi_backend.Billing.Cancel.{cancel, cancel_target}
use bondzi_backend.Billing.Cancel.Access.{cancel_keeps_access}
use bondzi_backend.Billing.Refund.{apply_refund}
use bondzi_backend.Billing.Refund.Access.{apply_refund_revokes}
use bondzi_backend.Billing.Verify.{verify}
use bondzi_backend.Billing.History.{
  Reach, IsOpening, start, later, consumes, verifies, cancels, Reach-IsUnique,
}
use bondzi_backend.Billing.Tests.{
  plus_plan, pro_plan, plus_row, pro_row, attempt, pro_attempt, shop, provider, options,
  shop-IsUnique,
}

abbrev PaidOn : AccountType → Store → Type 0
PaidOn a t = account_rank a ≤ account_rank (entitlement_for 1 wassce 100 t).0.account

-- a month of Pro, bought while the last one runs: the row is renewed
abbrev month : ConsumeOptions
month = record options { expires_at_override = some 12000 }

abbrev renewed_row : Subscription
renewed_row = renewed pro_attempt pro_plan month BillingInterval.monthly 12000 pro_row

abbrev after_month : Store
after_month = record shop {
  subs = renewed_row ∷ plus_row ∷ [];
  attempts = record attempt { subscription_id = some 11 } ∷ [];
}

month_paid :
    consume_paid_attempt provider pro_attempt pro_plan month 100 shop
    ≡ (ok (renewed_row, false), after_month)
unfolding consume_paid_attempt charge_interval activate charge charge_recurring renewed new_expiry
    superseded follow_up redeem link_subscription
month_paid = refl

renewed_live : not_expired renewed_row.expires_at 100 ≡ true
unfolding renewed
renewed_live = refl

consume_paid_attempt_grants_example : PaidOn pro after_month
consume_paid_attempt_grants_example =
    consume_paid_attempt_grants provider pro_attempt pro_plan month 100 shop after_month renewed_row
      refl month_paid renewed_live

consume_paid_attempt_duplicate_example :
    (t : Store) × (a : PaymentAttempt) × (consume_paid_attempt provider attempt plus_plan options
        100 shop
      ≡ (ok (plus_row, true), t))
    × (t.subs ≡ shop.subs)
    × (t.promo ≡ shop.promo)
    × (t.provider_calls ≡ refund_transaction 102 (some 2000) ∷ [])
    × (find_by_id 50 t.attempts ≡ some a)
    × (a.alarm ≡ some (record { duplicate_of = 10; auto_refund = outcome_of (some processed) }))
    × (is_refunded a.status ≡ (is_refund_settled (outcome_of (some processed)) || is_refunded paid))
consume_paid_attempt_duplicate_example =
    consume_paid_attempt_duplicate provider attempt attempt plus_plan options 100 shop plus_row refl
      refl refl refl refl

-- a shop that opens, sells a Plus, and is asked to cancel it
abbrev opening : Store
opening = record shop { subs = []; attempts = attempt ∷ [] }

abbrev sold : Store
sold = (consume_paid_attempt provider attempt plus_plan options 100 opening).1

opening-IsOpening : IsOpening opening
opening-IsOpening = record { no_subs = refl; keyed_plans = (((λ e. omega arith), tt), (tt, tt)) }

sold_reached : Reach (cancel 1 none 200 (verify provider 1 102 150 sold).1).1
sold_reached =
    later
      (later
        (later (start opening-IsOpening) (consumes provider attempt plus_plan options 100 refl))
        (verifies provider 1 102 150))
      (cancels 1 200 none)

Reach-IsUnique_example : IsUnique (cancel 1 none 200 (verify provider 1 102 150 sold).1).1
Reach-IsUnique_example = Reach-IsUnique sold_reached

-- the user cancels, and then the Plus is refunded
abbrev cancelled_pro : Subscription
cancelled_pro = record pro_row { status = cancelled }

abbrev after_cancel : Store
after_cancel = (cancel 1 none 100 shop).1

cancel_pro : cancel 1 none 100 shop ≡ (ok cancelled_pro, after_cancel)
unfolding cancel cancel_target
cancel_pro = refl

cancel_keeps_access_example :
    (entitlement_for 1 wassce 8000 after_cancel).0.account
    ≡ (resolve shop.plans shop.subs 1 wassce 8000).account
cancel_keeps_access_example =
    cancel_keeps_access 1 100 8000 9000 none wassce shop after_cancel cancelled_pro
      shop-IsUnique.keyed cancel_pro refl

abbrev refunded_plus : Subscription
refunded_plus = record plus_row { status = SubscriptionStatus.refunded }

abbrev after_refund : Store
after_refund = (apply_refund 100 200 shop).1

refund_plus : apply_refund 100 200 shop ≡ (some refunded_plus, after_refund)
unfolding apply_refund
refund_plus = refl

apply_refund_revokes_example :
    (entitlement_for 1 wassce 300 after_refund).0.subscription_id ≢ some 10
apply_refund_revokes_example =
    apply_refund_revokes 100 200 300 wassce shop after_refund refunded_plus shop-IsUnique.keyed
      refund_plus
