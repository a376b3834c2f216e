-- ===== src/Billing/Tests/Webhooks.antt =====
-- Webhooks and verifications at the concrete shop.
use mathlib.Core.Path.{subst}
use bondzi_backend.Prelude.{
  ◌≤◌, ◌≡◌, refl, sym, some_inj, true, false, none, some, [], ◌∷◌, ok, arith,
}
use bondzi_backend.Enums.{pro, wassce, SubscriptionStatus, pending}
use bondzi_backend.Plans.{get_active_for_checkout}
use bondzi_backend.Billing.{
  Subscription, PaymentAttempt, Provider, processed, refund_transaction, Store,
}
use bondzi_backend.Billing.Monad.{◌>>=◌}
use bondzi_backend.Billing.Attempts.{
  find_by_reference, find_by_id, mark_paid, paid_row, link_subscription,
}
use bondzi_backend.Billing.Entitlement.{account_rank, is_granting, entitlement_for}
use bondzi_backend.Billing.Consume.{
  consume_paid_attempt, charge_interval, activate, charge, charge_once, new_subscription, follow_up,
  redeem, refund_duplicate,
}
use bondzi_backend.Billing.Consume.Twice.{consume_paid_attempt_twice}
use bondzi_backend.Billing.Verify.{settle, verify_pending, verify_attempt, verify}
use bondzi_backend.Billing.Verify.Trust.{IsTrusted, verify_trust}
use bondzi_backend.Billing.Logs.{record_log, mark_processed, record_event}
use bondzi_backend.Billing.Webhook.{Event, charge_success, subscription_disable, resolve_plan}
use bondzi_backend.Billing.Webhook.Charge.{
  on_charge_success, charge_reference, charge_attempt, charge_plan, interval_of, after_activation,
}
use bondzi_backend.Billing.Webhook.Dispatch.{dispatch}
use bondzi_backend.Billing.Webhook.Rows.{change_status, on_status_change}
use bondzi_backend.Billing.Activation.{
  sub_by_code, apply_webhook_activation, activate_locked, activate_attempt, promote,
}
use bondzi_backend.Billing.Webhook.Process.{run_dispatch, run_event, process}
use bondzi_backend.Billing.Webhook.Once.{process_again}
use bondzi_backend.Billing.Webhook.Gate.{Spares, IsForeign, process_foreign}
use bondzi_backend.Billing.Webhook.Revived.{disable_revives}
use bondzi_backend.Billing.Tests.{plus_plan, plus_row, pro_row, attempt, shop, provider, options}

-- the provider cancels the Pro that runs to 9000
abbrev disable_event : Event
disable_event = record {
  id = 900;
  kind = subscription_disable;
  user_id = none;
  reference = none;
  plan_code = none;
  customer_id = none;
  subscription_id = some 7;
  amount_minor = none;
  next_payment_date = none;
  claimed_at = some 90;
}

abbrev billed_row : Subscription
billed_row = record pro_row { provider_subscription_id = some 7 }

abbrev billed : Store
billed = record shop { subs = billed_row ∷ plus_row ∷ [] }

abbrev once : Store
once = (process provider 1 disable_event 100 billed).1

disabled_once :
    process provider 1 disable_event 100 billed
    ≡ (ok (record { duplicate = false; processed = true }), once)
unfolding process record_log run_event run_dispatch dispatch on_status_change change_status
    mark_processed record_event ◌>>=◌
disabled_once = refl

process_again_example :
    process provider 1 disable_event 200 once
    ≡ (ok (record { duplicate = true; processed = false }), once)
process_again_example =
    process_again provider provider 1 disable_event 100 200 billed once
      (record { duplicate = false; processed = true }) (((λ e. omega arith), tt), (tt, tt)) refl
      refl disabled_once

-- the Pro was refunded, and then the provider cancels it
abbrev refunded_row : Subscription
refunded_row = record billed_row { status = SubscriptionStatus.refunded }

abbrev refunded_shop : Store
refunded_shop = record shop { subs = refunded_row ∷ [] }

disable_revives_example :
    (is_granting 1 200 refunded_row ≡ false)
    × (account_rank pro
        ≤ account_rank
            (entitlement_for 1 wassce 200
              (dispatch provider disable_event 3 100 refunded_shop).1).0.account)
disable_revives_example =
    disable_revives provider disable_event 3 100 200 7 9000 wassce pro refunded_row refunded_shop
      refl refl refl refl refl (omega arith) refl

-- the provider confirms the checkout of the Plus
abbrev confirming : Provider
confirming = record {
  refund_answer = λ reference. some processed;
  verify_answer =
      λ reference. some (record { is_success = true; amount_minor = 2000; customer_id = none });
}

abbrev checkout : PaymentAttempt
checkout = record attempt { status = pending; paid_at = none }

abbrev counter : Store
counter = record shop { subs = []; attempts = checkout ∷ [] }

abbrev bought : Subscription
bought =
    new_subscription 60 checkout plus_plan (record options { amount_display = some 2000 }) none none
      none 100

abbrev verified : Store
verified = (verify confirming 1 102 100 counter).1

verified_once : verify confirming 1 102 100 counter ≡ (ok bought, verified)
unfolding verify verify_attempt verify_pending settle mark_paid paid_row consume_paid_attempt
    charge_interval activate charge charge_once new_subscription follow_up redeem link_subscription
    get_active_for_checkout ◌>>=◌
verified_once = refl

verify_trust_example :
    (a : PaymentAttempt) × (find_by_reference 102 counter.attempts ≡ some a)
    × (a.user_id ≡ 1)
    × IsTrusted confirming a
verify_trust_example = verify_trust confirming 1 102 100 counter verified bought verified_once

-- the webhook of the same charge asks the provider for the user's only payment back
abbrev charge_event : Event
charge_event = record disable_event {
  kind = charge_success;
  reference = some 102;
  subscription_id = none;
  amount_minor = some 2000;
}

verified_then_charged :
    (process confirming 1 charge_event 110 verified).1.provider_calls
    ≡ refund_transaction 102 (some 2000) ∷ []
unfolding process record_log run_event run_dispatch dispatch on_charge_success charge_reference
    charge_attempt resolve_plan charge_plan interval_of after_activation apply_webhook_activation
    activate_locked activate_attempt promote verify verify_attempt verify_pending settle mark_paid
    paid_row consume_paid_attempt charge_interval activate charge charge_once new_subscription
    follow_up redeem link_subscription get_active_for_checkout ◌>>=◌ mark_processed refund_duplicate
verified_then_charged = refl

-- the provider goes on charging the subscription that was refunded
abbrev foreign_event : Event
foreign_event = record charge_event { reference = some 999; subscription_id = some 7 }

foreign_event-IsForeign : IsForeign foreign_event refunded_shop
foreign_event-IsForeign = record {
  no_attempt = λ reference n. rw (sym (some_inj n)) refl;
  no_active = λ code sub n found.
      let row : sub_by_code 7 refunded_shop.subs ≡ some sub =
        subst (λ c. sub_by_code c refunded_shop.subs ≡ some sub) (sym (some_inj n)) found in
      rw (sym (some_inj row)) refl;
}

process_foreign_example :
    Spares refunded_shop (process provider 1 foreign_event 110 refunded_shop).1
process_foreign_example =
    process_foreign provider 1 foreign_event 110 refl refunded_shop foreign_event-IsForeign

-- the paid attempt is consumed, and consumed once more
abbrev paid_counter : Store
paid_counter = record shop { subs = [] }

abbrev first_row : Subscription
first_row = new_subscription 60 attempt plus_plan options none none none 100

abbrev consumed : Store
consumed = (consume_paid_attempt provider attempt plus_plan options 100 paid_counter).1

consumed_once :
    consume_paid_attempt provider attempt plus_plan options 100 paid_counter
    ≡ (ok (first_row, false), consumed)
unfolding consume_paid_attempt charge_interval activate charge charge_once new_subscription
    follow_up redeem link_subscription
consumed_once = refl

abbrev linked_attempt : PaymentAttempt
linked_attempt = record attempt { subscription_id = some 60 }

consumed_row : find_by_id 50 consumed.attempts ≡ some linked_attempt
unfolding consume_paid_attempt charge_interval activate charge charge_once new_subscription
    follow_up redeem link_subscription
consumed_row = refl

consume_paid_attempt_twice_example :
    (first_row.provider_reference ≡ some 102)
    × (u : Store) × (consume_paid_attempt provider linked_attempt plus_plan options 200 consumed
        ≡ (ok (first_row, true), u))
    × (u.subs ≡ consumed.subs)
    × (u.provider_calls ≡ refund_transaction 102 (some 2000) ∷ consumed.provider_calls)
consume_paid_attempt_twice_example =
    consume_paid_attempt_twice provider attempt linked_attempt linked_attempt plus_plan options
      options 100 200 paid_counter consumed first_row refl refl consumed_once refl refl refl
      consumed_row refl
