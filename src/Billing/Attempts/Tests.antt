-- ===== src/Billing/Attempts/Tests.antt =====
-- The theorems of the payment attempts at a concrete attempt.
use bondzi_backend.Prelude.{◌≡◌, refl, none, some, [], ◌∷◌, ok}
use bondzi_backend.Billing.{PaymentAttempt, checkout_failed}
use bondzi_backend.Billing.Attempts.{
  pending_attempt, find_by_id, paid_row, mark_paid, refunded_row, failed_row, mark_failed,
  mark_refunded,
}

abbrev opened : PaymentAttempt
opened = pending_attempt 50 100 (record {
  user_id = 1;
  plan_id = 2;
  billing_interval = none;
  amount_minor = 2000;
  provider = 1;
  provider_reference = 700;
  promo_code_id = none;
  discount_amount = none;
})

abbrev settled : PaymentAttempt
settled = paid_row (some 8) (some 9) 120 opened

pay_opened : mark_paid 50 (some 8) (some 9) 120 (opened ∷ []) ≡ ok (settled ∷ [])
unfolding mark_paid pending_attempt paid_row
pay_opened = refl

fail_settled : mark_failed 50 checkout_failed 300 (settled ∷ []) ≡ ok (settled ∷ [])
unfolding mark_failed pending_attempt paid_row failed_row
fail_settled = refl

find_settled : find_by_id 50 (settled ∷ []) ≡ some settled
unfolding pending_attempt paid_row
find_settled = refl

refund_settled : mark_refunded 50 400 (settled ∷ []) ≡ ok (refunded_row 400 settled ∷ [])
unfolding mark_refunded pending_attempt paid_row refunded_row
refund_settled = refl
