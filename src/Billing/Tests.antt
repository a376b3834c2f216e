-- ===== src/Billing/Tests.antt =====
-- A concrete shop: user 1 holds Plus for life and a Pro that runs to 9000 on WASSCE.
mod Purchases
mod Access
mod Webhooks
mod Redemptions
use mathlib.Core.List.{Memᴰ}
use mathlib.Core.List.Memᴰ.{head, tail}
use bondzi_backend.Prelude.{
  ℕ, ◌≤◌, ◌<◌, ◌≡◌, ◌≢◌, ◌⊎◌, refl, none, some, [], ◌∷◌, true, false, not, ◌||◌, ok, err, forbidden,
  count_if, arith,
}
use bondzi_backend.Enums.{
  AccountType, free, plus, pro, wassce, one_time, recurring, SubscriptionStatus, active, cancelled,
  BillingInterval, paid,
}
use bondzi_backend.Plans.{Plan, is_one_time}
use bondzi_backend.Billing.{
  Subscription, PaymentAttempt, Provider, processed, refund_transaction, Store, not_expired,
  is_cancelled_status, plan_of, plan_matches,
}
use bondzi_backend.Billing.Attempts.{find_by_id, is_refunded, link_subscription}
use bondzi_backend.Billing.Entitlement.{
  account_rank, account_on, is_granting, is_granting_now, expires_after, candidates, best, grant_of,
  resolve, entitlement_for,
}
use bondzi_backend.Billing.Entitlement.Fresh.{resolve_top}
use bondzi_backend.Billing.Entitlement.Stale.{SameRow}
use bondzi_backend.Billing.Guard.{check_level, ask_tables}
use bondzi_backend.Billing.Guard.Agreement.{check_level_depends}
use bondzi_backend.Billing.Consume.{
  ConsumeOptions, is_owned, outcome_of, is_refund_settled, consume_paid_attempt, charge_interval,
  activate, charge, charge_recurring, renewed, new_expiry, superseded, follow_up, redeem,
}
use bondzi_backend.Billing.Consume.Unique.{IsUnique}
use bondzi_backend.Billing.Consume.Access.{consume_paid_attempt_grants}
use bondzi_backend.Billing.Consume.Duplicate.{consume_paid_attempt_duplicate}
use bondzi_backend.Billing.Cancel.{cancel, cancel_target}
use bondzi_backend.Billing.Cancel.Access.{cancel_keeps_access}
use bondzi_backend.Billing.Refund.{apply_refund}
use bondzi_backend.Billing.Refund.Access.{apply_refund_revokes}

abbrev pub plus_plan : Plan
plus_plan = record {
  id = 1;
  account = plus;
  level = wassce;
  payment_kind = one_time;
  country_code = 233;
  provider = 1;
  monthly_price = 0;
  six_month_price = 0;
  annual_price = 2000;
  monthly_duration_days = 0;
  six_month_duration_days = 0;
  annual_duration_days = 0;
  provider_plan_monthly = none;
  provider_plan_six_month = none;
  provider_plan_annual = none;
  is_active = true;
  is_default = false;
}

abbrev pub pro_plan : Plan
pro_plan = record plus_plan {
  id = 2;
  account = pro;
  payment_kind = recurring;
  monthly_price = 500;
  monthly_duration_days = 30;
}

abbrev pub plus_row : Subscription
plus_row = record {
  id = 10;
  user_id = 1;
  plan_id = some 1;
  billing_interval = none;
  provider = some 1;
  status = active;
  provider_reference = some 100;
  provider_subscription_id = none;
  provider_customer_id = none;
  amount = some 2000;
  xp_redemption_id = none;
  promo_code_id = none;
  country_code = 233;
  starts_at = 0;
  expires_at = none;
}

abbrev pub pro_row : Subscription
pro_row = record plus_row {
  id = 11;
  plan_id = some 2;
  billing_interval = some BillingInterval.monthly;
  provider_reference = some 101;
  expires_at = some 9000;
}

abbrev pub attempt : PaymentAttempt
attempt = record {
  id = 50;
  user_id = 1;
  subscription_id = none;
  plan_id = some 1;
  billing_interval = none;
  amount_minor = 2000;
  provider = 1;
  provider_reference = 102;
  provider_event_id = none;
  provider_customer_id = none;
  promo_code_id = none;
  discount_amount = none;
  status = paid;
  initiated_at = 0;
  paid_at = some 5;
  failed_at = none;
  failure_reason = none;
  refunded_at = none;
  abandoned_at = none;
  alarm = none;
}

abbrev pub pro_attempt : PaymentAttempt
pro_attempt = record attempt { billing_interval = some BillingInterval.monthly; plan_id = some 2 }

abbrev pub shop : Store
shop = record {
  users = record { id = 1; exam_type = some wassce } ∷ [];
  plans = plus_plan ∷ pro_plan ∷ [];
  subs = pro_row ∷ plus_row ∷ [];
  attempts = attempt ∷ [];
  promo = record { codes = []; redemptions = []; next_id = 0 };
  cache = [];
  provider_calls = [];
  financial_events = [];
  billing_log = [];
  payment_events = [];
  next_id = 60;
}

-- a provider that settles every refund at once and knows no transaction
abbrev pub provider : Provider
provider = record { refund_answer = λ reference. some processed; verify_answer = λ reference. none }

abbrev pub options : ConsumeOptions
options = record {
  provider_customer_id = none;
  provider_subscription_id = none;
  amount_display = none;
  expires_at_override = none;
  is_renewal = false;
}

single_or_none : (user : ℕ) (plan : Plan) → count_if (is_owned shop.plans user plan) shop.subs ≤ 1
single_or_none user plan = ground arith

pub shop-IsUnique : IsUnique shop
shop-IsUnique = record {
  keyed = (((λ e. omega arith), tt), (tt, tt));
  below = (omega arith, (omega arith, tt));
  single = single_or_none;
}
