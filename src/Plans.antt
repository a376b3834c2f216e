-- ===== src/Plans.antt =====
-- A row of `subscription_plan` (src/modules/subscriptions/plans): prices in minor units, texts that
-- are only compared as numbers.
pub mod Catalogue
mod Tests
use bondzi_backend.Prelude.{
  ℕ, Bool, true, false, Option, none, some, List, ◌==◌, if◌then◌else◌, find?, holds_id, Result, ok,
  err, bad_request, not_found, ◌>>=◌, ◌>>◌, throw_if, not,
}
use bondzi_backend.Enums.{
  ExamType, AccountType, PaymentKind, BillingInterval, six_month, annual, one_time, recurring,
}

pub record Plan : Type 0 where
  pub id : ℕ
  pub account : AccountType
  pub level : ExamType
  pub payment_kind : PaymentKind
  pub country_code : ℕ
  pub provider : ℕ
  pub monthly_price : ℕ
  pub six_month_price : ℕ
  pub annual_price : ℕ
  pub monthly_duration_days : ℕ
  pub six_month_duration_days : ℕ
  pub annual_duration_days : ℕ
  pub provider_plan_monthly : Option ℕ
  pub provider_plan_six_month : Option ℕ
  pub provider_plan_annual : Option ℕ
  pub is_active : Bool
  pub is_default : Bool

abbrev pub is_one_time : PaymentKind → Bool
is_one_time one_time = true
is_one_time recurring = false

pub record Cadence : Type 0 where
  pub amount_minor : ℕ
  pub duration_days : ℕ
  pub provider_plan_code : Option ℕ

-- `cadenceFor`
unfoldable pub cadence_for : Plan → BillingInterval → Cadence
cadence_for plan BillingInterval.monthly = record {
  amount_minor = plan.monthly_price;
  duration_days = plan.monthly_duration_days;
  provider_plan_code = plan.provider_plan_monthly;
}
cadence_for plan six_month = record {
  amount_minor = plan.six_month_price;
  duration_days = plan.six_month_duration_days;
  provider_plan_code = plan.provider_plan_six_month;
}
cadence_for plan annual = record {
  amount_minor = plan.annual_price;
  duration_days = plan.annual_duration_days;
  provider_plan_code = plan.provider_plan_annual;
}

-- `intervalForProviderPlanCode`
unfoldable pub interval_for_provider_plan_code : Plan → ℕ → Option BillingInterval
interval_for_provider_plan_code plan code =
    if holds_id plan.provider_plan_monthly code
    then some BillingInterval.monthly
    else if holds_id plan.provider_plan_six_month code
    then some six_month
    else if holds_id plan.provider_plan_annual code
    then some annual
    else none

abbrev pub plan_by_id : ℕ → List Plan → Option Plan
plan_by_id id plans = find? (λ p. p.id == id) plans

-- `getById`
abbrev pub get_by_id : ℕ → List Plan → Result Plan
get_by_id id plans = elim (plan_by_id id plans) [ none ↦ err not_found | some p ↦ ok p ]

-- `getActiveForCheckout`
unfoldable pub get_active_for_checkout : ℕ → List Plan → Result Plan
get_active_for_checkout id plans = do
  plan ← get_by_id id plans
  throw_if (not plan.is_active) bad_request
  ok plan
