-- ===== src/Plans/Catalogue.antt =====
-- The admin's side of src/modules/subscriptions/plans/plans.service.ts: plans are created, updated,
-- given a new version, rolled back, made the default and deactivated. A code that the provider
-- answers is an argument, where none stands for a call that failed; the provider of a plan is
-- registered. Names, descriptions, the currency and the audit rows are left out.
pub mod Update
pub mod Shelf
pub mod Versions
pub mod Defaults
pub mod Stock
pub mod Promote
pub mod History
use bondzi_backend.Prelude.{
  ℕ, ◌+◌, ◌*◌, Bool, true, false, not, ◌&&◌, ◌||◌, Option, none, some, List, [], ◌∷◌, ltb, ◌==◌,
  if◌then◌else◌, or_default, is_some, find?, keep, update_where, not_found, conflict, bad_request,
  Result, ok, err, ◌>>=◌, ◌>>◌, throw_if,
}
use bondzi_backend.Enums.{
  ExamType, level_eq, AccountType, account_eq, PaymentKind, BillingInterval, six_month, annual,
}
use bondzi_backend.Plans.{Plan, is_one_time}

-- a row with the columns that only the admin's side reads
pub record Listed : Type 0 where
  pub plan : Plan
  pub vat_rate_pct : ℕ
  pub archive_at : Option ℕ
  pub version : ℕ
  pub parent_plan_id : Option ℕ

pub record Catalogue : Type 0 where
  pub rows : List Listed
  pub next_id : ℕ

pub record CreatePlan : Type 0 where
  pub country_code : ℕ
  pub provider : ℕ
  pub account : AccountType
  pub level : ExamType
  pub payment_kind : PaymentKind
  pub vat_rate_pct : Option ℕ
  pub monthly_price : ℕ
  pub six_month_price : Option ℕ
  pub annual_price : Option ℕ
  pub monthly_duration_days : Option ℕ
  pub six_month_duration_days : Option ℕ
  pub annual_duration_days : Option ℕ
  -- `syncProvider !== false`
  pub sync_provider : Bool
  pub is_default : Bool

pub record UpdatePlan : Type 0 where
  pub monthly_price : Option ℕ
  pub six_month_price : Option ℕ
  pub annual_price : Option ℕ
  pub monthly_duration_days : Option ℕ
  pub six_month_duration_days : Option ℕ
  pub annual_duration_days : Option ℕ
  pub vat_rate_pct : Option ℕ
  pub is_active : Option Bool
  pub is_default : Option Bool

-- one truth value to a cadence
pub record Cadences : Type 0 where
  pub monthly : Bool
  pub half_year : Bool
  pub yearly : Bool

abbrev pub is_any : Cadences → Bool
is_any c = c.monthly || (c.half_year || c.yearly)

abbrev pub with_plan_id : ℕ → Listed → Bool
with_plan_id id r = r.plan.id == id

unfoldable pub listed_by_id : ℕ → Catalogue → Result Listed
listed_by_id id c = elim (find? (with_plan_id id) c.rows) [ none ↦ err not_found | some r ↦ ok r ]

-- `country_code = :cc AND account = :account AND level = :level AND is_default = true`
abbrev pub is_default_in : ℕ → AccountType → ExamType → Listed → Bool
is_default_in country account level r =
    r.plan.is_default
    && (r.plan.country_code == country
        && (account_eq r.plan.account account && level_eq r.plan.level level))

abbrev pub set_default_to : Bool → Listed → Listed
set_default_to b r = record r { plan = record (r.plan) { is_default = b } }

unfoldable pub demote : ℕ → AccountType → ExamType → List Listed → List Listed
demote country account level =
    update_where (is_default_in country account level) (set_default_to false)

-- the same, `AND id != :id`
unfoldable pub demote_others : Plan → List Listed → List Listed
demote_others p =
    update_where (λ r. is_default_in p.country_code p.account p.level r && not (r.plan.id == p.id))
      (set_default_to false)

abbrev pub is_zero : Option ℕ → Bool
is_zero price = not (ltb 0 (or_default price 0))

-- the checks of `create`
unfoldable pub check_plan : (ℕ → Bool) → CreatePlan → Result (Unit {0})
check_plan registered dto = do
  throw_if (not (registered dto.provider)) bad_request
  throw_if (is_one_time dto.payment_kind && not (is_zero dto.six_month_price)) bad_request
  throw_if (is_one_time dto.payment_kind && not (is_zero dto.annual_price)) bad_request
  throw_if
      (not (is_one_time dto.payment_kind)
        && (is_zero dto.six_month_price || is_zero dto.annual_price))
      bad_request

-- `syncCadences`, one cadence of it
abbrev pub code_if : Bool → Option ℕ → Option ℕ
code_if wanted code = if wanted then code else none

module _ (code_of : BillingInterval → ℕ → Option ℕ) where
  unfoldable pub new_plan : CreatePlan → ℕ → Plan
  new_plan dto id =
      let once = is_one_time dto.payment_kind in
      let synced = not once && dto.sync_provider in
      record {
        id = id;
        account = dto.account;
        level = dto.level;
        payment_kind = dto.payment_kind;
        country_code = dto.country_code;
        provider = dto.provider;
        monthly_price = dto.monthly_price;
        six_month_price = if once then 0 else or_default dto.six_month_price 0;
        annual_price = if once then 0 else or_default dto.annual_price 0;
        monthly_duration_days = or_default dto.monthly_duration_days 30;
        six_month_duration_days = or_default dto.six_month_duration_days 180;
        annual_duration_days = or_default dto.annual_duration_days 365;
        provider_plan_monthly = code_if synced (code_of BillingInterval.monthly dto.monthly_price);
        provider_plan_six_month =
            code_if synced (code_of six_month (or_default dto.six_month_price 0));
        provider_plan_annual = code_if synced (code_of annual (or_default dto.annual_price 0));
        is_active = true;
        is_default = dto.is_default;
      }

  -- `create`
  unfoldable pub create : (ℕ → Bool) → CreatePlan → Catalogue → Result Listed × Catalogue
  create registered dto c = elim (check_plan registered dto) [
    | err e ↦ (err e, c)
    | ok checked ↦
        let row : Listed = record {
          plan = new_plan dto c.next_id;
          vat_rate_pct = or_default dto.vat_rate_pct 0;
          archive_at = none;
          version = 1;
          parent_plan_id = none;
        } in
        (
          ok row,
          record {
            rows =
                row
                ∷ (if dto.is_default
                    then demote dto.country_code dto.account dto.level c.rows
                    else c.rows);
            next_id = c.next_id + 1;
          },
        )
  ]
