-- ===== src/Plans/Tests.antt =====
-- A catalogue with one plan, whose price is raised.
use bondzi_backend.Prelude.{
  ℕ, ◌≡◌, refl, Bool, true, Option, none, some, [], ◌∷◌, map, conflict, ok, err,
}
use bondzi_backend.Enums.{wassce, pro, recurring, BillingInterval}
use bondzi_backend.Plans.{Plan, get_active_for_checkout}
use bondzi_backend.Plans.Catalogue.{
  Listed, Catalogue, CreatePlan, create, UpdatePlan, is_any, listed_by_id,
}
use bondzi_backend.Plans.Catalogue.Update.{detect_structural_changes, update}
use bondzi_backend.Plans.Catalogue.History.{
  Reach, start, later, creates, IsOrderly, Reach-IsOrderly,
}
use bondzi_backend.Plans.Catalogue.Shelf.{rollback_to}
use bondzi_backend.Plans.Catalogue.Versions.{update-rollback_to}

abbrev listed : Listed
listed = record {
  plan = record {
    id = 4;
    account = pro;
    level = wassce;
    payment_kind = recurring;
    country_code = 233;
    provider = 1;
    monthly_price = 2900;
    six_month_price = 15000;
    annual_price = 29000;
    monthly_duration_days = 30;
    six_month_duration_days = 180;
    annual_duration_days = 365;
    provider_plan_monthly = some 71;
    provider_plan_six_month = some 72;
    provider_plan_annual = some 73;
    is_active = true;
    is_default = true;
  };
  vat_rate_pct = 0;
  archive_at = none;
  version = 1;
  parent_plan_id = none;
}

abbrev catalogue : Catalogue
catalogue = record { rows = listed ∷ []; next_id = 5 }

abbrev raise : UpdatePlan
raise = record {
  monthly_price = some 3500;
  six_month_price = none;
  annual_price = none;
  monthly_duration_days = none;
  six_month_duration_days = none;
  annual_duration_days = none;
  vat_rate_pct = none;
  is_active = none;
  is_default = none;
}

-- the provider answers a new code
abbrev code_of : BillingInterval → ℕ → Option ℕ
code_of interval amount = some 81

listed_found : listed_by_id 4 catalogue ≡ ok listed
unfolding listed_by_id
listed_found = refl

raise_structural : is_any (detect_structural_changes listed.plan raise) ≡ true
unfolding detect_structural_changes
raise_structural = refl

update-rollback_to_example :
    (new : Listed) × (t : Catalogue) × (old : Plan) × (update code_of 4 raise 48 1000 catalogue
      ≡ (ok new, t))
    × (get_active_for_checkout 4 (map (λ r. r.plan) t.rows) ≡ ok old)
    × (old.monthly_price ≡ 2900)
    × (old.six_month_price ≡ 15000)
    × (old.annual_price ≡ 29000)
    × (rollback_to 4 t ≡ (err conflict, t))
update-rollback_to_example =
    update-rollback_to code_of 4 48 1000 raise catalogue listed listed_found refl raise_structural
      refl

-- a Pro is created as the default of its slot, and then another one
abbrev request : CreatePlan
request = record {
  country_code = 233;
  provider = 1;
  account = pro;
  level = wassce;
  payment_kind = recurring;
  vat_rate_pct = none;
  monthly_price = 2900;
  six_month_price = some 15000;
  annual_price = some 29000;
  monthly_duration_days = none;
  six_month_duration_days = none;
  annual_duration_days = none;
  sync_provider = true;
  is_default = true;
}

abbrev registered : ℕ → Bool
registered provider = true

abbrev first : Catalogue
first = (create code_of registered request (record { rows = []; next_id = 0 })).1

abbrev second : Catalogue
second = (create code_of registered request first).1

second-Reach : Reach second
second-Reach =
    later (later start (creates code_of registered request)) (creates code_of registered request)

Reach-IsOrderly_example : IsOrderly second
Reach-IsOrderly_example = Reach-IsOrderly second-Reach
