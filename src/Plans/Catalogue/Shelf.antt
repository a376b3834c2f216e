-- ===== src/Plans/Catalogue/Shelf.antt =====
-- `softDelete`, `setDefault` and `rollbackTo` of plans.service.ts.
use bondzi_backend.Prelude.{
  ℕ, Bool, true, false, not, ◌&&◌, ◌==◌, if◌then◌else◌, is_some, update_where, conflict,
  bad_request, Result, ok, err,
}
use bondzi_backend.Enums.{level_eq, account_eq}
use bondzi_backend.Plans.{Plan, is_one_time}
use bondzi_backend.Plans.Catalogue.{
  Listed, Catalogue, with_plan_id, listed_by_id, set_default_to, demote_others,
}

abbrev pub inactive_row : Listed → Listed
inactive_row r = record r { plan = record (r.plan) { is_active = false; is_default = false } }

-- `softDelete`
unfoldable pub soft_delete : ℕ → Catalogue → Result Listed × Catalogue
soft_delete id c = elim (listed_by_id id c) [
  | err e ↦ (err e, c)
  | ok r ↦ if not r.plan.is_active then (ok r, c) else (
    ok (inactive_row r),
    record c { rows = update_where (with_plan_id id) (λ _. inactive_row r) c.rows },
  )
]

-- `setDefault`
unfoldable pub set_default : ℕ → Catalogue → Result Listed × Catalogue
set_default id c = elim (listed_by_id id c) [
  | err e ↦ (err e, c)
  | ok r ↦
      let t = record c {
        rows = update_where (with_plan_id id) (set_default_to true) (demote_others r.plan c.rows);
      } in
      if not r.plan.is_active then (err bad_request, c) else (listed_by_id id t, t)
]

-- the active rows of the slot of a plan, without its own
abbrev pub is_active_sibling : Plan → Listed → Bool
is_active_sibling p r =
    r.plan.is_active
    && (not (r.plan.id == p.id)
        && (r.plan.country_code == p.country_code
            && (account_eq r.plan.account p.account && level_eq r.plan.level p.level)))

abbrev pub lacks_codes : Plan → Bool
lacks_codes p =
    not (is_one_time p.payment_kind)
    && not (
        is_some p.provider_plan_monthly
        && (is_some p.provider_plan_six_month && is_some p.provider_plan_annual))

-- `rollbackTo`
unfoldable pub rollback_to : ℕ → Catalogue → Result Listed × Catalogue
rollback_to id c = elim (listed_by_id id c) [
  | err e ↦ (err e, c)
  | ok target ↦
      let t = record c {
        rows =
            update_where (with_plan_id id)
              (λ r. record r {
                plan = record (r.plan) { is_active = true; is_default = target.plan.is_default };
              })
              (update_where (is_active_sibling target.plan) inactive_row c.rows);
      } in
      if target.plan.is_active
      then (err conflict, c)
      else if lacks_codes target.plan
      then (err bad_request, c)
      else (listed_by_id id t, t)
]
