-- ===== src/Plans/Catalogue/Update.antt =====
-- `update` of plans.service.ts: in place, or by a new version.
use bondzi_backend.Prelude.{
  ℕ, ◌+◌, ◌*◌, Bool, true, false, not, ◌&&◌, ◌||◌, Option, none, some, ◌∷◌, ◌==◌, if◌then◌else◌,
  or_default, update_where, bad_request, Result, ok, err,
}
use bondzi_backend.Enums.{BillingInterval, six_month, annual}
use bondzi_backend.Plans.{Plan, is_one_time}
use bondzi_backend.Plans.Catalogue.{
  Listed, Catalogue, UpdatePlan, Cadences, is_any, with_plan_id, listed_by_id, set_default_to,
  demote, demote_others,
}

-- the flag of a request, if it has one
abbrev pub given_flag : Option Bool → Bool → Bool
given_flag none old = old
given_flag (some b) old = b

-- a column is given and differs
abbrev pub differs : Option ℕ → ℕ → Bool
differs none current = false
differs (some n) current = not (current == n)

-- `detectStructuralChanges`
unfoldable pub detect_structural_changes : Plan → UpdatePlan → Cadences
detect_structural_changes p dto =
    let recurring = not (is_one_time p.payment_kind) in
    record {
      monthly =
          recurring
          && (differs dto.monthly_price p.monthly_price
              || differs dto.monthly_duration_days p.monthly_duration_days);
      half_year =
          recurring
          && (differs dto.six_month_price p.six_month_price
              || differs dto.six_month_duration_days p.six_month_duration_days);
      yearly =
          recurring
          && (differs dto.annual_price p.annual_price
              || differs dto.annual_duration_days p.annual_duration_days);
    }

abbrev pub cosmetic_row : UpdatePlan → Listed → Listed
cosmetic_row dto r = record r {
  vat_rate_pct = or_default dto.vat_rate_pct r.vat_rate_pct;
  plan = record (r.plan) {
    is_active = given_flag dto.is_active r.plan.is_active;
    is_default = given_flag dto.is_default r.plan.is_default;
    monthly_price =
        if is_one_time r.plan.payment_kind
        then or_default dto.monthly_price r.plan.monthly_price
        else r.plan.monthly_price;
  };
}

-- `applyCosmetic`
unfoldable pub apply_cosmetic : Listed → UpdatePlan → Catalogue → Result Listed × Catalogue
apply_cosmetic current dto c =
    let rows =
      if given_flag dto.is_default false then demote_others current.plan c.rows else c.rows in
    let t = record c {
      rows = update_where (with_plan_id current.plan.id) (cosmetic_row dto) rows;
    } in
    (listed_by_id current.plan.id t, t)

module _ (code_of : BillingInterval → ℕ → Option ℕ) where
  unfoldable pub next_plan : Plan → UpdatePlan → Cadences → ℕ → Plan
  next_plan p dto changed id =
      let monthly_price = or_default dto.monthly_price p.monthly_price in
      let six_month_price = or_default dto.six_month_price p.six_month_price in
      let annual_price = or_default dto.annual_price p.annual_price in
      record p {
        id = id;
        monthly_price = monthly_price;
        six_month_price = six_month_price;
        annual_price = annual_price;
        monthly_duration_days = or_default dto.monthly_duration_days p.monthly_duration_days;
        six_month_duration_days = or_default dto.six_month_duration_days p.six_month_duration_days;
        annual_duration_days = or_default dto.annual_duration_days p.annual_duration_days;
        provider_plan_monthly =
            if changed.monthly
            then code_of BillingInterval.monthly monthly_price
            else p.provider_plan_monthly;
        provider_plan_six_month =
            if changed.half_year
            then code_of six_month six_month_price
            else p.provider_plan_six_month;
        provider_plan_annual =
            if changed.yearly then code_of annual annual_price else p.provider_plan_annual;
        is_active = given_flag dto.is_active true;
        is_default = given_flag dto.is_default p.is_default;
      }

  -- `versionBump`; the old row stays active
  unfoldable pub version_bump :
      Listed → UpdatePlan → Cadences → ℕ → ℕ → Catalogue → Result Listed × Catalogue
  version_bump current dto changed grace_hours now c =
      let p = current.plan in
      let archived =
        update_where (with_plan_id p.id)
          (λ r. record (set_default_to false r) {
            archive_at = some (now + grace_hours * 60 * 60 * 1000);
          })
          c.rows in
      let row : Listed = record {
        plan = next_plan p dto changed c.next_id;
        vat_rate_pct = or_default dto.vat_rate_pct current.vat_rate_pct;
        archive_at = none;
        version = current.version + 1;
        parent_plan_id = some p.id;
      } in
      (
        ok row,
        record {
          rows =
              row
              ∷ (if given_flag dto.is_default p.is_default
                  then demote p.country_code p.account p.level archived
                  else archived);
          next_id = c.next_id + 1;
        },
      )

  -- `update`
  unfoldable pub update : ℕ → UpdatePlan → ℕ → ℕ → Catalogue → Result Listed × Catalogue
  update id dto grace_hours now c = elim (listed_by_id id c) [
    | err e ↦ (err e, c)
    | ok current ↦
        let changed = detect_structural_changes current.plan dto in
        if not current.plan.is_active
        then (err bad_request, c)
        else if is_any changed
        then version_bump current dto changed grace_hours now c
        else apply_cosmetic current dto c
  ]
