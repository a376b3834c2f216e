-- ===== src/Plans/Catalogue/Versions.antt =====
-- What becomes of a plan whose price was changed.
use bondzi_backend.Prelude.{
  ℕ, ◌+◌, ◌*◌, ◌≡◌, refl, ap, ◌∙◌, map, ok_inj, Bool, true, false, Option, some, List, [], ◌∷◌, inl,
  inr, ◌==◌, find?, update_where, not_found, conflict, Result, ok, err, Bool-cases, Option-cases,
  ◌>>=◌, arith,
}
use bondzi_backend.Enums.{BillingInterval}
use bondzi_backend.Plans.{Plan, plan_by_id, get_active_for_checkout}
use bondzi_backend.Plans.Catalogue.{
  Listed, Catalogue, UpdatePlan, is_any, with_plan_id, listed_by_id, set_default_to, demote,
  is_default_in,
}
use bondzi_backend.Plans.Catalogue.Update.{
  detect_structural_changes, given_flag, version_bump, next_plan, update,
}
use bondzi_backend.Plans.Catalogue.Shelf.{rollback_to}

find-update {ℓ} :
    {B : Type ℓ} (g : Listed → B) (q : Listed → Bool) (f : Listed → Listed) (id : ℕ)
    (rows : List Listed) (x : Listed)
    → ((r : Listed) → (f r).plan.id ≡ r.plan.id)
    → ((r : Listed) → g (f r) ≡ g r)
    → find? (with_plan_id id) rows ≡ some x
    → (y : Listed) × (find? (with_plan_id id) (update_where q f rows) ≡ some y) × (g y ≡ g x)
find-update g q f id [] x keeps same h = absurd (cc)
find-update g q f id (r ∷ rows) x keeps same h = elim (Bool-cases (r.plan.id == id)) [
  | inl hit ↦
      let top : r ≡ x = ground arith in
      elim (Bool-cases (q r)) [
        | inl y ↦ (f r, rw (y, keeps r, hit) refl, same r ∙ ap g top)
        | inr n ↦ (r, rw (n, hit) refl, ap g top)
      ]
  | inr miss ↦
      let (y, found, kept) = find-update g q f id rows x keeps same (rw (miss) at h) in
      elim (Bool-cases (q r)) [
        | inl yes_q ↦ (y, rw (yes_q, keeps r, miss) found, kept)
        | inr no_q ↦ (y, rw (no_q, miss) found, kept)
      ]
]

-- what a customer is charged for, and whether the plan is sold
abbrev pub offer : Listed → Bool × ℕ × ℕ × ℕ
offer r = (r.plan.is_active, r.plan.monthly_price, r.plan.six_month_price, r.plan.annual_price)

find-plans :
    (id : ℕ) (rows : List Listed) (x : Listed)
    → find? (with_plan_id id) rows ≡ some x
    → plan_by_id id (map (λ r. r.plan) rows) ≡ some x.plan
find-plans id [] x h = absurd (cc)
find-plans id (r ∷ rows) x h = elim (Bool-cases (r.plan.id == id)) [
  | inl hit ↦ let top : r ≡ x = ground arith in rw (hit) (ap (λ y. some y.plan) top)
  | inr miss ↦ rw (miss) (find-plans id rows x (rw (miss) at h))
]

sold-checkout :
    (id : ℕ) (plans : List Plan) (p : Plan)
    → plan_by_id id plans ≡ some p
    → p.is_active ≡ true
    → get_active_for_checkout id plans ≡ ok p
unfolding get_active_for_checkout
sold-checkout id plans p n sold = rw (n, get_active_for_checkout, ◌>>=◌) (rw (sold) refl)

active-conflict :
    (id : ℕ) (c : Catalogue) (r : Listed)
    → find? (with_plan_id id) c.rows ≡ some r
    → r.plan.is_active ≡ true
    → rollback_to id c ≡ (err conflict, c)
unfolding rollback_to listed_by_id
active-conflict id c r n sold = rw (n, rollback_to, listed_by_id) (rw (sold) refl)

module _ (code_of : BillingInterval → ℕ → Option ℕ) (id grace_hours now : ℕ) (dto : UpdatePlan)
    (c : Catalogue) (row : Listed) (found : listed_by_id id c ≡ ok row)
    (active : row.plan.is_active ≡ true)
    (structural : is_any (detect_structural_changes row.plan dto) ≡ true)
    (fresh : (c.next_id == id) ≡ false) where
  found-row : find? (with_plan_id id) c.rows ≡ some row
  unfolding listed_by_id
  found-row = elim (Option-cases (find? (with_plan_id id) c.rows)) [
    | inl n ↦ let thrown : err not_found ≡ ok row = rw (n, listed_by_id) at found in cc
    | inr (x, n) ↦
        let top : x ≡ row = ok_inj (rw (n, listed_by_id) at found) in n ∙ ap (λ y. some y) top
  ]

  abbrev bump : Result Listed × Catalogue
  bump = version_bump code_of row dto (detect_structural_changes row.plan dto) grace_hours now c

  abbrev bumped : Catalogue
  bumped = bump.1

  bumps : update code_of id dto grace_hours now c ≡ bump
  unfolding update
  bumps = rw (found, structural, update) (rw (active) refl)

  old_version :
      (new old : Listed) × (bump ≡ (ok new, bumped))
      × (find? (with_plan_id id) bumped.rows ≡ some old)
      × (offer old ≡ offer row)
  unfolding version_bump demote next_plan
  old_version =
      let (y, n, k) =
        find-update offer (with_plan_id row.plan.id)
          (λ r. record (set_default_to false r) {
            archive_at = some (now + grace_hours * 60 * 60 * 1000);
          })
          id c.rows row (λ r. refl) (λ r. refl) found-row in
      elim (Bool-cases (given_flag dto.is_default row.plan.is_default)) [
        | inl d ↦
            let (z, m, j) =
              find-update offer
                (is_default_in row.plan.country_code row.plan.account row.plan.level)
                (set_default_to false) id _ y (λ r. refl) (λ r. refl) n in
            (_, z, refl, rw (d, version_bump) (rw (fresh) m), j ∙ k)
        | inr d ↦ (_, y, refl, rw (d, version_bump) (rw (fresh) n), k)
      ]

  -- A price change does not retire the old version: when the update of a plan that is sold makes a
  -- new version, under an id that is not the old one's, the old version can be bought at its old
  -- prices by its id at any time after that, also when its grace is over, and rolling back to it
  -- throws, since it is still active.
  pub update-rollback_to :
      (new : Listed) × (t : Catalogue) × (old : Plan) × (update code_of id dto grace_hours now c
        ≡ (ok new, t))
      × (get_active_for_checkout id (map (λ r. r.plan) t.rows) ≡ ok old)
      × (old.monthly_price ≡ row.plan.monthly_price)
      × (old.six_month_price ≡ row.plan.six_month_price)
      × (old.annual_price ≡ row.plan.annual_price)
      × (rollback_to id t ≡ (err conflict, t))
  update-rollback_to =
      let (new, old, run, there, same) = old_version in
      let sold : old.plan.is_active ≡ true = ap (λ o. o.0) same ∙ active in
      let plan = find-plans id bumped.rows old there in
      (
        new,
        bumped,
        old.plan,
        bumps ∙ run,
        sold-checkout id (map (λ r. r.plan) bumped.rows) old.plan plan sold,
        ap (λ o. o.1) same,
        ap (λ o. o.2) same,
        ap (λ o. o.3) same,
        active-conflict id bumped old there sold,
      )
