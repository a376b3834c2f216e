-- ===== src/Plans/Catalogue/Promote.antt =====
-- At most one default plan to a slot: plans that are promoted, updated or rolled back.
use bondzi_backend.Prelude.{
  ℕ, ◌<◌, ◌≡◌, refl, sym, ap, ◌∙◌, true, false, some, List, inl, inr, find?, update_where, All,
  All-map, All-update_where, update_where-IsKeyed, Bool-cases, arith,
}
use bondzi_backend.Enums.{ExamType, AccountType}
use bondzi_backend.Plans.{Plan}
use bondzi_backend.Plans.Catalogue.{
  Listed, with_plan_id, is_default_in, set_default_to, demote_others,
}
use bondzi_backend.Plans.Catalogue.Defaults.{
  id_of, in_slot, slot-of, count-lowered, count-keyed, only, demoted_others,
}
use bondzi_backend.Plans.Catalogue.Stock.{IsStocked, lowered-IsStocked, every}

-- the slot of a plan, by columns
abbrev pub SameSlot : Plan → Listed → Type 0
SameSlot p r =
    (r.plan.country_code ≡ p.country_code) × (r.plan.account ≡ p.account) × (r.plan.level ≡ p.level)

same-default :
    (country : ℕ) (account : AccountType) (level : ExamType) (p : Plan) (r : Listed)
    → p.country_code ≡ country
    → p.account ≡ account
    → p.level ≡ level
    → is_default_in country account level r ≡ is_default_in p.country_code p.account p.level r
same-default country account level p r c a l = rw (c, a, l) refl

slot-same :
    (country : ℕ) (account : AccountType) (level : ExamType) (p r : Plan)
    → p.country_code ≡ r.country_code
    → p.account ≡ r.account
    → p.level ≡ r.level
    → in_slot country account level p ≡ in_slot country account level r
slot-same country account level p r c a l = rw (c, a, l) refl

-- a plan takes the place of the default of its slot
pub promoted-IsStocked :
    (x : Listed) (g : Listed → Listed) (rows : List Listed) (next : ℕ)
    → find? (with_plan_id x.plan.id) rows ≡ some x
    → ((r : Listed) → id_of (g r) ≡ id_of r)
    → ((r : Listed) → SameSlot r.plan (g r))
    → IsStocked rows next
    → IsStocked (update_where (with_plan_id x.plan.id) g (demote_others x.plan rows)) next
unfolding demote_others
promoted-IsStocked x g rows next found keeps stays s =
    let p = x.plan in
    let others = demote_others p rows in
    let t : IsStocked others next =
      lowered-IsStocked _ (set_default_to false) rows next (λ r hit. refl)
        (λ c a l. every _ rows (λ r hit no_default. absurd (cc))) s in
    let slots : All (λ r. id_of r ≡ p.id → SameSlot p r) others =
      All-update_where (λ r. id_of r ≡ p.id → SameSlot p r) _ (set_default_to false) rows
        (λ r h hit. h)
        (All-map _ _ rows
          (λ r unique same.
            let e = unique same in
            (ap (λ y. y.plan.country_code) e, ap (λ y. y.plan.account) e, ap (λ y. y.plan.level) e))
          (only p.id x rows s.keyed found)) in
    let keyed =
      update_where-IsKeyed id_of (with_plan_id p.id) g others (λ r hit. keeps r) t.keyed in
    record {
      keyed = keyed;
      below =
          All-update_where (λ r. id_of r < next) (with_plan_id p.id) g others
            (λ r l hit. omega (arith, l, keeps r)) t.below;
      single = λ country account level. elim (Bool-cases (in_slot country account level p)) [
        | inl slot ↦
            let (c, a, l) = slot-of country account level p slot in
            count-keyed country account level p.id _ keyed (
              All-update_where (λ r. is_default_in country account level r ≡ true → id_of r ≡ p.id)
                (with_plan_id p.id) g others (λ r h hit y. keeps r ∙ ground arith)
                (All-map _ _ others
                  (λ r h y. h (sym (same-default country account level p r c a l) ∙ y))
                  (demoted_others p rows)))
        | inr apart ↦ omega (
          arith,
          t.single country account level,
          count-lowered country account level (with_plan_id p.id) g others (
              All-map _ _ others
                (λ r h hit y.
                  let (c, a, l) = h (ground arith) in
                  let (c', a', l') = stays r in
                  let new_slot : in_slot country account level (g r).plan ≡ true = ground arith in
                  let old_slot =
                    slot-same country account level (g r).plan p (c' ∙ c) (a' ∙ a) (l' ∙ l) in
                  absurd (ground arith))
                slots),
        )
      ];
    }
