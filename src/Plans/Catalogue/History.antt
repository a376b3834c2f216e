-- ===== src/Plans/Catalogue/History.antt =====
-- Every catalogue that the calls of the admins lead to.
use mathlib.Core.Path.{subst}
use bondzi_backend.Prelude.{
  ℕ, ◌≡◌, refl, sym, ap, Bool, true, false, not, Option, none, some, [], inl, inr, ◌==◌,
  if◌then◌else◌, find?, update_where, All, All-map, All-update_where, Result, err, bad_request,
  conflict, Bool-cases, Result-cases, find?-passes, arith,
}
use bondzi_backend.Enums.{BillingInterval}
use bondzi_backend.Plans.Catalogue.{
  Listed, Catalogue, CreatePlan, UpdatePlan, Cadences, is_any, with_plan_id, listed_by_id,
  set_default_to, demote_others, create,
}
use bondzi_backend.Plans.Catalogue.Update.{
  given_flag, cosmetic_row, apply_cosmetic, detect_structural_changes, next_plan, version_bump,
  update,
}
use bondzi_backend.Plans.Catalogue.Shelf.{
  inactive_row, is_active_sibling, lacks_codes, soft_delete, set_default, rollback_to,
}
use bondzi_backend.Plans.Catalogue.Defaults.{id_of, only}
use bondzi_backend.Plans.Catalogue.Stock.{
  IsStocked, lowered-IsStocked, every, added-IsStocked, create-IsStocked, listed-found,
  soft_delete-IsStocked,
}
use bondzi_backend.Plans.Catalogue.Promote.{SameSlot, promoted-IsStocked}

abbrev pub IsOrderly : Catalogue → Type 0
IsOrderly c = IsStocked c.rows c.next_id

either-IsOrderly :
    (b : Bool) (t u : Result Listed × Catalogue)
    → IsOrderly t.1
    → IsOrderly u.1
    → IsOrderly (if b then t else u).1
either-IsOrderly true t u h j = h
either-IsOrderly false t u h j = j

own-id :
    (id : ℕ) (c : Catalogue) (r : Listed) → find? (with_plan_id id) c.rows ≡ some r → r.plan.id ≡ id
own-id id c r n =
    let own : (r.plan.id == id) ≡ true = find?-passes (with_plan_id id) c.rows r n in ground arith

promoted-at :
    (id : ℕ) (c : Catalogue) (x : Listed) (g : Listed → Listed)
    → find? (with_plan_id id) c.rows ≡ some x
    → ((r : Listed) → id_of (g r) ≡ id_of r)
    → ((r : Listed) → SameSlot r.plan (g r))
    → IsOrderly c
    → IsStocked (update_where (with_plan_id id) g (demote_others x.plan c.rows)) c.next_id
promoted-at id c x g n keeps stays s =
    let same = own-id id c x n in
    let here : find? (with_plan_id x.plan.id) c.rows ≡ some x =
      subst (λ k. find? (with_plan_id k) c.rows ≡ some x) (sym same) n in
    subst (λ k. IsStocked (update_where (with_plan_id k) g (demote_others x.plan c.rows)) c.next_id)
      same (promoted-IsStocked x g c.rows c.next_id here keeps stays s)

set_default-IsOrderly : (id : ℕ) (c : Catalogue) → IsOrderly c → IsOrderly (set_default id c).1
unfolding set_default
set_default-IsOrderly id c s = elim (Result-cases (listed_by_id id c)) [
  | inr (e, n) ↦ rw (n, set_default) s
  | inl (r, n) ↦
      let t : Catalogue = record c {
        rows = update_where (with_plan_id id) (set_default_to true) (demote_others r.plan c.rows);
      } in
      rw (n, set_default)
        (either-IsOrderly (not r.plan.is_active) (err bad_request, c) (listed_by_id id t, t) s
          (promoted-at id c r (set_default_to true) (listed-found id c r n) (λ y. refl)
            (λ y. (refl, refl, refl)) s))
]

-- the flag of an update in place
abbrev promotes : UpdatePlan → Bool
promotes dto = given_flag dto.is_default false

flag-kept :
    (flag : Option Bool) (old : Bool)
    → given_flag flag false ≡ false
    → given_flag flag old ≡ true
    → old ≡ true
flag-kept none old h y = y
flag-kept (some b) old h y = absurd (cc)

apply_cosmetic-IsOrderly :
    (current : Listed) (dto : UpdatePlan) (c : Catalogue)
    → find? (with_plan_id current.plan.id) c.rows ≡ some current
    → IsOrderly c
    → IsOrderly (apply_cosmetic current dto c).1
unfolding apply_cosmetic
apply_cosmetic-IsOrderly current dto c n s = elim (Bool-cases (promotes dto)) [
  | inl y ↦
      rw (y, apply_cosmetic)
        (promoted-IsStocked current (cosmetic_row dto) c.rows c.next_id n (λ r. refl)
          (λ r. (refl, refl, refl)) s)
  | inr no_promotion ↦
      rw (no_promotion, apply_cosmetic)
        (lowered-IsStocked (with_plan_id current.plan.id) (cosmetic_row dto) c.rows c.next_id
          (λ r hit. refl)
          (λ country account level. every _ c.rows (λ r hit y.
            let flag : given_flag dto.is_default r.plan.is_default ≡ true = ground arith in
            let was = flag-kept dto.is_default r.plan.is_default no_promotion flag in ground arith))
          s)
]

version_bump-IsOrderly :
    (code_of : BillingInterval → ℕ → Option ℕ) (current : Listed) (dto : UpdatePlan)
    (changed : Cadences) (grace_hours now : ℕ) (c : Catalogue)
    → IsOrderly c
    → IsOrderly (version_bump code_of current dto changed grace_hours now c).1
unfolding version_bump next_plan
version_bump-IsOrderly code_of current dto changed grace_hours now c s =
    added-IsStocked _ _ c.next_id refl (
      lowered-IsStocked (with_plan_id current.plan.id) _ c.rows c.next_id (λ r hit. refl)
        (λ country account level. every _ c.rows (λ r hit no_default. absurd (cc))) s)

update-IsOrderly :
    (code_of : BillingInterval → ℕ → Option ℕ) (id : ℕ) (dto : UpdatePlan) (grace_hours now : ℕ)
    (c : Catalogue)
    → IsOrderly c
    → IsOrderly (update code_of id dto grace_hours now c).1
unfolding update
update-IsOrderly code_of id dto grace_hours now c s = elim (Result-cases (listed_by_id id c)) [
  | inr (e, n) ↦ rw (n, update) s
  | inl (r, n) ↦
      let found = listed-found id c r n in
      let here : find? (with_plan_id r.plan.id) c.rows ≡ some r =
        subst (λ k. find? (with_plan_id k) c.rows ≡ some r) (sym (own-id id c r found)) found in
      let changed = detect_structural_changes r.plan dto in
      let bump = version_bump code_of r dto changed grace_hours now c in
      rw (n, update)
        (either-IsOrderly (not r.plan.is_active) (err bad_request, c)
          (if is_any changed then bump else apply_cosmetic r dto c) s
          (either-IsOrderly (is_any changed) bump (apply_cosmetic r dto c)
            (version_bump-IsOrderly code_of r dto changed grace_hours now c s)
            (apply_cosmetic-IsOrderly r dto c here s)))
]

rolled-IsStocked :
    (id : ℕ) (target : Listed) (c : Catalogue)
    → find? (with_plan_id id) c.rows ≡ some target
    → IsOrderly c
    → IsStocked
        (update_where
          (with_plan_id id)
          (λ r. record r {
            plan = record (r.plan) { is_active = true; is_default = target.plan.is_default };
          })
          (update_where (is_active_sibling target.plan) inactive_row c.rows))
        c.next_id
rolled-IsStocked id target c n s =
    let same = own-id id c target n in
    let inner =
      lowered-IsStocked (is_active_sibling target.plan) inactive_row c.rows c.next_id
        (λ r hit. refl) (λ country account level. every _ c.rows (λ r hit no_default. absurd (cc)))
        s in
    let kept : All (λ r. id_of r ≡ id → r.plan.is_default ≡ target.plan.is_default)
        (update_where (is_active_sibling target.plan) inactive_row c.rows) =
      All-update_where (λ r. id_of r ≡ id → r.plan.is_default ≡ target.plan.is_default) _
        inactive_row c.rows (λ r h hit at. absurd (ground (arith, same)))
        (All-map _ _ c.rows (λ r unique at. ap (λ y. y.plan.is_default) (unique at))
          (only id target c.rows s.keyed n)) in
    lowered-IsStocked (with_plan_id id) _ _ c.next_id (λ r hit. refl)
      (λ country account level.
        All-map _ _ _ (λ r h hit y. let was = h (ground arith) in ground arith) kept)
      inner

rollback_to-IsOrderly : (id : ℕ) (c : Catalogue) → IsOrderly c → IsOrderly (rollback_to id c).1
unfolding rollback_to
rollback_to-IsOrderly id c s = elim (Result-cases (listed_by_id id c)) [
  | inr (e, n) ↦ rw (n, rollback_to) s
  | inl (r, n) ↦
      let t : Catalogue = record c {
        rows =
            update_where (with_plan_id id)
              (λ y. record y {
                plan = record (y.plan) { is_active = true; is_default = r.plan.is_default };
              })
              (update_where (is_active_sibling r.plan) inactive_row c.rows);
      } in
      rw (n, rollback_to)
        (either-IsOrderly r.plan.is_active (err conflict, c)
          (if lacks_codes r.plan then (err bad_request, c) else (listed_by_id id t, t)) s
          (either-IsOrderly (lacks_codes r.plan) (err bad_request, c) (listed_by_id id t, t) s
            (rolled-IsStocked id r c (listed-found id c r n) s)))
]

-- one call; the codes that the provider answers differ from call to call
pub data Step : Catalogue → Catalogue → Type 0 where
  creates :
      {c : Catalogue} (code_of : BillingInterval → ℕ → Option ℕ) (registered : ℕ → Bool)
      (dto : CreatePlan)
      → Step c (create code_of registered dto c).1
  updates :
      {c : Catalogue} (code_of : BillingInterval → ℕ → Option ℕ) (id : ℕ) (dto : UpdatePlan)
      (grace_hours now : ℕ)
      → Step c (update code_of id dto grace_hours now c).1
  deletes : {c : Catalogue} (id : ℕ) → Step c (soft_delete id c).1
  defaults : {c : Catalogue} (id : ℕ) → Step c (set_default id c).1
  rolls_back : {c : Catalogue} (id : ℕ) → Step c (rollback_to id c).1

pub data Reach : Catalogue → Type 0 where
  start : Reach (record { rows = []; next_id = 0 })
  later : {c t : Catalogue} → Reach c → Step c t → Reach t

-- At most one plan of a country, an account and a level is the default, in every catalogue that
-- creating, updating, deactivating, promoting and rolling back plans leads to, in any order and
-- whatever codes the provider answers; and no two plans have one id.
pub Reach-IsOrderly : {c : Catalogue} → Reach c → IsOrderly c
Reach-IsOrderly start = record {
  keyed = tt;
  below = tt;
  single = λ country account level. omega arith;
}
Reach-IsOrderly (later {c} r (creates code_of registered dto)) =
    create-IsStocked code_of registered dto c (Reach-IsOrderly r)
Reach-IsOrderly (later {c} r (updates code_of id dto grace_hours now)) =
    update-IsOrderly code_of id dto grace_hours now c (Reach-IsOrderly r)
Reach-IsOrderly (later {c} r (deletes id)) = soft_delete-IsStocked id c (Reach-IsOrderly r)
Reach-IsOrderly (later {c} r (defaults id)) = set_default-IsOrderly id c (Reach-IsOrderly r)
Reach-IsOrderly (later {c} r (rolls_back id)) = rollback_to-IsOrderly id c (Reach-IsOrderly r)
