-- ===== src/Plans/Catalogue/Stock.antt =====
-- At most one default plan to a slot: new plans and deactivated ones.
use bondzi_backend.Prelude.{
  ℕ, ◌+◌, ◌≤◌, ◌<◌, ◌≡◌, refl, ap, ◌∙◌, Bool, true, false, Option, some, List, [], ◌∷◌, inl, inr,
  ◌==◌, if◌then◌else◌, find?, count_if, update_where, All, All-map, All-update_where, IsKeyed,
  update_where-IsKeyed, ok, err, ok_inj, not_found, Bool-cases, Result-cases, Option-cases,
  find?-passes, arith,
}
use bondzi_backend.Enums.{ExamType, AccountType, BillingInterval}
use bondzi_backend.Plans.Catalogue.{
  Listed, Catalogue, CreatePlan, with_plan_id, is_default_in, listed_by_id, set_default_to, demote,
  check_plan, new_plan, create,
}
use bondzi_backend.Plans.Catalogue.Shelf.{inactive_row, soft_delete}
use bondzi_backend.Plans.Catalogue.Defaults.{id_of, in_slot, slot-of, count-lowered, count-demote}

pub record IsStocked (rows : List Listed) (next : ℕ) : Type 0 where
  pub keyed : IsKeyed id_of rows
  pub below : All (λ r. id_of r < next) rows
  pub single :
      (country : ℕ) (account : AccountType) (level : ExamType)
      → count_if (is_default_in country account level) rows ≤ 1

-- an update that keeps the ids and makes no plan a default
pub lowered-IsStocked :
    (p : Listed → Bool) (f : Listed → Listed) (rows : List Listed) (next : ℕ)
    → ((r : Listed) → p r ≡ true → id_of (f r) ≡ id_of r)
    → ((country : ℕ) (account : AccountType) (level : ExamType)
        → All
            (λ r.
              p r ≡ true
              → is_default_in country account level (f r) ≡ true
              → is_default_in country account level r ≡ true)
            rows)
    → IsStocked rows next
    → IsStocked (update_where p f rows) next
lowered-IsStocked p f rows next keeps lowers s = record {
  keyed = update_where-IsKeyed id_of p f rows keeps s.keyed;
  below =
      All-update_where (λ r. id_of r < next) p f rows (λ r l hit. omega (arith, l, keeps r hit))
        s.below;
  single = λ country account level. omega (
    arith,
    count-lowered country account level p f rows (lowers country account level),
    s.single country account level,
  );
}

-- for a condition that holds of every row
pub every : (P : Listed → Type 0) (rows : List Listed) → ((r : Listed) → P r) → All P rows
every P [] h = tt
every P (r ∷ rows) h = (h r, every P rows h)

demote-IsStocked :
    (country : ℕ) (account : AccountType) (level : ExamType) (rows : List Listed) (next : ℕ)
    → IsStocked rows next
    → IsStocked (demote country account level rows) next
unfolding demote
demote-IsStocked country account level rows next =
    lowered-IsStocked _ (set_default_to false) rows next (λ r hit. refl)
      (λ cc' a l. every _ rows (λ r hit no_default. absurd (cc)))

-- the slot of a new default, cleared for it
cleared-IsStocked :
    (b : Bool) (country : ℕ) (account : AccountType) (level : ExamType) (rows : List Listed)
    (next : ℕ)
    → IsStocked rows next
    → IsStocked (if b then demote country account level rows else rows) next
cleared-IsStocked true country account level rows next s =
    demote-IsStocked country account level rows next s
cleared-IsStocked false country account level rows next s = s

cleared-empty :
    (b : Bool) (country' : ℕ) (account' : AccountType) (level' : ExamType) (country : ℕ)
    (account : AccountType) (level : ExamType) (rows : List Listed)
    → b ≡ true
    → country' ≡ country
    → account' ≡ account
    → level' ≡ level
    → count_if
        (is_default_in country account level)
        (if b then demote country' account' level' rows else rows)
      ≡ 0
cleared-empty b country' account' level' country account level rows h c a l =
    rw (h, c, a, l) (count-demote country account level rows)

-- the newest row, whose slot was cleared for it
pub added-IsStocked :
    (row : Listed) (rows : List Listed) (next : ℕ)
    → id_of row ≡ next
    → IsStocked rows next
    → IsStocked
        (row
          ∷ (if row.plan.is_default
              then demote row.plan.country_code row.plan.account row.plan.level rows
              else rows))
        (next + 1)
added-IsStocked row rows next new s =
    let t =
      cleared-IsStocked row.plan.is_default row.plan.country_code row.plan.account row.plan.level
        rows next s in
    record {
      keyed = (All-map _ _ _ (λ r l eq. absurd (omega (arith, l, eq, new))) t.below, t.keyed);
      below = (omega (arith, new), All-map _ _ _ (λ r l. omega (arith, l)) t.below);
      single = λ country account level.
          elim (Bool-cases (is_default_in country account level row)) [
            | inr n ↦ rw (n) (omega (arith, t.single country account level))
            | inl y ↦
                let slot : in_slot country account level row.plan ≡ true = ground arith in
                let b : row.plan.is_default ≡ true = ground arith in
                let (c, a, l) = slot-of country account level row.plan slot in
                let empty =
                  cleared-empty row.plan.is_default row.plan.country_code row.plan.account
                    row.plan.level country account level rows b c a l in
                rw (y) (omega (arith, empty))
          ];
    }

pub create-IsStocked :
    (code_of : BillingInterval → ℕ → Option ℕ) (registered : ℕ → Bool) (dto : CreatePlan)
    (c : Catalogue)
    → IsStocked c.rows c.next_id
    → (let t = (create code_of registered dto c).1 in IsStocked t.rows t.next_id)
unfolding create new_plan
create-IsStocked code_of registered dto c s = elim (Result-cases (check_plan registered dto)) [
  | inr (e, n) ↦ rw (n, create) s
  | inl (u, n) ↦ rw (n, create) (added-IsStocked _ c.rows c.next_id refl s)
]

pub listed-found :
    (id : ℕ) (c : Catalogue) (r : Listed)
    → listed_by_id id c ≡ ok r
    → find? (with_plan_id id) c.rows ≡ some r
unfolding listed_by_id
listed-found id c r h = elim (Option-cases (find? (with_plan_id id) c.rows)) [
  | inl n ↦ let thrown : err not_found ≡ ok r = rw (n, listed_by_id) at h in cc
  | inr (x, n) ↦ let top : x ≡ r = ok_inj (rw (n, listed_by_id) at h) in n ∙ ap (λ y. some y) top
]

pub soft_delete-IsStocked :
    (id : ℕ) (c : Catalogue)
    → IsStocked c.rows c.next_id
    → (let t = (soft_delete id c).1 in IsStocked t.rows t.next_id)
unfolding soft_delete
soft_delete-IsStocked id c s = elim (Result-cases (listed_by_id id c)) [
  | inr (e, n) ↦ rw (n, soft_delete) s
  | inl (r, n) ↦
      let own : (r.plan.id == id) ≡ true =
        find?-passes (with_plan_id id) c.rows r (listed-found id c r n) in
      elim (Bool-cases r.plan.is_active) [
        | inr h ↦ rw (n, soft_delete) (rw (h) s)
        | inl h ↦
            rw (n, soft_delete)
              (rw (h) (
                lowered-IsStocked (with_plan_id id) (λ _. inactive_row r) c.rows c.next_id
                  (λ x hit. ground arith)
                  (λ country account level. every _ c.rows (λ x hit no_default. absurd (cc))) s))
      ]
]
