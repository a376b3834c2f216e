-- ===== src/Plans/Catalogue/Defaults.antt =====
-- How the writes of the catalogue change the number of default plans of a slot.
use bondzi_backend.Prelude.{
  ℕ, ◌≤◌, ◌≡◌, ◌≢◌, refl, sym, ◌∙◌, Bool, true, false, ◌&&◌, List, [], ◌∷◌, inl, inr, ◌==◌, find?,
  count_if, some, update_where, All, All-map, IsKeyed, Bool-cases, arith,
}
use bondzi_backend.Enums.{ExamType, level_eq, level_eq_iff, AccountType, account_eq, account_eq_iff}
use bondzi_backend.Plans.{Plan}
use bondzi_backend.Plans.Catalogue.{Listed, with_plan_id, is_default_in, demote, demote_others}

abbrev pub id_of : Listed → ℕ
id_of r = r.plan.id

module _ (country : ℕ) (account : AccountType) (level : ExamType) where
  abbrev pub in_slot : Plan → Bool
  in_slot p = p.country_code == country && (account_eq p.account account && level_eq p.level level)

  abbrev pub q : Listed → Bool
  q = is_default_in country account level

  -- a plan of the slot names it
  pub slot-of :
      (p : Plan)
      → in_slot p ≡ true
      → (p.country_code ≡ country) × (p.account ≡ account) × (p.level ≡ level)
  slot-of p h =
      let a : account_eq p.account account ≡ true = ground arith in
      let l : level_eq p.level level ≡ true = ground arith in
      (ground arith, (account_eq_iff p.account account).0 a, (level_eq_iff p.level level).0 l)

  -- an update that makes no row of the slot a default
  pub count-lowered :
      (p : Listed → Bool) (f : Listed → Listed) (rows : List Listed)
      → All (λ r. p r ≡ true → q (f r) ≡ true → q r ≡ true) rows
      → count_if q (update_where p f rows) ≤ count_if q rows
  count-lowered p f [] h = omega arith
  count-lowered p f (r ∷ rows) h = elim (Bool-cases (p r)) [
    | inr miss ↦ rw (miss) (omega (arith, count-lowered p f rows h.1))
    | inl hit ↦ elim (Bool-cases (q (f r))) [
      | inl y ↦ rw (hit, y, h.0 hit y) (omega (arith, count-lowered p f rows h.1))
      | inr n ↦ rw (hit, n) (omega (arith, count-lowered p f rows h.1))
    ]
  ]

  pub count-demote : (rows : List Listed) → count_if q (demote country account level rows) ≡ 0
  unfolding demote
  count-demote [] = refl
  count-demote (r ∷ rows) = elim (Bool-cases (q r)) [
    | inl y ↦ rw (y) (omega (arith, count-demote rows))
    | inr n ↦ rw (n, n) (omega (arith, count-demote rows))
  ]

  pub count-none : (rows : List Listed) → All (λ r. q r ≡ false) rows → count_if q rows ≡ 0
  count-none [] h = refl
  count-none (r ∷ rows) h = rw (h.0) (omega (arith, count-none rows h.1))

  -- if all the defaults of the slot have one id, there is at most one
  pub count-keyed :
      (k : ℕ) (rows : List Listed)
      → IsKeyed id_of rows
      → All (λ r. q r ≡ true → id_of r ≡ k) rows
      → count_if q rows ≤ 1
  count-keyed k [] u h = omega arith
  count-keyed k (r ∷ rows) u h = elim (Bool-cases (q r)) [
    | inr n ↦ rw (n) (omega (arith, count-keyed k rows u.1 h.1))
    | inl y ↦
        let at : id_of r ≡ k = h.0 y in
        let none_left : count_if q rows ≡ 0 = count-none rows (both rows at u.0 h.1) in
        rw (y) (omega (arith, none_left))
  ]
    where
      both :
          (xs : List Listed)
          → id_of r ≡ k
          → All (λ y. id_of y ≢ id_of r) xs
          → All (λ y. q y ≡ true → id_of y ≡ k) xs
          → All (λ y. q y ≡ false) xs
      both [] at ne h = tt
      both (x ∷ xs) at ne h = (
        elim (Bool-cases (q x)) [ inl y ↦ absurd (ne.0 (h.0 y ∙ sym at)) | inr n ↦ n ],
        both xs at ne.1 h.1,
      )

-- the plan with an id is the only one with it
pub only :
    (id : ℕ) (x : Listed) (rows : List Listed)
    → IsKeyed id_of rows
    → find? (with_plan_id id) rows ≡ some x
    → All (λ r. id_of r ≡ id → r ≡ x) rows
only id x [] k found = tt
only id x (r ∷ rows) k found = elim (Bool-cases (r.plan.id == id)) [
  | inl hit ↦
      let top : r ≡ x = ground arith in
      let same : r.plan.id ≡ id = ground arith in
      (λ _. top, All-map _ _ rows (λ y ne eq. absurd (ne (eq ∙ sym same))) k.0)
  | inr miss ↦ (λ eq. absurd (ground arith), only id x rows k.1 (rw (miss) at found))
]

-- after the others of the slot of `p` were demoted, its defaults have the id of `p`
pub demoted_others :
    (p : Plan) (rows : List Listed)
    → All
        (λ r. is_default_in p.country_code p.account p.level r ≡ true → id_of r ≡ p.id)
        (demote_others p rows)
unfolding demote_others
demoted_others p [] = tt
demoted_others p (r ∷ rows) = (
  elim (Bool-cases (is_default_in p.country_code p.account p.level r)) [
    | inr n ↦ rw (n) (λ y. absurd (cc))
    | inl y ↦ elim (Bool-cases (r.plan.id == p.id)) [
      | inl own ↦ rw (y, own) (λ z. ground arith)
      | inr other ↦ rw (y, other) (λ z. absurd (cc))
    ]
  ],
  demoted_others p rows,
)
