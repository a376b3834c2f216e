-- ===== src/Xp/Redeem/Recipient.antt =====
-- The row that a redemption's credit goes to, and what it gives.
use mathlib.Core.List.{Memᴰ}
use mathlib.Core.List.Memᴰ.{head, tail}
use bondzi_backend.Prelude.{
  ℕ, ◌+◌, ◌≤◌, ◌≡◌, refl, sym, ◌∙◌, some_inj, true, Option, none, some, List, [], ◌∷◌, inl, inr,
  ◌==◌, ==_refl, any, update_where, Bool-cases, Option-cases, arith,
}
use bondzi_backend.Enums.{ExamType}
use bondzi_backend.Billing.{Subscription, Store, not_expired, with_id}
use bondzi_backend.Billing.Entitlement.{
  account_rank, account_on, is_granting, is_granting_now, expires_after, resolve,
}
use bondzi_backend.Billing.Entitlement.Fresh.{resolve-le}
use bondzi_backend.Plans.{Plan}
use bondzi_backend.Xp.Redeem.{
  XpRedemptionConfig, Economy, can_pay, paid_by, latest_active, credit_ms, extended, extended_end,
  credited, credit, credit_plan,
}

-- the row that the credit goes to, after it: the latest one that runs, or else a new one, on the
-- Pro plan that was found for the level of the user, if there is one
abbrev pub credit_row : ℕ → ℕ → Option Plan → Option Subscription → ℕ → ℕ → Subscription
credit_row user redemption plan (some row) now days = extended redemption now days row
credit_row user redemption plan none now days =
    credited (redemption + 1) user redemption plan now days

abbrev pub recipient : ℕ → ℕ → XpRedemptionConfig → Economy → Subscription
recipient user now tier s =
    credit_row user s.billing.next_id
      (credit_plan user (update_where (can_pay user tier.xp_cost) (paid_by tier.xp_cost) s.xp.users)
        s.billing.plans)
      (latest_active user now s.billing.subs) now tier.credit_days

-- what a row counts for on a level: a row without a plan, or with one of another level, nothing
abbrev pub rank_on : List Plan → ExamType → Subscription → ℕ
rank_on plans level row = elim (account_on plans level row) [ none ↦ 0 | some a ↦ account_rank a ]

Mem-replaced :
    (id : ℕ) (row : Subscription) (rows : List Subscription)
    → any (with_id id) rows ≡ true
    → Memᴰ row (update_where (with_id id) (λ _. row) rows)
Mem-replaced id row [] e = cc
Mem-replaced id row (x ∷ rows) e = elim (Bool-cases (x.id == id)) [
  | inl hit ↦ rw hit (head refl)
  | inr miss ↦ tail (Mem-replaced id row rows (rw miss at e))
]

module _ (user now : ℕ) where
  abbrev Extends : List Subscription → Subscription → Type 0
  Extends rows row = (any (with_id row.id) rows ≡ true) × (is_granting_now user now row ≡ true)

  newest :
      (x : Subscription) (rows : List Subscription) (row : Subscription)
      → is_granting_now user now x ≡ true
      → x ≡ row
      → Extends (x ∷ rows) row
  newest x rows row grants same = (rw (same, ==_refl row.id) refl, rw (sym same) grants)

  older :
      (x : Subscription) (rows : List Subscription) (row : Subscription)
      → Extends rows row
      → Extends (x ∷ rows) row
  older x rows row h = elim (Bool-cases (x.id == row.id)) [
    | inl hit ↦ (rw (hit) refl, h.1)
    | inr miss ↦ (rw (miss) h.0, h.1)
  ]

  latest_active-row :
      (rows : List Subscription) (row : Subscription)
      → latest_active user now rows ≡ some row
      → Extends rows row
  unfolding latest_active
  latest_active-row [] row e = cc
  latest_active-row (x ∷ rows) row e = elim (Bool-cases (is_granting_now user now x)) [
    | inl grants ↦ elim (Option-cases (latest_active user now rows)) [
      | inl n ↦ newest x rows row grants (some_inj (rw (grants, n) at e))
      | inr (y, n) ↦ elim (Bool-cases (expires_after y.expires_at x.expires_at)) [
        | inl after ↦
            older x rows row (latest_active-row rows row (n ∙ (rw (grants, n, after) at e)))
        | inr before ↦ newest x rows row grants (some_inj (rw (grants, n, before) at e))
      ]
    ]
    | inr refused ↦ older x rows row (latest_active-row rows row (rw (refused) at e))
  ]

  extended-grants :
      (redemption days at : ℕ) (row : Subscription)
      → is_granting_now user now row ≡ true
      → not_expired (extended redemption now days row).expires_at at ≡ true
      → is_granting user at (extended redemption now days row) ≡ true
  unfolding extended
  extended-grants redemption days at row h live = ground arith

  credited-grants :
      (id redemption days at : ℕ) (plan : Option Plan)
      → not_expired (credited id user redemption plan now days).expires_at at ≡ true
      → is_granting user at (credited id user redemption plan now days) ≡ true
  unfolding credited
  credited-grants id redemption days at plan live = rw (==_refl user) live

  extended_end-le : (end : Option ℕ) (days : ℕ) → now + credit_ms days ≤ extended_end end now days
  unfolding extended_end
  extended_end-le none days = omega arith
  extended_end-le (some at) days = omega arith

  module _ (redemption days : ℕ) (plan : Option Plan) (s : Store) where
    pub credit-end :
        (found : Option Subscription)
        → (credit_row user redemption plan found now days).expires_at
          ≡ some (credit user redemption plan found now days s).0
    unfolding credit extended credited
    credit-end none = refl
    credit-end (some row) = refl

    pub credit-le :
        (found : Option Subscription)
        → now + credit_ms days ≤ (credit user redemption plan found now days s).0
    unfolding credit
    credit-le none = omega arith
    credit-le (some row) = extended_end-le row.expires_at days

    pub credit-Mem :
        (found : Option Subscription)
        → latest_active user now s.subs ≡ found
        → Memᴰ
            (credit_row user redemption plan found now days)
            (credit user redemption plan found now days s).1.subs
    unfolding credit
    credit-Mem none e = head refl
    credit-Mem (some row) e = Mem-replaced row.id _ s.subs (latest_active-row s.subs row e).0

    pub credit-grants :
        (at : ℕ) (found : Option Subscription)
        → latest_active user now s.subs ≡ found
        → not_expired (credit_row user redemption plan found now days).expires_at at ≡ true
        → is_granting user at (credit_row user redemption plan found now days) ≡ true
    credit-grants at none e live = credited-grants (redemption + 1) redemption days at plan live
    credit-grants at (some row) e live =
        extended-grants redemption days at row (latest_active-row s.subs row e).1 live

-- A row of the table that grants counts.
pub rank_on-le :
    (plans : List Plan) (subs : List Subscription) (user : ℕ) (level : ExamType) (at : ℕ)
    (row : Subscription)
    → Memᴰ row subs
    → is_granting user at row ≡ true
    → rank_on plans level row ≤ account_rank (resolve plans subs user level at).account
rank_on-le plans subs user level at row m grants =
    elim (Option-cases (account_on plans level row)) [
      | inl n ↦ rw (n, rank_on) (omega arith)
      | inr (a, n) ↦ rw (n, rank_on) (resolve-le plans subs user level at row a m grants n)
    ]
