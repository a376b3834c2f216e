-- ===== src/Xp/Redeem/Balance.antt =====
-- What a redemption takes and what it gives.
use mathlib.Core.List.{Memᴰ}
use bondzi_backend.Prelude.{
  ℕ, ◌+◌, ◌-◌, ◌≤◌, ◌≡◌, refl, ap, some_inj, true, some, List, [], ◌∷◌, inl, inr, leb, ◌==◌, find?,
  any, update_where, ok, Bool-cases, arith,
}
use bondzi_backend.Enums.{ExamType}
use bondzi_backend.Billing.{not_expired}
use bondzi_backend.Billing.Entitlement.{account_rank, resolve}
use bondzi_backend.Xp.{User, user_of}
use bondzi_backend.Xp.Redeem.Recipient.{
  recipient, rank_on, credit-end, credit-le, credit-Mem, credit-grants, rank_on-le,
}
use bondzi_backend.Xp.Redeem.{
  XpRedemptionConfig, Economy, RedeemResult, is_tier, can_pay, paid_by, latest_active, credit_ms,
  credit_plan, redeem_tier, redeem, spendable_of,
}

module _ (user cost : ℕ) where
  affordable : (u : User) → cost ≤ u.spendable_xp → leb cost u.spendable_xp ≡ true
  affordable u h = ground arith

  pays-any :
      (rows : List User) (u : User)
      → user_of user rows ≡ some u
      → cost ≤ u.spendable_xp
      → any (can_pay user cost) rows ≡ true
  pays-any [] u e h = cc
  pays-any (x ∷ rows) u e h = elim (Bool-cases (x.id == user)) [
    | inl hit ↦
        let same : x ≡ u = some_inj (rw (hit) at e) in
        let afford : leb cost x.spendable_xp ≡ true = rw (same) (affordable u h) in
        rw (hit, afford) refl
    | inr miss ↦ rw (miss) (pays-any rows u (rw (miss) at e) h)
  ]

  user_of-paid :
      (rows : List User) (u : User)
      → user_of user rows ≡ some u
      → cost ≤ u.spendable_xp
      → user_of user (update_where (can_pay user cost) (paid_by cost) rows) ≡ some (paid_by cost u)
  user_of-paid [] u e h = cc
  user_of-paid (x ∷ rows) u e h = elim (Bool-cases (x.id == user)) [
    | inl hit ↦
        let same : x ≡ u = some_inj (rw (hit) at e) in
        let afford : leb cost x.spendable_xp ≡ true = rw (same) (affordable u h) in
        rw (hit, afford, hit) (ap (λ v. some (paid_by cost v)) same)
    | inr miss ↦ rw (miss, miss) (user_of-paid rows u (rw (miss) at e) h)
  ]

-- A redemption takes the price of the tier and gives its days: when the tier is offered and the
-- user has the XP, the call succeeds, the new balance and the price make up the old balance, and
-- the row that the credit goes to, the latest one that runs or else a new one on the Pro plan for
-- the level of the user, runs until the returned moment, which is the days of the tier from now or
-- later. Until then the tables after the call give the user on every level at least the account of
-- the row's plan, if the row has a plan that is on the level.
pub redeem_pays :
    (event user key now at : ℕ) (level : ExamType) (tier : XpRedemptionConfig) (u : User)
    (s : Economy)
    → find? (is_tier key) s.tiers ≡ some tier
    → user_of user s.xp.users ≡ some u
    → tier.xp_cost ≤ u.spendable_xp
    → not_expired (recipient user now tier s).expires_at at ≡ true
    → (r : RedeemResult) × (t : Economy) × (redeem event user key now s ≡ (ok r, t))
      × (r.new_spendable_xp + tier.xp_cost ≡ u.spendable_xp)
      × (spendable_of user t.xp.users ≡ r.new_spendable_xp)
      × ((recipient user now tier s).expires_at ≡ some r.subscription_expires_at)
      × (now + credit_ms tier.credit_days ≤ r.subscription_expires_at)
      × Memᴰ (recipient user now tier s) t.billing.subs
      × (rank_on t.billing.plans level (recipient user now tier s)
          ≤ account_rank (resolve t.billing.plans t.billing.subs user level at).account)
unfolding redeem redeem_tier
redeem_pays event user key now at level tier u s sold row h live =
    let users = update_where (can_pay user tier.xp_cost) (paid_by tier.xp_cost) s.xp.users in
    let left : spendable_of user users ≡ u.spendable_xp - tier.xp_cost =
      rw (user_of-paid user tier.xp_cost s.xp.users u row h, spendable_of) refl in
    let redemption = s.billing.next_id in
    let days = tier.credit_days in
    let plan = credit_plan user users s.billing.plans in
    let found = latest_active user now s.billing.subs in
    (
      (redeem_tier event user tier now s).0,
      (redeem_tier event user tier now s).1,
      rw (sold, pays-any user tier.xp_cost s.xp.users u row h, redeem) refl,
      omega (arith, left, h),
      refl,
      credit-end user now redemption days plan s.billing found,
      credit-le user now redemption days plan s.billing found,
      credit-Mem user now redemption days plan s.billing found refl,
      rank_on-le _ _ user level at (recipient user now tier s)
          (credit-Mem user now redemption days plan s.billing found refl)
          (credit-grants user now redemption days plan s.billing at found refl live),
    )
