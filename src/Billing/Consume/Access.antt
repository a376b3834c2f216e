-- ===== src/Billing/Consume/Access.antt =====
-- `consumePaidAttempt` and the entitlement of the payer.
use mathlib.Core.Path.{subst}
use mathlib.Core.List.{Memᴰ}
use mathlib.Core.List.Memᴰ.{head, tail}
use bondzi_backend.Prelude.{
  ℕ, ◌≤◌, ◌≡◌, refl, sym, ◌∙◌, Bool, true, false, Option, none, some, List, [], ◌∷◌, inl, inr,
  update_where, find?-passes, Option-cases, ok, arith, ==_refl,
}
use bondzi_backend.Enums.{level_eq_refl, BillingInterval, active}
use bondzi_backend.Plans.{Plan, plan_by_id}
use bondzi_backend.Billing.{
  Subscription, PaymentAttempt, Provider, Store, not_expired, plan_of, with_id,
}
use bondzi_backend.Billing.Entitlement.{
  account_rank, account_on, is_granting, entitlement_for, resolve,
}
use bondzi_backend.Billing.Entitlement.Fresh.{resolve-le, Mem-find?}
use bondzi_backend.Billing.Entitlement.Cached.{entitlement_for-invalidate_cache}
use bondzi_backend.Billing.Consume.{
  ConsumeOptions, is_owned, existing_for, new_subscription, renewed, charge_once, charge_recurring,
  charge, follow_up, activate, consume_paid_attempt, link_attempt, redeem,
}
use bondzi_backend.Billing.Consume.Unique.{consume_paid_attempt-cases}

pub Mem-update_where :
    (p : Subscription → Bool) (row : Subscription) (x : Subscription) (xs : List Subscription)
    → Memᴰ x xs
    → p x ≡ true
    → Memᴰ row (update_where p (λ _. row) xs)
Mem-update_where p row x [] m h = elim m [ ]
Mem-update_where p row x (y ∷ ys) (head e) h =
    let h' : p y ≡ true = rw (sym e) h in rw h' (head refl)
Mem-update_where p row x (y ∷ ys) (tail m) h = tail (Mem-update_where p row x ys m h)

-- The returned row stands in the table as a live row of the payer on the plan.
record IsActivated (attempt : PaymentAttempt) (plan : Plan) (sub : Subscription) (s t : Store)
    : Type 0 where
  pub listed : Memᴰ sub t.subs
  pub owner : sub.user_id ≡ attempt.user_id
  pub status : sub.status ≡ active
  pub of_plan : sub.plan_id ≡ some plan.id
  pub same_plans : t.plans ≡ s.plans

charge-IsActivated :
    (provider : Provider) (attempt : PaymentAttempt) (plan : Plan) (opts : ConsumeOptions)
    (interval : Option BillingInterval) (now : ℕ) (s : Store)
    → (charge provider attempt plan opts interval now s).0.1 ≡ false
    → IsActivated attempt plan
        (charge provider attempt plan opts interval now s).0.0
        s
        (charge provider attempt plan opts interval now s).1
unfolding charge charge_once charge_recurring new_subscription renewed
charge-IsActivated provider attempt plan opts none now s h =
    elim (Option-cases (existing_for attempt.user_id plan s)) [
      | inl e ↦
          rw (e, charge)
            (record {
              listed = head refl;
              owner = refl;
              status = refl;
              of_plan = refl;
              same_plans = refl;
            })
      | inr (x, e) ↦ let no = rw (e, charge) at h in cc
    ]
charge-IsActivated provider attempt plan opts (some i) now s h =
    elim (Option-cases (existing_for attempt.user_id plan s)) [
      | inl e ↦
          rw (e, charge)
            (record {
              listed = head refl;
              owner = refl;
              status = refl;
              of_plan = refl;
              same_plans = refl;
            })
      | inr (x, e) ↦
          let mine = find?-passes (is_owned s.plans attempt.user_id plan) s.subs x e in
          rw (e, charge)
            (record {
              listed =
                  Mem-update_where (with_id x.id) _ x s.subs
                    (Mem-find? (is_owned s.plans attempt.user_id plan) s.subs x e) (==_refl x.id);
              owner = ground arith;
              status = refl;
              of_plan = refl;
              same_plans = refl;
            })
    ]

joined_plan :
    (attempt : PaymentAttempt) (plan : Plan) (sub : Subscription) (s t : Store)
    → IsActivated attempt plan sub s t
    → plan_by_id plan.id s.plans ≡ some plan
    → plan_of t.plans sub ≡ some plan
joined_plan attempt plan sub s t a p = rw (a.of_plan, a.same_plans, plan_of) p

granted :
    (attempt : PaymentAttempt) (plan : Plan) (sub : Subscription) (now : ℕ) (s t : Store)
    → IsActivated attempt plan sub s t
    → plan_by_id plan.id s.plans ≡ some plan
    → not_expired sub.expires_at now ≡ true
    → account_rank plan.account
      ≤ account_rank (resolve t.plans t.subs attempt.user_id plan.level now).account
granted attempt plan sub now s t a p live =
    let found : account_on t.plans plan.level sub ≡ some plan.account =
      rw (joined_plan attempt plan sub s t a p, level_eq_refl plan.level, account_on) refl in
    let grants : is_granting attempt.user_id now sub ≡ true =
      rw (a.owner, a.status, live, ==_refl attempt.user_id) refl in
    resolve-le t.plans t.subs attempt.user_id plan.level now sub plan.account a.listed grants found

follow_up_grants :
    (attempt : PaymentAttempt) (plan : Plan) (sub : Subscription) (id : ℕ) (duplicate : Bool)
    (now : ℕ) (s t : Store)
    → IsActivated attempt plan sub s t
    → plan_by_id plan.id s.plans ≡ some plan
    → not_expired sub.expires_at now ≡ true
    → account_rank plan.account
      ≤ account_rank
          (entitlement_for attempt.user_id plan.level now
            (follow_up attempt id duplicate t)).0.account
unfolding follow_up
follow_up_grants attempt plan sub id duplicate now s t a p live =
    rw
      (entitlement_for-invalidate_cache attempt.user_id now plan.level (record t {
        attempts = link_attempt attempt id duplicate t.attempts;
        promo = redeem attempt id duplicate t.promo;
      }))
      (granted attempt plan sub now s t a p live)

activate-split :
    (provider : Provider) (attempt : PaymentAttempt) (plan : Plan) (opts : ConsumeOptions)
    (interval : Option BillingInterval) (now : ℕ) (s t : Store) (sub : Subscription)
    (duplicate : Bool)
    → activate provider attempt plan opts interval now s ≡ (ok (sub, duplicate), t)
    → ((charge provider attempt plan opts interval now s).0.0 ≡ sub)
      × ((charge provider attempt plan opts interval now s).0.1 ≡ duplicate)
      × (follow_up attempt sub.id duplicate (charge provider attempt plan opts interval now s).1
          ≡ t)
unfolding activate
activate-split provider attempt plan opts interval now s t sub duplicate h =
    (ground arith, ground arith, ground arith)

-- A consumed attempt that is not a duplicate gives the payer at least the plan's account on its
-- level, at once and whatever the cache held, when the returned row has not expired and the plan is
-- a row of the table.
pub consume_paid_attempt_grants :
    (provider : Provider) (attempt : PaymentAttempt) (plan : Plan) (opts : ConsumeOptions) (now : ℕ)
    (s t : Store) (sub : Subscription)
    → plan_by_id plan.id s.plans ≡ some plan
    → consume_paid_attempt provider attempt plan opts now s ≡ (ok (sub, false), t)
    → not_expired sub.expires_at now ≡ true
    → account_rank plan.account
      ≤ account_rank (entitlement_for attempt.user_id plan.level now t).0.account
consume_paid_attempt_grants provider attempt plan opts now s t sub p run live =
    elim (consume_paid_attempt-cases provider attempt plan opts now s) [
      | inl e ↦ let no = sym e ∙ run in cc
      | inr (i, _, e) ↦
          let (same, fresh, last) =
            activate-split provider attempt plan opts i now s t sub false (sym e ∙ run) in
          let a =
            subst (λ x. IsActivated attempt plan x s (charge provider attempt plan opts i now s).1)
              same (charge-IsActivated provider attempt plan opts i now s fresh) in
          rw (sym last) (follow_up_grants attempt plan sub sub.id false now s _ a p live)
    ]
