-- ===== src/Billing/Refund/Access.antt =====
-- `applyRefund` and the entitlement of the owner.
use mathlib.Core.Path.{subst}
use mathlib.Core.List.{Memᴰ}
use mathlib.Core.List.Memᴰ.{head, tail}
use bondzi_backend.Prelude.{
  ℕ, ◌≡◌, ◌≢◌, refl, sym, ap, ◌∙◌, Bool, true, false, some, List, [], ◌∷◌, inl, inr, Bool-cases,
  Option-cases, ◌==◌, arith, find?, update_where, All, All-map, IsKeyed, find?-ne, holds_id,
  some_inj,
}
use bondzi_backend.Enums.{ExamType}
use bondzi_backend.Plans.{Plan}
use bondzi_backend.Billing.{Subscription, Store, with_id, invalidate_cache}
use bondzi_backend.Billing.Entitlement.{is_granting, resolve, entitlement_for}
use bondzi_backend.Billing.Entitlement.Fresh.{resolve_lem}
use bondzi_backend.Billing.Entitlement.Cached.{entitlement_for-invalidate_cache}
use bondzi_backend.Billing.Refund.{
  refund_attempt, is_refunded_status, refunded_subscription, sub_by_reference, apply_refund,
}

-- every row with this id is refunded
abbrev AllRefunded : ℕ → List Subscription → Type 0
AllRefunded k subs = All (λ r. r.id ≡ k → is_refunded_status r.status ≡ true) subs

AllRefunded-Mem :
    (k : ℕ) (r : Subscription) (subs : List Subscription)
    → AllRefunded k subs
    → Memᴰ r subs
    → r.id ≡ k
    → is_refunded_status r.status ≡ true
AllRefunded-Mem k r [] all m e = elim m [ ]
AllRefunded-Mem k r (x ∷ xs) all (head same) e = rw same (all.0 (rw (sym same) e))
AllRefunded-Mem k r (x ∷ xs) all (tail m) e = AllRefunded-Mem k r xs all.1 m e

AllRefunded-update :
    (sub : Subscription) (subs : List Subscription)
    → AllRefunded sub.id (update_where (with_id sub.id) (λ _. refunded_subscription sub) subs)
AllRefunded-update sub [] = tt
AllRefunded-update sub (x ∷ xs) = elim (Bool-cases (x.id == sub.id)) [
  | inl hit ↦ rw hit ((λ e. refl), AllRefunded-update sub xs)
  | inr miss ↦ rw miss ((λ e. ground arith), AllRefunded-update sub xs)
]

AllRefunded-found :
    (p : Subscription → Bool) (sub : Subscription) (subs : List Subscription)
    → IsKeyed (λ r. r.id) subs
    → find? p subs ≡ some sub
    → is_refunded_status sub.status ≡ true
    → AllRefunded sub.id subs
AllRefunded-found p sub [] k h r = tt
AllRefunded-found p sub (x ∷ xs) k h r = elim (Bool-cases (p x)) [
  | inl hit ↦
      let same : x ≡ sub = ground arith in
      (
        (λ e. rw same r),
        All-map (λ y. y.id ≢ x.id) (λ y. y.id ≡ sub.id → is_refunded_status y.status ≡ true) xs
            (λ y ne e. elim (ne (e ∙ ap (λ z. z.id) (sym same))) [ ]) k.0,
      )
  | inr miss ↦
      let below : find? p xs ≡ some sub = ground arith in
      let ne : sub.id ≢ x.id = find?-ne (λ y. y.id) x.id p xs sub k.0 below in
      ((λ e. elim (ne (sym e)) [ ]), AllRefunded-found p sub xs k.1 below r)
]

granting_status :
    (user now : ℕ) (s : Subscription)
    → is_granting user now s ≡ true
    → is_refunded_status s.status ≡ false
granting_status user now s h = ground arith

resolve-refunded :
    (plans : List Plan) (subs : List Subscription) (user k : ℕ) (level : ExamType) (now : ℕ)
    → AllRefunded k subs
    → (resolve plans subs user level now).subscription_id ≢ some k
resolve-refunded plans subs user k level now all e = elim (resolve_lem plans subs user level now) [
  | inl (c, ((m, (t, _)), _, (_, _, same))) ↦
      let id : c.sub.id ≡ k = ground arith in
      let refunded = AllRefunded-Mem k c.sub subs all m id in
      let live = granting_status user now c.sub t in cc
  | inr (free, _) ↦ let no = sym (ap (λ g. g.subscription_id) free) ∙ e in cc
]

apply_refund-some :
    (reference now : ℕ) (s t : Store) (sub : Subscription)
    → IsKeyed (λ r. r.id) s.subs
    → apply_refund reference now s ≡ (some sub, t)
    → (u : Store) × (t ≡ invalidate_cache sub.user_id u) × (AllRefunded sub.id u.subs)
unfolding apply_refund
apply_refund-some reference now s t sub k h =
    elim (Option-cases (sub_by_reference reference s.subs)) [
      | inl n ↦ let no = rw (n, apply_refund) at h in cc
      | inr (x, n) ↦ elim (Bool-cases (is_refunded_status x.status)) [
        | inl r ↦
            let run = rw (n, r, apply_refund) at h in
            let same : x ≡ sub = some_inj (ap (λ y. y.0) run) in
            (
              record s { attempts = refund_attempt reference now s.attempts },
              subst
                  (λ y.
                    t
                    ≡ invalidate_cache y.user_id
                        (record s { attempts = refund_attempt reference now s.attempts }))
                  same (sym (ap (λ y. y.1) run)),
              subst (λ y. AllRefunded y.id s.subs) same
                  (AllRefunded-found (λ s. holds_id s.provider_reference reference) x s.subs k n r),
            )
        | inr r ↦
            let run = rw (n, r, apply_refund) at h in
            let same : refunded_subscription x ≡ sub = some_inj (ap (λ y. y.0) run) in
            let u = record s {
              attempts = refund_attempt reference now s.attempts;
              subs = update_where (with_id x.id) (λ _. refunded_subscription x) s.subs;
            } in
            (
              u,
              subst (λ y. t ≡ invalidate_cache y.user_id u) same (sym (ap (λ y. y.1) run)),
              subst (λ y. AllRefunded y.id u.subs) same (AllRefunded-update x s.subs),
            )
      ]
    ]

-- When ids are unique, then after a refund that finds a subscription, that subscription grants its owner nothing: not now or
-- later, on no level, whatever the cache held.
pub apply_refund_revokes :
    (reference now at : ℕ) (level : ExamType) (s t : Store) (sub : Subscription)
    → IsKeyed (λ r. r.id) s.subs
    → apply_refund reference now s ≡ (some sub, t)
    → (entitlement_for sub.user_id level at t).0.subscription_id ≢ some sub.id
apply_refund_revokes reference now at level s t sub k h =
    let (u, same, all) = apply_refund-some reference now s t sub k h in
    rw (same, entitlement_for-invalidate_cache sub.user_id at level u)
      (resolve-refunded u.plans u.subs sub.user_id sub.id level at all)
