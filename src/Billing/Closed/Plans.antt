-- ===== src/Billing/Closed/Plans.antt =====
-- The plan that a webhook event is resolved to is the row of its id.
use bondzi_backend.Prelude.{
  ℕ, ◌≡◌, ◌≢◌, ap, ◌∙◌, Bool, Option, none, some, List, [], ◌∷◌, inl, inr, ◌==◌, find?, find?-ne,
  find?-passes, IsKeyed, ok, err, Result, Bool-cases, Option-cases, Found, arith,
}
use bondzi_backend.Plans.{Plan, plan_by_id}
use bondzi_backend.Billing.{Subscription, Store}
use bondzi_backend.Billing.Refund.{sub_by_reference}
use bondzi_backend.Billing.Webhook.{
  Event, sub_by_customer, plan_by_code, plan_of_row, plan_by_customer, plan_by_row, resolve_plan,
}
use bondzi_backend.Billing.Closed.{IsListed}

-- in a keyed table, the first row that passes a test is the row of its id
IsListed-find? :
    (p : Plan → Bool) (ps : List Plan) (e : Plan)
    → IsKeyed (λ q. q.id) ps
    → find? p ps ≡ some e
    → IsListed ps e
IsListed-find? p [] e k h = cc
IsListed-find? p (x ∷ ps) e k h = elim (Bool-cases (p x)) [
  | inl hit ↦ let top : x ≡ e = ground arith in ground arith
  | inr miss ↦
      let below : find? p ps ≡ some e = ground arith in
      let ne : e.id ≢ x.id = find?-ne (λ q. q.id) x.id p ps e k.0 below in
      ground (arith, IsListed-find? p ps e k.1 below)
]

plan_by_id-IsListed :
    (id : ℕ) (ps : List Plan) (e : Plan) → plan_by_id id ps ≡ some e → IsListed ps e
plan_by_id-IsListed id ps e h =
    let here : e.id ≡ id = ground (arith, find?-passes (λ q. q.id == id) ps e h) in
    ap (λ k. plan_by_id k ps) here ∙ h

-- a call that returned a plan returned a listed one
abbrev pub Listed : List Plan → Result (Option Plan) → Type 0
Listed ps (ok o) = Found (IsListed ps) o
Listed ps (err e) = Unit

plan_of_row-Listed :
    (o : Option Subscription) (next : Unit {0} → Store → Result (Option Plan)) (s : Store)
    → Listed s.plans (next tt s)
    → Listed s.plans (plan_of_row o next s)
plan_of_row-Listed none next s h = h
plan_of_row-Listed (some sub) next s h = elim (Option-cases sub.plan_id) [
  | inl n ↦ rw (n) h
  | inr (id, n) ↦ elim (Option-cases (plan_by_id id s.plans)) [
    | inl m ↦ rw (n, m) tt
    | inr (p, m) ↦ rw (n, m) (plan_by_id-IsListed id s.plans p m)
  ]
]

plan_by_customer-Listed : (event : Event) (s : Store) → Listed s.plans (plan_by_customer event s)
plan_by_customer-Listed event s = elim (Option-cases event.customer_id) [
  | inl n ↦ rw (n) tt
  | inr (customer, n) ↦
      rw (n) (plan_of_row-Listed (sub_by_customer customer s.subs) (λ _ _. ok none) s tt)
]

plan_by_row-Listed : (event : Event) (s : Store) → Listed s.plans (plan_by_row event s)
plan_by_row-Listed event s = elim (Option-cases event.reference) [
  | inl n ↦ rw (n) (plan_by_customer-Listed event s)
  | inr (reference, n) ↦ rw (n) (
      plan_of_row-Listed (sub_by_reference reference s.subs) (λ _. plan_by_customer event) s
        (plan_by_customer-Listed event s))
]

-- In a catalogue with one plan to an id, a resolved plan is the row of its id.
pub resolve_plan-Listed :
    (event : Event) (s : Store)
    → IsKeyed (λ q. q.id) s.plans
    → Listed s.plans (resolve_plan event s)
unfolding resolve_plan
resolve_plan-Listed event s k = elim (Option-cases event.plan_code) [
  | inl n ↦ rw (n, resolve_plan) (plan_by_row-Listed event s)
  | inr (code, n) ↦ elim (Option-cases (plan_by_code code s.plans)) [
    | inl m ↦ rw (n, m, resolve_plan) (plan_by_row-Listed event s)
    | inr (p, m) ↦ rw (n, m, resolve_plan) (IsListed-find? _ s.plans p k m)
  ]
]
