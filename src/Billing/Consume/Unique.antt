-- ===== src/Billing/Consume/Unique.antt =====
-- The rows of a user on one level and account when `consumePaidAttempt` runs.
use bondzi_backend.Prelude.{
  ℕ, ◌+◌, ◌≤◌, ◌<◌, ◌≡◌, ◌≢◌, refl, sym, ◌∙◌, true, ◌&&◌, Option, none, some, List, inl, inr, ◌==◌,
  find?, count_if, update_where, find?-passes, All, All-map, All-update_where, any_of_find?-none,
  count_if_of_any, IsKeyed, update_where-IsKeyed, count_if-save, Bool-cases, Option-cases,
  Result-cases, HttpError, conflict, ok, err, ◌⊎◌, arith,
}
use bondzi_backend.Enums.{
  PaymentKind, BillingInterval, level_eq, account_eq, level_eq_iff, account_eq_iff,
}
use bondzi_backend.Plans.{Plan, plan_by_id}
use bondzi_backend.Billing.{
  Subscription, PaymentAttempt, Provider, ProviderCall, Store, is_kept_status, plan_of, with_id,
}
use bondzi_backend.Billing.Consume.{
  ConsumeOptions, is_owned, existing_for, new_subscription, renewed, insert_subscription,
  charge_once, charge_recurring, charge, refund_duplicate, charge_interval, is_cancelled_row,
  follow_up, activate, consume_paid_attempt,
}

-- Ids are unique and below the next one, and no user has two kept rows on the level and the
-- account of a plan.
pub record IsUnique (s : Store) : Type 0 where
  pub keyed : IsKeyed (λ r. r.id) s.subs
  pub below : All (λ r. r.id < s.next_id) s.subs
  pub single : (user : ℕ) (plan : Plan) → count_if (is_owned s.plans user plan) s.subs ≤ 1

-- the tests for two plans agree when level and account do
charge_interval_err :
    (kind : PaymentKind) (i : Option BillingInterval) (e : HttpError)
    → charge_interval kind i ≡ err e
    → e ≡ conflict
unfolding charge_interval
charge_interval_err kind i e h = ground arith

is_owned_new :
    (plans : List Plan) (plan q : Plan) (attempt : PaymentAttempt) (opts : ConsumeOptions)
    (interval : Option BillingInterval) (code expires : Option ℕ) (id now user : ℕ)
    → plan_by_id plan.id plans ≡ some plan
    → is_owned plans user q (new_subscription id attempt plan opts interval code expires now) ≡ (
        attempt.user_id == user
        && (level_eq plan.level q.level && account_eq plan.account q.account))
unfolding new_subscription
is_owned_new plans plan q attempt opts interval code expires id now user h = rw (h) refl

id_new :
    (id : ℕ) (attempt : PaymentAttempt) (plan : Plan) (opts : ConsumeOptions)
    (interval : Option BillingInterval) (code expires : Option ℕ) (now : ℕ)
    → (new_subscription id attempt plan opts interval code expires now).id ≡ id
unfolding new_subscription
id_new id attempt plan opts interval code expires now = refl

id_renewed :
    (attempt : PaymentAttempt) (plan : Plan) (opts : ConsumeOptions) (i : BillingInterval)
    (expiry : ℕ) (e : Subscription)
    → (renewed attempt plan opts i expiry e).id ≡ e.id
unfolding renewed
id_renewed attempt plan opts i expiry e = refl

is_owned-renewed :
    (plans : List Plan) (plan q : Plan) (attempt : PaymentAttempt) (opts : ConsumeOptions)
    (i : BillingInterval) (expiry user : ℕ) (e : Subscription)
    → plan_by_id plan.id plans ≡ some plan
    → is_owned plans attempt.user_id plan e ≡ true
    → is_owned plans user q (renewed attempt plan opts i expiry e) ≡ (
        attempt.user_id == user
        && (level_eq plan.level q.level && account_eq plan.account q.account))
unfolding renewed
is_owned-renewed plans plan q attempt opts i expiry user e h mine =
    let who : e.user_id ≡ attempt.user_id = ground arith in rw (h, who) refl

owned_matches :
    (plans : List Plan) (user : ℕ) (plan : Plan) (e : Subscription)
    → is_owned plans user plan e ≡ true
    → (q : Plan) (v : ℕ)
    → is_owned plans v q e
      ≡ (user == v && (level_eq plan.level q.level && account_eq plan.account q.account))
owned_matches plans user plan e h q v = elim (Option-cases (plan_of plans e)) [
  | inl n ↦ let no = rw (n) at h in ground arith
  | inr (p, n) ↦
      let yes = rw (n) at h in
      let who : e.user_id ≡ user = ground arith in
      let kept : is_kept_status e.status ≡ true = ground arith in
      let lev : p.level ≡ plan.level = (level_eq_iff p.level plan.level).0 (ground arith) in
      let acc : p.account ≡ plan.account =
        (account_eq_iff p.account plan.account).0 (ground arith) in
      rw (n, who, kept, lev, acc) refl
]

-- no row is owned, so none is owned under another plan of the same level and account
count_owned_zero :
    (plans : List Plan) (user v : ℕ) (plan q : Plan) (subs : List Subscription)
    → find? (is_owned plans user plan) subs ≡ none
    → (user == v && (level_eq plan.level q.level && account_eq plan.account q.account)) ≡ true
    → count_if (is_owned plans v q) subs ≡ 0
count_owned_zero plans user v plan q subs h same =
    let who : user ≡ v = ground arith in
    let lev : plan.level ≡ q.level = (level_eq_iff plan.level q.level).0 (ground arith) in
    let acc : plan.account ≡ q.account = (account_eq_iff plan.account q.account).0 (ground arith) in
    let nothing : find? (is_owned plans v q) subs ≡ none = rw (sym who, sym lev, sym acc) h in
    count_if_of_any (is_owned plans v q) subs (any_of_find?-none (is_owned plans v q) subs nothing)

insert-IsUnique :
    (row : Subscription) (user : ℕ) (plan : Plan) (s : Store)
    → row.id ≡ s.next_id
    → existing_for user plan s ≡ none
    → ((q : Plan) (v : ℕ)
        → is_owned s.plans v q row
          ≡ (user == v && (level_eq plan.level q.level && account_eq plan.account q.account)))
    → IsUnique s
    → IsUnique (insert_subscription row s)
insert-IsUnique row user plan s id nothing owned h = record {
  keyed = (
    All-map (λ r. r.id < s.next_id) (λ r. r.id ≢ row.id) s.subs (λ r lt e. omega (arith, id))
        h.below,
    h.keyed,
  );
  below = (
    omega (arith, id),
    All-map (λ r. r.id < s.next_id) (λ r. r.id < s.next_id + 1) s.subs (λ r lt. omega arith)
        h.below,
  );
  single = λ v q. elim (Bool-cases (is_owned s.plans v q row)) [
    | inl hit ↦
        let zero_before =
          count_owned_zero s.plans user v plan q s.subs nothing (sym (owned q v) ∙ hit) in
        rw (hit, zero_before) (omega arith)
    | inr miss ↦ let old = h.single v q in rw miss (omega arith)
  ];
}

update-IsUnique :
    (existing row : Subscription) (user : ℕ) (plan : Plan) (calls : List ProviderCall) (s : Store)
    → row.id ≡ existing.id
    → existing_for user plan s ≡ some existing
    → ((q : Plan) (v : ℕ)
        → is_owned s.plans v q row
          ≡ (user == v && (level_eq plan.level q.level && account_eq plan.account q.account)))
    → IsUnique s
    → IsUnique (record s {
      subs = update_where (with_id existing.id) (λ _. row) s.subs;
      provider_calls = calls;
    })
update-IsUnique existing row user plan calls s id found owned h =
    let mine = find?-passes (is_owned s.plans user plan) s.subs existing found in
    record {
      keyed =
          update_where-IsKeyed (λ r. r.id) (with_id existing.id) (λ _. row) s.subs
            (λ r hit. ground arith) h.keyed;
      below =
          All-update_where (λ r. r.id < s.next_id) (with_id existing.id) (λ _. row) s.subs
            (λ r lt hit. ground arith) h.below;
      single = λ v q.
          rw
            (count_if-save (λ r. r.id) (is_owned s.plans v q) (is_owned s.plans user plan) existing
              row s.subs h.keyed found
              (owned q v ∙ sym (owned_matches s.plans user plan existing mine q v)))
            (h.single v q);
    }

charge-IsUnique :
    (provider : Provider) (attempt : PaymentAttempt) (plan : Plan) (opts : ConsumeOptions)
    (interval : Option BillingInterval) (now : ℕ) (s : Store)
    → plan_by_id plan.id s.plans ≡ some plan
    → IsUnique s
    → IsUnique (charge provider attempt plan opts interval now s).1
unfolding charge charge_once charge_recurring refund_duplicate
charge-IsUnique provider attempt plan opts none now s p h =
    elim (Option-cases (existing_for attempt.user_id plan s)) [
      | inl e ↦
          rw (e, charge)
            (insert-IsUnique _ attempt.user_id plan s
              (id_new _ attempt plan opts none none none now) e
              (λ q v. is_owned_new s.plans plan q attempt opts none none none s.next_id now v p) h)
      | inr (x, e) ↦ rw (e, charge) (record { keyed = h.keyed; below = h.below; single = h.single })
    ]
charge-IsUnique provider attempt plan opts (some i) now s p h =
    elim (Option-cases (existing_for attempt.user_id plan s)) [
      | inl e ↦
          rw (e, charge)
            (insert-IsUnique _ attempt.user_id plan s (id_new _ attempt plan opts (some i) _ _ now)
              e (λ q v. is_owned_new s.plans plan q attempt opts (some i) _ _ s.next_id now v p) h)
      | inr (x, e) ↦
          rw (e, charge)
            (update-IsUnique x _ attempt.user_id plan _ s (id_renewed attempt plan opts i _ x) e
              (λ q v.
                is_owned-renewed s.plans plan q attempt opts i _ v x p
                  (find?-passes (is_owned s.plans attempt.user_id plan) s.subs x e))
              h)
    ]

-- A consumed attempt either is refused, and nothing changes, or runs to its end.
pub consume_paid_attempt-cases :
    (provider : Provider) (attempt : PaymentAttempt) (plan : Plan) (opts : ConsumeOptions) (now : ℕ)
    (s : Store)
    → (consume_paid_attempt provider attempt plan opts now s ≡ (err conflict, s))
      ⊎ ((interval : Option BillingInterval) × (charge_interval plan.payment_kind
              attempt.billing_interval
            ≡ ok interval)
          × (consume_paid_attempt provider attempt plan opts now s
              ≡ activate provider attempt plan opts interval now s))
unfolding consume_paid_attempt
consume_paid_attempt-cases provider attempt plan opts now s =
    elim (Result-cases (charge_interval plan.payment_kind attempt.billing_interval)) [
      | inr (e, h) ↦
          let same = charge_interval_err plan.payment_kind attempt.billing_interval e h in
          inl (rw (h, same, consume_paid_attempt) refl)
      | inl (i, h) ↦
          elim (Bool-cases
            (opts.is_renewal && is_cancelled_row (existing_for attempt.user_id plan s))) [
              | inl g ↦ inl (rw (h, g, consume_paid_attempt) refl)
              | inr g ↦ inr (i, h, rw (h, g, consume_paid_attempt) refl)
            ]
    ]

activate-IsUnique :
    (provider : Provider) (attempt : PaymentAttempt) (plan : Plan) (opts : ConsumeOptions)
    (interval : Option BillingInterval) (now : ℕ) (s : Store)
    → plan_by_id plan.id s.plans ≡ some plan
    → IsUnique s
    → IsUnique (activate provider attempt plan opts interval now s).1
unfolding activate follow_up
activate-IsUnique provider attempt plan opts interval now s p h =
    let done = charge-IsUnique provider attempt plan opts interval now s p h in
    record { keyed = done.keyed; below = done.below; single = done.single }

-- Whatever a consumed attempt for a plan of the table does, also when it is refused, no user comes
-- to have two rows on one level and account that are neither refunded nor expired.
pub consume_paid_attempt-IsUnique :
    (provider : Provider) (attempt : PaymentAttempt) (plan : Plan) (opts : ConsumeOptions) (now : ℕ)
    (s : Store)
    → plan_by_id plan.id s.plans ≡ some plan
    → IsUnique s
    → IsUnique (consume_paid_attempt provider attempt plan opts now s).1
consume_paid_attempt-IsUnique provider attempt plan opts now s p h =
    elim (consume_paid_attempt-cases provider attempt plan opts now s) [
      | inl e ↦ rw e h
      | inr (i, _, e) ↦ rw e (activate-IsUnique provider attempt plan opts i now s p h)
    ]
