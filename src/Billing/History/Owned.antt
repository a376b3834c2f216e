-- ===== src/Billing/History/Owned.antt =====
-- Cancellations, refunds and the webhook handler leave each user with at most one kept row on a level
-- and account: the invariant of `IsUnique` is closed under every call.
use bondzi_backend.Prelude.{
  ℕ, ◌≤◌, ◌<◌, ◌≡◌, refl, Bool, true, false, Option, some, List, [], ◌∷◌, inl, inr, count_if,
  update_where, find?, find?-passes, All-map, All-update_where, update_where-IsKeyed, count_if-save,
  Bool-cases, Option-cases, Result-cases, arith, sym, ◌∙◌,
}
use mathlib.Core.Path.{subst}
use bondzi_backend.Enums.{ExamType, cancelled}
use bondzi_backend.Plans.{Plan}
use bondzi_backend.Billing.{
  Subscription, PaymentAttempt, Provider, Store, with_id, is_access_status, is_kept_status,
  invalidate_cache,
}
use bondzi_backend.Billing.Contract.{Keeps, trivial}
use bondzi_backend.Billing.Consume.{ConsumeOptions, is_owned, consume_paid_attempt}
use bondzi_backend.Billing.Consume.Unique.{IsUnique, consume_paid_attempt-IsUnique}
use bondzi_backend.Billing.Cancel.{cancelled_row, cancel_row, cancel_target, cancel}
use bondzi_backend.Billing.Cancel.Access.{cancel_target_ok, target_live}
use bondzi_backend.Billing.Refund.{
  refunded_subscription, is_refunded_status, sub_by_reference, apply_refund,
}
use bondzi_backend.Billing.Activation.{set_status}
use bondzi_backend.Billing.Webhook.Rows.{with_code}
use bondzi_backend.Billing.Closed.{Frame, IsListed, IsClosed}
use bondzi_backend.Billing.Closed.Frames.{consume-Frame, refund-Frame}

-- A change of rows that makes none pass the test leaves the count no higher.
count_if-update-le :
    (q p : Subscription → Bool) (row : Subscription) (xs : List Subscription)
    → q row ≡ false
    → count_if q (update_where p (λ _. row) xs) ≤ count_if q xs
count_if-update-le q p row [] h = omega arith
count_if-update-le q p row (x ∷ xs) h =
    let rest = count_if-update-le q p row xs h in
    elim (Bool-cases (p x)) [
      | inl hit ↦ rw (hit, h) (omega arith)
      | inr miss ↦ rw miss (omega arith)
    ]

is_owned-refunded :
    (plans : List Plan) (user : ℕ) (plan : Plan) (x : Subscription)
    → is_owned plans user plan (refunded_subscription x) ≡ false
is_owned-refunded plans user plan x = ground arith

is_owned-cancelled :
    (plans : List Plan) (user : ℕ) (plan : Plan) (x : Subscription)
    → is_access_status x.status ≡ true
    → is_owned plans user plan (cancelled_row x) ≡ is_owned plans user plan x
is_owned-cancelled plans user plan x live =
    let kept : is_kept_status x.status ≡ true = ground arith in rw kept refl

cancel_row-IsUnique :
    (p : Subscription → Bool) (x : Subscription) (user : ℕ) (s : Store)
    → find? p s.subs ≡ some x
    → is_access_status x.status ≡ true
    → IsUnique s
    → IsUnique (invalidate_cache user (cancel_row x s))
cancel_row-IsUnique p x user s found live h = record {
  keyed =
      update_where-IsKeyed (λ r. r.id) (with_id x.id) (λ _. cancelled_row x) s.subs
        (λ r hit. ground arith) h.keyed;
  below =
      All-update_where (λ r. r.id < s.next_id) (with_id x.id) (λ _. cancelled_row x) s.subs
        (λ r lt hit. ground arith) h.below;
  single = λ v q.
      rw
        (count_if-save (λ r. r.id) (is_owned s.plans v q) p x (cancelled_row x) s.subs h.keyed found
          (is_owned-cancelled s.plans v q x live))
        (h.single v q);
}

pub cancel-IsUnique :
    (user now : ℕ) (level : Option ExamType) (s : Store)
    → IsUnique s
    → IsUnique (cancel user level now s).1
unfolding cancel
cancel-IsUnique user now level s h = elim (Result-cases (cancel_target user level now s)) [
  | inr (e, n) ↦ rw (n, cancel) h
  | inl (x, n) ↦
      let found = cancel_target_ok user now level s x n in
      let live = target_live s.plans user now _ x (find?-passes _ s.subs x found) in
      rw (n, cancel) (cancel_row-IsUnique _ x user s found live.0 h)
]

pub cancel-plans :
    (user now : ℕ) (level : Option ExamType) (s : Store)
    → (cancel user level now s).1.plans ≡ s.plans
unfolding cancel
cancel-plans user now level s = elim (Result-cases (cancel_target user level now s)) [
  | inr (e, n) ↦ rw (n, cancel) refl
  | inl (x, n) ↦ rw (n, cancel) refl
]

pub refund-IsUnique :
    (reference now : ℕ) (s : Store) → IsUnique s → IsUnique (apply_refund reference now s).1
unfolding apply_refund
refund-IsUnique reference now s h = elim (Option-cases (sub_by_reference reference s.subs)) [
  | inl n ↦ rw (n, apply_refund) (record { keyed = h.keyed; below = h.below; single = h.single })
  | inr (x, n) ↦ elim (Bool-cases (is_refunded_status x.status)) [
    | inl r ↦
        rw (n, r, apply_refund) (record { keyed = h.keyed; below = h.below; single = h.single })
    | inr r ↦
        rw (n, r, apply_refund)
          (record {
            keyed =
                update_where-IsKeyed (λ r. r.id) (with_id x.id) (λ _. refunded_subscription x)
                  s.subs (λ r hit. ground arith) h.keyed;
            below =
                All-update_where (λ r. r.id < s.next_id) (with_id x.id)
                  (λ _. refunded_subscription x) s.subs (λ r lt hit. ground arith) h.below;
            single = λ v q.
                let le =
                  count_if-update-le (is_owned s.plans v q) (with_id x.id) (refunded_subscription x)
                    s.subs (is_owned-refunded s.plans v q x) in
                let old = h.single v q in omega arith;
          })
  ]
]

-- A row that was found is saved under its id, and counts as before.
save-IsUnique :
    (p : Subscription → Bool) (x row : Subscription) (s : Store)
    → find? p s.subs ≡ some x
    → row.id ≡ x.id
    → ((v : ℕ) (q : Plan) → is_owned s.plans v q row ≡ is_owned s.plans v q x)
    → IsUnique s
    → IsUnique (record s { subs = update_where (with_id x.id) (λ _. row) s.subs })
save-IsUnique p x row s found id same h = record {
  keyed =
      update_where-IsKeyed (λ r. r.id) (with_id x.id) (λ _. row) s.subs (λ r hit. ground arith)
        h.keyed;
  below =
      All-update_where (λ r. r.id < s.next_id) (with_id x.id) (λ _. row) s.subs
        (λ r lt hit. ground arith) h.below;
  single = λ v q.
      rw (count_if-save (λ r. r.id) (is_owned s.plans v q) p x row s.subs h.keyed found (same v q))
        (h.single v q);
}

-- the invariant, over a fixed catalogue
pub record IsSound (ps : List Plan) (s : Store) : Type 0 where
  pub unique : IsUnique s
  pub catalogue : s.plans ≡ ps

-- what a row has to be before an event marks it as cancelled
abbrev pub WasKept : Subscription → Type 0
WasKept sub = is_kept_status sub.status ≡ true

pub same_subs-IsSound :
    (ps : List Plan) (s t : Store) → Frame s t → t.subs ≡ s.subs → IsSound ps s → IsSound ps t
same_subs-IsSound ps s t f e h = record {
  unique = record {
    keyed = rw (e) h.unique.keyed;
    below = rw (e) (
        All-map (λ r. r.id < s.next_id) (λ r. r.id < t.next_id) s.subs
          (λ r lt. omega (arith, f.ids)) h.unique.below);
    single = λ v q. rw (e, f.plans) (h.unique.single v q);
  };
  catalogue = f.plans ∙ h.catalogue;
}

consume-IsSound :
    (ps : List Plan) (provider : Provider) (attempt : PaymentAttempt) (plan : Plan)
    (opts : ConsumeOptions) (now : ℕ)
    → IsListed ps plan
    → Keeps (IsSound ps) (consume_paid_attempt provider attempt plan opts now)
consume-IsSound ps provider attempt plan opts now listed = record {
  run = λ s h. (
    record {
      unique =
          consume_paid_attempt-IsUnique provider attempt plan opts now s
            (subst (λ l. IsListed l plan) (sym h.catalogue) listed) h.unique;
      catalogue = (consume-Frame provider attempt plan opts now s).plans ∙ h.catalogue;
    },
    trivial (consume_paid_attempt provider attempt plan opts now s).0,
  );
}

pub IsSound-IsClosed : (ps : List Plan) → IsClosed ps WasKept (IsSound ps)
IsSound-IsClosed ps = record {
  catalogue = λ s h. h.catalogue;
  same_subs = same_subs-IsSound ps;
  consume = consume-IsSound ps;
  refund = λ reference now s h. record {
    unique = refund-IsUnique reference now s h.unique;
    catalogue = (refund-Frame reference now s).plans ∙ h.catalogue;
  };
  code = λ customer code sub s found h. record {
    unique = save-IsUnique _ sub (with_code code sub) s found refl (λ v q. refl) h.unique;
    catalogue = h.catalogue;
  };
  disable = λ code sub s found g h. record {
    unique =
        save-IsUnique _ sub (set_status cancelled sub) s found refl (λ v q. rw (g) refl) h.unique;
    catalogue = h.catalogue;
  };
}
