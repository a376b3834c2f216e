-- ===== src/Billing/Attempts/Lifecycle.antt =====
-- The states that the methods of payment-attempts.service.ts lead a row through.
use mathlib.Core.Path.{subst}
use bondzi_backend.Prelude.{
  ℕ, ◌+◌, ◌-◌, ◌≡◌, refl, sym, ap, ◌∙◌, Bool, true, false, Option, none, some, List, [], ◌∷◌, inl,
  inr, ◌==◌, find?-passes, any, count_if, update_where, Bool-cases, Option-cases, ok, arith,
  or_else, some_inj, ok_inj, ◌>>=◌, ==_refl,
}
use bondzi_backend.Enums.{PaymentAttemptStatus, paid, abandoned}
use bondzi_backend.Billing.{PaymentAttempt, FailureReason}
use bondzi_backend.Billing.Attempts.{
  is_paid, is_refunded, is_settled, with_id, find_by_id, find_or_fail, save, paid_row, mark_paid,
  failed_row, mark_failed, refunded_row, mark_refunded, is_stale, sweep_abandoned,
}

pub find_by_id-save :
    (new old : PaymentAttempt) (rows : List PaymentAttempt)
    → find_by_id new.id rows ≡ some old
    → find_by_id new.id (save new rows) ≡ some new
find_by_id-save new old [] h = cc
find_by_id-save new old (x ∷ xs) h = elim (Bool-cases (x.id == new.id)) [
  | inl hit ↦ rw (hit, ==_refl new.id) refl
  | inr miss ↦ rw (miss, miss) (find_by_id-save new old xs (rw miss at h))
]

pub find_by_id-save_other :
    (k : ℕ) (new : PaymentAttempt) (rows : List PaymentAttempt)
    → (new.id == k) ≡ false
    → find_by_id k (save new rows) ≡ find_by_id k rows
find_by_id-save_other k new [] h = refl
find_by_id-save_other k new (x ∷ xs) h = elim (Bool-cases (x.id == new.id)) [
  | inl hit ↦
      let miss : (x.id == k) ≡ false = ground arith in
      rw (hit, h, miss) (find_by_id-save_other k new xs h)
  | inr miss ↦ rw miss (ground (arith, find_by_id-save_other k new xs h))
]

save_twice :
    (new : PaymentAttempt) (rows : List PaymentAttempt) → save new (save new rows) ≡ save new rows
save_twice new [] = refl
save_twice new (x ∷ xs) = elim (Bool-cases (x.id == new.id)) [
  | inl hit ↦ rw (hit, ==_refl new.id) (ap (λ r. new ∷ r) (save_twice new xs))
  | inr miss ↦ rw (miss, miss) (ap (λ r. x ∷ r) (save_twice new xs))
]

paid_row-id : (e c : Option ℕ) (now : ℕ) (a : PaymentAttempt) → (paid_row e c now a).id ≡ a.id
unfolding paid_row
paid_row-id e c now a = ground arith

paid_row-status :
    (e c : Option ℕ) (now : ℕ) (a : PaymentAttempt) → (paid_row e c now a).status ≡ paid
unfolding paid_row
paid_row-status e c now a = elim (Bool-cases (is_paid a.status)) [
  | inl h ↦ rw h (ground arith)
  | inr h ↦ rw h refl
]

or_else_given :
    (o : Option ℕ) (x : ℕ) (e : Option ℕ) → or_else (or_else o (some x)) e ≡ or_else o (some x)
or_else_given none x e = refl
or_else_given (some y) x e = refl

find_by_id-id :
    (id : ℕ) (rows : List PaymentAttempt) (a : PaymentAttempt)
    → find_by_id id rows ≡ some a
    → a.id ≡ id
find_by_id-id id rows a h = let p = find?-passes (with_id id) rows a h in ground arith

paid_row_again :
    (event customer now later : ℕ) (e c : Option ℕ) (a : PaymentAttempt)
    → paid_row e c later (paid_row (some event) (some customer) now a)
      ≡ paid_row (some event) (some customer) now a
unfolding paid_row
paid_row_again event customer now later e c a = elim (Bool-cases (is_paid a.status)) [
  | inl h ↦
      rw
        (
          h,
          h,
          or_else_given a.provider_event_id event e,
          or_else_given a.provider_customer_id customer c,
        )
        refl
  | inr h ↦ rw h refl
]

-- the three methods that find a row, change it and save it
saved_row :
    (f : PaymentAttempt → PaymentAttempt) (id : ℕ) (rows after : List PaymentAttempt)
    → (do a ← find_or_fail id rows; ok (save (f a) rows)) ≡ ok after
    → (a : PaymentAttempt) × (find_by_id id rows ≡ some a) × (save (f a) rows ≡ after)
saved_row f id rows after h = elim (Option-cases (find_by_id id rows)) [
  | inl n ↦ let no = rw (n, find_or_fail) at h in cc
  | inr (a, n) ↦ (a, n, ok_inj (rw (n, find_or_fail) at h))
]

save_found :
    (f : PaymentAttempt → PaymentAttempt) (id : ℕ) (rows : List PaymentAttempt) (a : PaymentAttempt)
    → find_by_id id rows ≡ some a
    → (do b ← find_or_fail id rows; ok (save (f b) rows)) ≡ ok (save (f a) rows)
save_found f id rows a n = rw (n, find_or_fail) refl

-- the saved row is the one that the id finds
find_by_id-saved :
    (f : PaymentAttempt → PaymentAttempt) (id : ℕ) (rows : List PaymentAttempt) (a : PaymentAttempt)
    → ((x : PaymentAttempt) → (f x).id ≡ x.id)
    → find_by_id id rows ≡ some a
    → find_by_id id (save (f a) rows) ≡ some (f a)
find_by_id-saved f id rows a k n =
    let named : (f a).id ≡ id = k a ∙ find_by_id-id id rows a n in
    subst (λ i. find_by_id i (save (f a) rows) ≡ some (f a)) named
      (find_by_id-save (f a) a rows (rw named n))

-- A second `markPaid` of an attempt that was paid with both identifiers changes nothing.
mark_paid_again :
    (id event customer now later : ℕ) (e c : Option ℕ) (rows after : List PaymentAttempt)
    → mark_paid id (some event) (some customer) now rows ≡ ok after
    → mark_paid id e c later after ≡ ok after
unfolding mark_paid
mark_paid_again id event customer now later e c rows after h =
    let (a, n, saved) = saved_row (paid_row (some event) (some customer) now) id rows after h in
    let new = paid_row (some event) (some customer) now a in
    let found : find_by_id id after ≡ some new =
      subst (λ r. find_by_id id r ≡ some new) saved
        (find_by_id-saved (paid_row (some event) (some customer) now) id rows a
          (paid_row-id (some event) (some customer) now) n) in
    save_found (paid_row e c later) id after new found
    ∙ ap ok (rw (paid_row_again event customer now later e c a, sym saved) (save_twice new rows))

failed_row_settled :
    (reason : FailureReason) (now : ℕ) (a : PaymentAttempt)
    → is_settled a.status ≡ true
    → failed_row reason now a ≡ a
unfolding failed_row
failed_row_settled reason now a h = rw h refl

failed_row-id :
    (reason : FailureReason) (now : ℕ) (a : PaymentAttempt) → (failed_row reason now a).id ≡ a.id
unfolding failed_row
failed_row-id reason now a = ground arith

-- A failure leaves every attempt that was paid or refunded as it is.
mark_failed_settled :
    (id k now : ℕ) (reason : FailureReason) (rows after : List PaymentAttempt) (a : PaymentAttempt)
    → mark_failed id reason now rows ≡ ok after
    → find_by_id k rows ≡ some a
    → is_settled a.status ≡ true
    → find_by_id k after ≡ some a
unfolding mark_failed
mark_failed_settled id k now reason rows after a h found settled =
    let (b, n, saved) = saved_row (failed_row reason now) id rows after h in
    let named : b.id ≡ id = find_by_id-id id rows b n in
    elim (Bool-cases (id == k)) [
      | inl hit ↦
          let same_id : id ≡ k = ground arith in
          let same : a ≡ b = some_inj (sym found ∙ ap (λ i. find_by_id i rows) (sym same_id) ∙ n) in
          let kept : failed_row reason now b ≡ a =
            rw (sym same) (failed_row_settled reason now a settled) in
          let at_id : find_by_id id after ≡ some a =
            subst (λ r. find_by_id id r ≡ some a) saved
              (find_by_id-saved (failed_row reason now) id rows b (failed_row-id reason now) n
                ∙ ap some kept) in
          rw (sym same_id) at_id
      | inr miss ↦
          let other : ((failed_row reason now b).id == k) ≡ false =
            rw (failed_row-id reason now b, named) miss in
          subst (λ r. find_by_id k r ≡ some a) saved
            (find_by_id-save_other k (failed_row reason now b) rows other ∙ found)
    ]

refunded_row-id : (now : ℕ) (a : PaymentAttempt) → (refunded_row now a).id ≡ a.id
unfolding refunded_row
refunded_row-id now a = ground arith

refunded_row-status :
    (now : ℕ) (a : PaymentAttempt) → is_refunded (refunded_row now a).status ≡ true
unfolding refunded_row
refunded_row-status now a = elim (Bool-cases (is_refunded a.status)) [
  | inl h ↦ rw (h, h) refl
  | inr h ↦ rw h refl
]

refunded_row-alarm : (now : ℕ) (a : PaymentAttempt) → (refunded_row now a).alarm ≡ a.alarm
unfolding refunded_row
refunded_row-alarm now a = ground arith

-- A refunded attempt reads as refunded.
pub mark_refunded_status :
    (id now : ℕ) (rows after : List PaymentAttempt)
    → mark_refunded id now rows ≡ ok after
    → (a : PaymentAttempt) × (find_by_id id after ≡ some a) × (is_refunded a.status ≡ true)
unfolding mark_refunded
mark_refunded_status id now rows after h =
    let (b, n, saved) = saved_row (refunded_row now) id rows after h in
    (
      refunded_row now b,
      subst (λ r. find_by_id id r ≡ some (refunded_row now b)) saved
          (find_by_id-saved (refunded_row now) id rows b (refunded_row-id now) n),
      refunded_row-status now b,
    )

-- `markRefunded` of an attempt in the table: it succeeds, and the row that the id finds is refunded
-- with its alarm kept.
pub mark_refunded_found :
    (id now : ℕ) (rows : List PaymentAttempt) (a : PaymentAttempt)
    → find_by_id id rows ≡ some a
    → (after : List PaymentAttempt) × (b : PaymentAttempt) × (mark_refunded id now rows ≡ ok after)
      × (find_by_id id after ≡ some b)
      × (is_refunded b.status ≡ true)
      × (b.alarm ≡ a.alarm)
unfolding mark_refunded
mark_refunded_found id now rows a n = (
  save (refunded_row now a) rows,
  refunded_row now a,
  save_found (refunded_row now) id rows a n,
  find_by_id-saved (refunded_row now) id rows a (refunded_row-id now) n,
  refunded_row-status now a,
  refunded_row-alarm now a,
)

-- `markPaid` looks at PAID only: an attempt that was refunded is made PAID again.
mark_paid_refunded :
    (id now later : ℕ) (e c : Option ℕ) (rows after : List PaymentAttempt)
    → mark_refunded id now rows ≡ ok after
    → (last : List PaymentAttempt) × (a : PaymentAttempt) × (mark_paid id e c later after ≡ ok last)
      × (find_by_id id last ≡ some a)
      × (a.status ≡ paid)
unfolding mark_paid
mark_paid_refunded id now later e c rows after h =
    let (b, found, _) = mark_refunded_status id now rows after h in
    let new = paid_row e c later b in
    (
      save new after,
      new,
      save_found (paid_row e c later) id after b found,
      find_by_id-saved (paid_row e c later) id after b (paid_row-id e c later) found,
      paid_row-status e c later b,
    )

abbrev pub is_abandoned : PaymentAttemptStatus → Bool
is_abandoned abandoned = true
is_abandoned _ = false

count_stale :
    (cutoff now : ℕ) (rows : List PaymentAttempt)
    → count_if
        (λ a. is_abandoned a.status)
        (update_where
          (is_stale cutoff)
          (λ a. record a { status = abandoned; abandoned_at = some now })
          rows)
      ≡ count_if (is_stale cutoff) rows + count_if (λ a. is_abandoned a.status) rows
count_stale cutoff now [] = refl
count_stale cutoff now (x ∷ xs) =
    let rest = count_stale cutoff now xs in
    elim (Bool-cases (is_stale cutoff x)) [
      | inl hit ↦
          let fresh : is_abandoned x.status ≡ false = ground arith in rw (hit, fresh) (omega arith)
      | inr miss ↦ rw miss (omega arith)
    ]

none_stale :
    (cutoff now : ℕ) (rows : List PaymentAttempt)
    → any (is_stale cutoff) (
        update_where
          (is_stale cutoff)
          (λ a. record a { status = abandoned; abandoned_at = some now })
          rows)
      ≡ false
none_stale cutoff now [] = refl
none_stale cutoff now (x ∷ xs) = elim (Bool-cases (is_stale cutoff x)) [
  | inl hit ↦ rw hit (none_stale cutoff now xs)
  | inr miss ↦ rw (miss, miss) (none_stale cutoff now xs)
]

-- The sweep leaves no attempt pending that was opened before the cutoff, and the number that it
-- returns is the number of attempts that became abandoned.
sweep_abandoned_lem :
    (older_than now : ℕ) (rows : List PaymentAttempt)
    → (any (is_stale (now - older_than)) (sweep_abandoned older_than now rows).1 ≡ false)
      × (count_if (λ a. is_abandoned a.status) (sweep_abandoned older_than now rows).1
          ≡ (sweep_abandoned older_than now rows).0 + count_if (λ a. is_abandoned a.status) rows)
unfolding sweep_abandoned
sweep_abandoned_lem older_than now rows =
    (none_stale (now - older_than) now rows, count_stale (now - older_than) now rows)
