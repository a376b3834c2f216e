-- ===== src/Billing/Closed/Frames.antt =====
-- What `consumePaidAttempt`, `applyRefund` and the record of a received event leave alone.
use bondzi_backend.Prelude.{
  ℕ, ◌≡◌, refl, Option, none, some, inl, inr, find?, Bool-cases, Option-cases, Result-cases, arith,
  ◌&&◌,
}
use bondzi_backend.Enums.{BillingInterval}
use bondzi_backend.Plans.{Plan}
use bondzi_backend.Billing.{Subscription, PaymentAttempt, Provider, Store}
use bondzi_backend.Billing.Consume.{
  ConsumeOptions, existing_for, charge_interval, is_cancelled_row, charge, charge_once,
  charge_recurring, refund_duplicate, follow_up, activate, consume_paid_attempt,
}
use bondzi_backend.Billing.Logs.{is_log, record_log}
use bondzi_backend.Billing.Refund.{sub_by_reference, is_refunded_status, apply_refund}
use bondzi_backend.Billing.Closed.{Frame}

Frame-refl : (s : Store) → Frame s s
Frame-refl s = record { plans = refl; events = refl; logs = λ p e h. h; ids = omega arith }

charge_once-Frame :
    (provider : Provider) (a : PaymentAttempt) (plan : Plan) (opts : ConsumeOptions)
    (o : Option Subscription) (now : ℕ) (s : Store)
    → Frame s (charge_once provider a plan opts o now s).1
unfolding charge_once refund_duplicate
charge_once-Frame provider a plan opts none now s = record {
  plans = refl;
  events = refl;
  logs = λ p e h. h;
  ids = omega arith;
}
charge_once-Frame provider a plan opts (some x) now s = record {
  plans = refl;
  events = refl;
  logs = λ p e h. h;
  ids = omega arith;
}

charge_recurring-Frame :
    (a : PaymentAttempt) (plan : Plan) (opts : ConsumeOptions) (i : BillingInterval)
    (o : Option Subscription) (now : ℕ) (s : Store)
    → Frame s (charge_recurring a plan opts i o now s).1
unfolding charge_recurring
charge_recurring-Frame a plan opts i none now s = record {
  plans = refl;
  events = refl;
  logs = λ p e h. h;
  ids = omega arith;
}
charge_recurring-Frame a plan opts i (some x) now s = record {
  plans = refl;
  events = refl;
  logs = λ p e h. h;
  ids = omega arith;
}

charge-Frame :
    (provider : Provider) (a : PaymentAttempt) (plan : Plan) (opts : ConsumeOptions)
    (i : Option BillingInterval) (now : ℕ) (s : Store)
    → Frame s (charge provider a plan opts i now s).1
unfolding charge
charge-Frame provider a plan opts none now s = charge_once-Frame provider a plan opts _ now s
charge-Frame provider a plan opts (some i) now s = charge_recurring-Frame a plan opts i _ now s

activate-Frame :
    (provider : Provider) (a : PaymentAttempt) (plan : Plan) (opts : ConsumeOptions)
    (i : Option BillingInterval) (now : ℕ) (s : Store)
    → Frame s (activate provider a plan opts i now s).1
unfolding activate follow_up
activate-Frame provider a plan opts i now s =
    let f = charge-Frame provider a plan opts i now s in
    record { plans = f.plans; events = f.events; logs = f.logs; ids = f.ids }

pub consume-Frame :
    (provider : Provider) (a : PaymentAttempt) (plan : Plan) (opts : ConsumeOptions) (now : ℕ)
    (s : Store)
    → Frame s (consume_paid_attempt provider a plan opts now s).1
unfolding consume_paid_attempt
consume-Frame provider a plan opts now s =
    elim (Result-cases (charge_interval plan.payment_kind a.billing_interval)) [
      | inr (e, n) ↦ rw (n, consume_paid_attempt) (Frame-refl s)
      | inl (i, n) ↦
          elim (Bool-cases (opts.is_renewal && is_cancelled_row (existing_for a.user_id plan s))) [
            | inl m ↦ rw (n, m, consume_paid_attempt) (Frame-refl s)
            | inr m ↦ rw (n, m, consume_paid_attempt) (activate-Frame provider a plan opts i now s)
          ]
    ]

pub refund-Frame : (reference now : ℕ) (s : Store) → Frame s (apply_refund reference now s).1
unfolding apply_refund
refund-Frame reference now s = elim (Option-cases (sub_by_reference reference s.subs)) [
  | inl n ↦
      rw (n, apply_refund)
        (record { plans = refl; events = refl; logs = λ p e h. h; ids = omega arith })
  | inr (x, n) ↦ elim (Bool-cases (is_refunded_status x.status)) [
    | inl m ↦
        rw (n, m, apply_refund)
          (record { plans = refl; events = refl; logs = λ p e h. h; ids = omega arith })
    | inr m ↦
        rw (n, m, apply_refund)
          (record { plans = refl; events = refl; logs = λ p e h. h; ids = omega arith })
  ]
]

pub record_log-Frame : (p e : ℕ) (user : Option ℕ) (s : Store) → Frame s (record_log p e user s).1
unfolding record_log
record_log-Frame p e user s = elim (Option-cases (find? (is_log p e) s.billing_log)) [
  | inl n ↦
      rw (n, record_log)
        (record { plans = refl; events = refl; logs = λ q f h. ground arith; ids = omega arith })
  | inr (l, n) ↦
      rw (n, record_log)
        (record { plans = refl; events = refl; logs = λ q f h. h; ids = omega arith })
]

pub record_log-subs :
    (p e : ℕ) (user : Option ℕ) (s : Store) → (record_log p e user s).1.subs ≡ s.subs
unfolding record_log
record_log-subs p e user s = elim (Option-cases (find? (is_log p e) s.billing_log)) [
  | inl n ↦ rw (n, record_log) refl
  | inr (l, n) ↦ rw (n, record_log) refl
]
