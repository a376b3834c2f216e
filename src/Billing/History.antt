-- ===== src/Billing/History.antt =====
-- Every store that the calls on subscriptions reach, in any order: verified and consumed payments,
-- webhooks, cancellations and refunds.
pub mod Owned
pub mod Webhooks
use mathlib.Core.Path.{subst}
use bondzi_backend.Prelude.{ℕ, ◌≡◌, refl, ◌∙◌, Option, some, List, [], IsKeyed, arith}
use bondzi_backend.Enums.{ExamType}
use bondzi_backend.Plans.{Plan, plan_by_id}
use bondzi_backend.Billing.{PaymentAttempt, Provider, Store}
use bondzi_backend.Billing.Contract.{Triple}
use bondzi_backend.Billing.Consume.{ConsumeOptions, consume_paid_attempt}
use bondzi_backend.Billing.Consume.Unique.{IsUnique}
use bondzi_backend.Billing.Cancel.{cancel}
use bondzi_backend.Billing.Refund.{apply_refund}
use bondzi_backend.Billing.Verify.{verify}
use bondzi_backend.Billing.Webhook.{Event}
use bondzi_backend.Billing.Webhook.Process.{process}
use bondzi_backend.Billing.Closed.{IsClosed}
use bondzi_backend.Billing.Closed.Charges.{verify-Keeps}
use bondzi_backend.Billing.Closed.Events.{Allows}
use bondzi_backend.Billing.History.Owned.{
  IsSound, WasKept, IsSound-IsClosed, cancel-IsUnique, cancel-plans,
}
use bondzi_backend.Billing.History.Webhooks.{process-IsSound}

-- the tables of a shop without subscriptions, with one plan to an id
pub record IsOpening (s : Store) : Type 0 where
  pub no_subs : s.subs ≡ []
  pub keyed_plans : IsKeyed (λ p. p.id) s.plans

-- One call under the user's lock: it runs as a whole, and when it throws it keeps what it wrote.
pub data Step : Store → Store → Type 0 where
  consumes :
      {s : Store} (provider : Provider) (attempt : PaymentAttempt) (plan : Plan)
      (opts : ConsumeOptions) (now : ℕ)
      → plan_by_id plan.id s.plans ≡ some plan
      → Step s (consume_paid_attempt provider attempt plan opts now s).1
  verifies :
      {s : Store} (provider : Provider) (user reference now : ℕ)
      → Step s (verify provider user reference now s).1
  webhooks :
      {s : Store} (provider : Provider) (key : ℕ) (event : Event) (now : ℕ)
      → Allows WasKept event s
      → Step s (process provider key event now s).1
  cancels :
      {s : Store} (user now : ℕ) (level : Option ExamType) → Step s (cancel user level now s).1
  refunds : {s : Store} (reference now : ℕ) → Step s (apply_refund reference now s).1

pub data Reach : Store → Type 0 where
  start : {s : Store} → IsOpening s → Reach s
  later : {s t : Store} → Reach s → Step s t → Reach t

Step-IsSound :
    {s t : Store} (ps : List Plan) → IsKeyed (λ p. p.id) ps → Step s t → IsSound ps s → IsSound ps t
Step-IsSound {s} ps k (consumes provider attempt plan opts now p) h =
    (((IsSound-IsClosed ps).consume provider attempt plan opts now
        (subst (λ l. plan_by_id plan.id l ≡ some plan) h.catalogue p)).run
      s h).0
Step-IsSound {s} ps k (verifies provider user reference now) h =
    ((verify-Keeps ps WasKept (IsSound ps) (IsSound-IsClosed ps) provider user reference now).run s
      h).0
Step-IsSound {s} ps k (webhooks provider key event now allowed) h =
    process-IsSound ps k provider key event now s allowed h
Step-IsSound {s} ps k (cancels user now level) h = record {
  unique = cancel-IsUnique user now level s h.unique;
  catalogue = cancel-plans user now level s ∙ h.catalogue;
}
Step-IsSound {s} ps k (refunds reference now) h = (IsSound-IsClosed ps).refund reference now s h

Reach-IsSound : {s : Store} → Reach s → (ps : List Plan) × IsKeyed (λ p. p.id) ps × IsSound ps s
Reach-IsSound {s} (start e) = (
  s.plans,
  e.keyed_plans,
  record {
    unique = record {
      keyed = rw (e.no_subs) tt;
      below = rw (e.no_subs) tt;
      single = λ user plan. rw (e.no_subs) (omega arith);
    };
    catalogue = refl;
  },
)
Reach-IsSound (later r st) = let (ps, k, h) = Reach-IsSound r in (ps, k, Step-IsSound ps k st h)

-- From a shop without subscriptions and with one plan to an id, paid and verified attempts,
-- webhooks, cancellations and refunds in any order never leave a user with two subscriptions on one
-- level and account that are neither refunded nor expired, as long as no event cancels a row that
-- is refunded or expired.
pub Reach-IsUnique : {s : Store} → Reach s → IsUnique s
Reach-IsUnique r = let (ps, k, h) = Reach-IsSound r in h.unique
