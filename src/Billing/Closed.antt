-- ===== src/Billing/Closed.antt =====
-- What a property of the tables has to satisfy so that every method of the subscriptions and of the
-- webhook handler keeps it: the interface between the methods and the invariants.
pub mod Charges
pub mod Plans
pub mod Activations
pub mod Charge
pub mod Events
pub mod Frames
use bondzi_backend.Prelude.{ℕ, ◌≤◌, ◌≡◌, true, Option, none, some, List, any, update_where}
use bondzi_backend.Enums.{cancelled}
use bondzi_backend.Plans.{Plan, plan_by_id}
use bondzi_backend.Billing.{Subscription, PaymentAttempt, PaymentEvent, Provider, Store, with_id}
use bondzi_backend.Billing.Logs.{is_log}
use bondzi_backend.Billing.Contract.{Keeps}
use bondzi_backend.Billing.Consume.{ConsumeOptions, consume_paid_attempt}
use bondzi_backend.Billing.Refund.{apply_refund}
use bondzi_backend.Billing.Activation.{sub_by_code, save_status}
use bondzi_backend.Billing.Webhook.{sub_by_customer}
use bondzi_backend.Billing.Webhook.Rows.{with_code}

-- What no method does: change the plans or the received events, forget a log row, go back in ids.
pub record Frame (s t : Store) : Type 0 where
  pub plans : t.plans ≡ s.plans
  pub events : t.payment_events ≡ s.payment_events
  pub logs :
      (p e : ℕ) → any (is_log p e) s.billing_log ≡ true → any (is_log p e) t.billing_log ≡ true
  pub ids : s.next_id ≤ t.next_id

-- the plan is the row of its id
abbrev pub IsListed : List Plan → Plan → Type 0
IsListed ps plan = plan_by_id plan.id ps ≡ some plan

-- `I` is a property of the tables, `G` what a row has to satisfy before it is marked as cancelled.
pub record IsClosed (ps : List Plan) (G : Subscription → Type 0) (I : Store → Type 0) : Type 0 where
  pub catalogue : (s : Store) → I s → s.plans ≡ ps
  pub same_subs : (s t : Store) → Frame s t → t.subs ≡ s.subs → I s → I t
  pub consume :
      (provider : Provider) (attempt : PaymentAttempt) (plan : Plan) (opts : ConsumeOptions)
      (now : ℕ)
      → IsListed ps plan
      → Keeps I (consume_paid_attempt provider attempt plan opts now)
  pub refund : (reference now : ℕ) (s : Store) → I s → I (apply_refund reference now s).1
  pub code :
      (customer code : ℕ) (sub : Subscription) (s : Store)
      → sub_by_customer customer s.subs ≡ some sub
      → I s
      → I (record s { subs = update_where (with_id sub.id) (λ _. with_code code sub) s.subs })
  pub disable :
      (code : ℕ) (sub : Subscription) (s : Store)
      → sub_by_code code s.subs ≡ some sub
      → G sub
      → I s
      → I (save_status cancelled sub s)
