-- ===== src/Billing/Closed/Charges.antt =====
-- `verify` and `applyWebhookActivation` keep every closed property of the tables.
use bondzi_backend.Prelude.{
  ℕ, ◌≡◌, refl, ap, ◌∙◌, Option, none, some, List, inl, inr, ◌==◌, find?-passes, Result, ok,
  conflict, not_found, internal, if◌then◌else◌, Option-cases, Result-cases, arith,
}
use bondzi_backend.Plans.{Plan, plan_by_id, get_active_for_checkout}
use bondzi_backend.Billing.{
  Subscription, PaymentAttempt, VerifiedTransaction, Provider, Store, verification_failed,
}
use bondzi_backend.Billing.Monad.{pure, throw, ◌>>=◌, ◌>>◌}
use bondzi_backend.Billing.Attempts.{mark_paid, mark_failed, is_paid, is_pending}
use bondzi_backend.Billing.Contract.{
  Triple, Keeps, Triple-pure, Triple-throw, Triple-gets, Triple-or_throw, Keeps-throw_if, Keeps-if,
  Triple-bind, Keeps-bind,
}
use bondzi_backend.Billing.Verify.{
  on_attempts, plan_on_sale, reloaded, repair, verify_paid, settle, verify_pending, verify_attempt,
  verify, linked_sub,
}
use bondzi_backend.Billing.Closed.{Frame, IsListed, IsClosed}

pub get_active_ok :
    (id : ℕ) (ps : List Plan) (plan : Plan)
    → get_active_for_checkout id ps ≡ ok plan
    → IsListed ps plan
unfolding get_active_for_checkout
get_active_ok id ps plan h = elim (Option-cases (plan_by_id id ps)) [
  | inl n ↦ ground arith
  | inr (p, n) ↦
      let same : p ≡ plan = ground arith in
      let here : p.id ≡ id = ground (arith, find?-passes (λ q. q.id == id) ps p n) in
      rw (← same) (ap (λ k. plan_by_id k ps) here ∙ n)
]

pub Frame-attempts :
    (s : Store) (rows : List PaymentAttempt) → Frame s (record s { attempts = rows })
Frame-attempts s rows = record { plans = refl; events = refl; logs = λ p e h. h; ids = omega arith }

module _ (ps : List Plan) (G : Subscription → Type 0) (I : Store → Type 0)
    (c : IsClosed ps G I) where
  pub on_attempts-Keeps :
      (f : List PaymentAttempt → Result (List PaymentAttempt)) → Keeps I (on_attempts f)
  on_attempts-Keeps f = record {
    run = λ s h. elim (Result-cases (f s.attempts)) [
      | inl (rows, n) ↦ rw (n, on_attempts) (c.same_subs s _ (Frame-attempts s rows) refl h, tt)
      | inr (e, n) ↦ rw (n, on_attempts) (h, tt)
    ];
  }

  plan_on_sale-IsListed : (o : Option ℕ) → Triple I (plan_on_sale o) (IsListed ps)
  unfolding ◌>>=◌
  plan_on_sale-IsListed none = Triple-throw I (IsListed ps) conflict
  plan_on_sale-IsListed (some id) = record {
    run = λ s h. elim (Result-cases (get_active_for_checkout id s.plans)) [
      | inr (e, n) ↦ rw (n, plan_on_sale) (h, tt)
      | inl (plan, n) ↦
          rw (n, plan_on_sale) (h, get_active_ok id ps plan (rw (← c.catalogue s h) n))
    ];
  }

  repair-Keeps :
      (provider : Provider) (a : PaymentAttempt) (now : ℕ) → Keeps I (repair provider a now)
  unfolding repair
  repair-Keeps provider a now =
      Triple-bind I (IsListed ps) (λ _. Unit) _ _ (plan_on_sale-IsListed a.plan_id)
        λ plan listed.
          Keeps-bind I _ _ (c.consume provider a plan _ now listed)
            λ done. Triple-gets I (λ _. Unit) (reloaded done.0) λ s h. tt

  linked-Keeps :
      (provider : Provider) (a : PaymentAttempt) (now : ℕ) (linked : Option Subscription)
      → Keeps {A = Subscription} I
          (elim linked [ some sub ↦ pure sub | none ↦ repair provider a now ])
  linked-Keeps provider a now none = repair-Keeps provider a now
  linked-Keeps provider a now (some sub) = Triple-pure I (λ _. Unit) sub tt

  verify_paid-Keeps :
      (provider : Provider) (a : PaymentAttempt) (now : ℕ) → Keeps I (verify_paid provider a now)
  unfolding verify_paid
  verify_paid-Keeps provider a now =
      Keeps-bind I _ _ (Triple-gets I (λ _. Unit) (linked_sub a) λ s h. tt)
        (linked-Keeps provider a now)

  settle-Keeps :
      (provider : Provider) (a : PaymentAttempt) (result : VerifiedTransaction) (now : ℕ)
      → Keeps I (settle provider a result now)
  unfolding settle
  settle-Keeps provider a result now = Keeps-bind I _ _ (Keeps-throw_if I _ conflict) λ _.
      Triple-bind I (IsListed ps) (λ _. Unit) _ _ (plan_on_sale-IsListed a.plan_id)
        λ plan listed.
          Keeps-bind I _ _ (on_attempts-Keeps (mark_paid a.id none result.customer_id now)) λ _.
            Keeps-bind I _ _ (Triple-gets I (λ _. Unit) _ λ s h. tt) λ found.
              Keeps-bind I _ _ (Triple-or_throw I (λ _. Unit) found conflict λ _ _. tt) λ refreshed.
                Keeps-bind I _ _ (c.consume provider refreshed plan _ now listed)
                  λ done. Triple-gets I (λ _. Unit) (reloaded done.0) λ s h. tt

  answered-Keeps :
      (provider : Provider) (a : PaymentAttempt) (now : ℕ) (answer : Option VerifiedTransaction)
      → Keeps {A = Subscription} I (elim answer [
        | none ↦ throw internal
        | some result ↦
            if result.is_success
            then settle provider a result now
            else on_attempts (mark_failed a.id verification_failed now) >> throw conflict
      ])
  answered-Keeps provider a now none = Triple-throw I (λ _. Unit) internal
  answered-Keeps provider a now (some result) =
      Keeps-if I result.is_success _ _ (settle-Keeps provider a result now) (
        Keeps-bind I _ _ (on_attempts-Keeps (mark_failed a.id verification_failed now))
          λ _. Triple-throw I (λ _. Unit) conflict)

  verify_attempt-Keeps :
      (provider : Provider) (a : PaymentAttempt) (now : ℕ) → Keeps I (verify_attempt provider a now)
  unfolding verify_attempt verify_pending
  verify_attempt-Keeps provider a now =
      Keeps-if I (is_paid a.status) _ _ (verify_paid-Keeps provider a now) (
        Keeps-if I (is_pending a.status) _ _
          (answered-Keeps provider a now (provider.verify_answer a.provider_reference))
          (Triple-throw I (λ _. Unit) conflict))

  -- `verify` keeps every closed property.
  pub verify-Keeps :
      (provider : Provider) (user reference now : ℕ) → Keeps I (verify provider user reference now)
  unfolding verify
  verify-Keeps provider user reference now =
      Keeps-bind I _ _ (Triple-gets I (λ _. Unit) _ λ s h. tt) λ found.
        Keeps-bind I _ _ (Triple-or_throw I (λ _. Unit) found not_found λ _ _. tt) λ a.
          Keeps-bind I _ _ (Keeps-throw_if I _ conflict) λ _. verify_attempt-Keeps provider a now
