-- ===== src/Billing/Closed/Charge.antt =====
-- The handler of `charge.success` keeps every closed property of the tables.
use mathlib.Core.Path.{subst}
use bondzi_backend.Prelude.{
  ℕ, ◌≡◌, refl, Bool, true, false, Option, none, some, List, [], ◌∷◌, inl, inr, ◌==◌, any,
  update_where, IsKeyed, Found, is_some, Result, ok, err, Bool-cases, Option-cases, arith,
}
use bondzi_backend.Enums.{BillingInterval}
use bondzi_backend.Plans.{Plan}
use bondzi_backend.Billing.{
  Subscription, PaymentAttempt, Provider, Store, BillingLog, BillingLogStatus, success,
  no_matching_payment, error, FinancialEvent,
}
use bondzi_backend.Billing.Monad.{gets, modify, lift, ◌>>=◌}
use bondzi_backend.Billing.Logs.{
  is_log, LogRefs, no_refs, marked, mark_processed, same_event, record_event,
}
use bondzi_backend.Billing.Contract.{
  Triple, Keeps, Triple-pure, Triple-gets, Keeps-if, Keeps-modify, Triple-bind, Keeps-bind,
}
use bondzi_backend.Billing.Webhook.{Event, mark, attempt_refs, resolve_plan}
use bondzi_backend.Billing.Webhook.Charge.{
  linked_refs, after_activation, charge_plan, charge_attempt, charge_reference, on_charge_success,
}
use bondzi_backend.Billing.Webhook.Renewal.{
  renewable, is_recurring_plan, plant_renewal, renewal_for, renewal_attempt,
}
use bondzi_backend.Billing.Closed.{Frame, IsListed, IsClosed}
use bondzi_backend.Billing.Closed.Activations.{
  apply_webhook_activation-Keeps, record_pending_renewal_attempt-Keeps,
}
use bondzi_backend.Billing.Closed.Plans.{Listed, resolve_plan-Listed}

any-marked :
    (p e id : ℕ) (status : BillingLogStatus) (refs : LogRefs) (rows : List BillingLog)
    → any (is_log p e) rows ≡ true
    → any (is_log p e) (update_where (λ l. l.id == id) (marked status refs) rows) ≡ true
any-marked p e id status refs [] h = h
any-marked p e id status refs (x ∷ rows) h = ground (arith, any-marked p e id status refs rows)

pub Frame-mark :
    (log : ℕ) (status : BillingLogStatus) (refs : LogRefs) (s : Store)
    → Frame s (mark_processed log status refs s)
unfolding mark_processed
Frame-mark log status refs s = record {
  plans = refl;
  events = refl;
  logs = λ p e h. any-marked p e log status refs s.billing_log h;
  ids = omega arith;
}

module _ (ps : List Plan) (G : Subscription → Type 0) (I : Store → Type 0) (c : IsClosed ps G I)
    (k : IsKeyed (λ q. q.id) ps) where
  pub mark-Keeps :
      (log : ℕ) (status : BillingLogStatus) (refs : LogRefs) → Keeps I (mark log status refs)
  unfolding mark_processed
  mark-Keeps log status refs =
      Keeps-modify I (mark_processed log status refs)
        λ s h. c.same_subs s _ (Frame-mark log status refs s) refl h

  pub record_event-Keeps : (e : FinancialEvent) → Keeps I (modify (record_event e))
  unfolding record_event
  record_event-Keeps e = Keeps-modify I (record_event e) λ s h.
      elim (Bool-cases (any (same_event e) s.financial_events)) [
        | inl n ↦ rw (n, record_event) h
        | inr n ↦
            rw (n, record_event)
              (c.same_subs s _
                (record { plans = refl; events = refl; logs = λ p f l. l; ids = omega arith }) refl
                h)
      ]

  plan-Triple : (event : Event) → Triple I (gets (resolve_plan event)) (Listed ps)
  plan-Triple event = Triple-gets I (Listed ps) (resolve_plan event) λ s h.
      subst (λ l. Listed l (resolve_plan event s)) (c.catalogue s h)
        (resolve_plan-Listed event s (rw (c.catalogue s h) k))

  lift-Triple : (r : Result (Option Plan)) → Listed ps r → Triple I (lift r) (Found (IsListed ps))
  lift-Triple (ok o) h = record { run = λ s i. (i, h) }
  lift-Triple (err e) h = record { run = λ s i. (i, tt) }

  after_activation-Keeps :
      (event : Event) (log : ℕ) (a : PaymentAttempt) (alarm : Bool)
      → Keeps I (after_activation event log a alarm)
  unfolding after_activation
  after_activation-Keeps event log a true =
      Keeps-bind I _ _ (Triple-gets I (λ _. Unit) _ λ s h. tt)
        λ linked. mark-Keeps log no_matching_payment (linked_refs a linked)
  after_activation-Keeps event log a false = Keeps-bind I _ _ (record_event-Keeps _) λ _.
      Keeps-bind I _ _ (Triple-gets I (λ _. Unit) _ λ s h. tt)
        λ linked. mark-Keeps log success (linked_refs a linked)

  charge_plan-Keeps :
      (provider : Provider) (event : Event) (log reference : ℕ) (a : PaymentAttempt)
      (is_renewal : Bool) (plan : Plan) (now : ℕ)
      → IsListed ps plan
      → Keeps I (charge_plan provider event log reference a is_renewal plan now)
  unfolding charge_plan
  charge_plan-Keeps provider event log reference a is_renewal plan now listed =
      Keeps-if I _ _ _ (mark-Keeps log error (attempt_refs a)) (
        Keeps-bind I _ _ (apply_webhook_activation-Keeps ps G I c provider _ now listed)
          λ alarm. after_activation-Keeps event log a alarm)

  found_plan-Keeps :
      (provider : Provider) (event : Event) (log reference : ℕ) (a : PaymentAttempt)
      (is_renewal : Bool) (now : ℕ) (plan : Option Plan)
      → Found (IsListed ps) plan
      → Keeps {A = Unit {0}} I (elim plan [
        | none ↦ mark log error (attempt_refs a)
        | some p ↦ charge_plan provider event log reference a is_renewal p now
      ])
  found_plan-Keeps provider event log reference a is_renewal now none h =
      mark-Keeps log error (attempt_refs a)
  found_plan-Keeps provider event log reference a is_renewal now (some p) h =
      charge_plan-Keeps provider event log reference a is_renewal p now h

  charge_attempt-Keeps :
      (provider : Provider) (event : Event) (log reference : ℕ) (o : Option PaymentAttempt)
      (is_renewal : Bool) (now : ℕ)
      → Keeps I (charge_attempt provider event log reference o is_renewal now)
  unfolding charge_attempt
  charge_attempt-Keeps provider event log reference none is_renewal now =
      mark-Keeps log no_matching_payment no_refs
  charge_attempt-Keeps provider event log reference (some a) is_renewal now =
      Triple-bind I (Listed ps) (λ _. Unit) _ _ (plan-Triple event)
        λ answer listed.
          Triple-bind I (Found (IsListed ps)) (λ _. Unit) _ _ (lift-Triple answer listed)
            (found_plan-Keeps provider event log reference a is_renewal now)

  plant_renewal-Keeps :
      (event : Event) (reference : ℕ) (sub : Subscription) (plan : ℕ) (interval : BillingInterval)
      (now : ℕ)
      → Keeps I (plant_renewal event reference sub plan interval now)
  unfolding plant_renewal
  plant_renewal-Keeps event reference sub plan interval now =
      Keeps-bind I _ _ (record_pending_renewal_attempt-Keeps ps G I c _ now)
        λ row. Triple-pure I (λ _. Unit) (some row) tt

  renewal_for-Keeps :
      (event : Event) (reference : ℕ) (sub : Option Subscription) (now : ℕ)
      → Keeps I (renewal_for event reference sub now)
  unfolding renewal_for ◌>>=◌
  renewal_for-Keeps event reference none now = record { run = λ s h. (h, tt) }
  renewal_for-Keeps event reference (some sub) now = record {
    run = λ s h. elim (Option-cases (renewable sub)) [
      | inl n ↦
          rw (n, renewal_for, ◌>>=◌)
            (
              c.same_subs s _
                  (record { plans = refl; events = refl; logs = λ p f l. l; ids = omega arith })
                  refl h,
              tt,
            )
      | inr ((plan, interval), n) ↦ elim (Bool-cases (is_recurring_plan plan s)) [
        | inr m ↦ rw (n, m, renewal_for) (h, tt)
        | inl m ↦
            rw (n, m, renewal_for)
              ((plant_renewal-Keeps event reference sub plan interval now).run s h)
      ]
    ];
  }

  renewal_attempt-Keeps :
      (event : Event) (reference now : ℕ) (code : Option ℕ)
      → event.subscription_id ≡ code
      → Keeps I (renewal_attempt event reference now)
  unfolding renewal_attempt
  renewal_attempt-Keeps event reference now none e =
      rw (e, renewal_attempt) (Triple-pure I (λ _. Unit) none tt)
  renewal_attempt-Keeps event reference now (some code) e =
      rw (e, renewal_attempt)
        (Keeps-bind I _ _ (Triple-gets I (λ _. Unit) _ λ s h. tt)
          λ sub. renewal_for-Keeps event reference sub now)

  found_attempt-Keeps :
      (provider : Provider) (event : Event) (log reference now : ℕ) (found : Option PaymentAttempt)
      → Keeps {A = Unit {0}} I (elim found [
        | some a ↦ charge_attempt provider event log reference (some a) false now
        | none ↦ renewal_attempt event reference now >>= λ planted.
            charge_attempt provider event log reference planted (is_some planted) now
      ])
  found_attempt-Keeps provider event log reference now (some a) =
      charge_attempt-Keeps provider event log reference (some a) false now
  found_attempt-Keeps provider event log reference now none =
      Keeps-bind I _ _ (renewal_attempt-Keeps event reference now event.subscription_id refl)
        λ planted. charge_attempt-Keeps provider event log reference planted (is_some planted) now

  pub on_charge_success-Keeps :
      (provider : Provider) (event : Event) (log now : ℕ) (reference : Option ℕ)
      → event.reference ≡ reference
      → Keeps I (on_charge_success provider event log now)
  unfolding on_charge_success charge_reference
  on_charge_success-Keeps provider event log now none e =
      rw (e, on_charge_success) (mark-Keeps log no_matching_payment no_refs)
  on_charge_success-Keeps provider event log now (some reference) e =
      rw (e, on_charge_success)
        (Keeps-bind I _ _ (Triple-gets I (λ _. Unit) _ λ s h. tt)
          (found_attempt-Keeps provider event log reference now))
