-- ===== src/Billing/Webhook/Gate.antt =====
-- A charge that nobody here asked for.
use bondzi_backend.Prelude.{
  ℕ, ◌≡◌, refl, ◌∙◌, Bool, true, false, Option, none, some, inl, inr, find?, ok, Bool-cases,
  Option-cases, Result-cases,
}
use bondzi_backend.Billing.{
  Subscription, Provider, Store, BillingLogStatus, is_active_status, no_matching_payment, duplicate,
  error,
}
use bondzi_backend.Billing.Monad.{gets, ◌>>=◌}
use bondzi_backend.Billing.Attempts.{find_by_reference}
use bondzi_backend.Billing.Logs.{LogRefs, no_refs, is_log, record_log, mark_processed}
use bondzi_backend.Billing.Activation.{sub_by_code}
use bondzi_backend.Billing.Webhook.{Event, charge_success}
use bondzi_backend.Billing.Webhook.Renewal.{renewable, renewal_for, renewal_attempt}
use bondzi_backend.Billing.Webhook.Charge.{charge_attempt, charge_reference, on_charge_success}
use bondzi_backend.Billing.Webhook.Dispatch.{dispatch}
use bondzi_backend.Billing.Webhook.Process.{
  is_stale, stored_event, insert_event, run_dispatch, run_event, process,
}

-- the tables that a payment changes are as they were
pub record Spares (s t : Store) : Type 0 where
  pub subs : t.subs ≡ s.subs
  pub attempts : t.attempts ≡ s.attempts
  pub promo : t.promo ≡ s.promo
  pub audit : t.financial_events ≡ s.financial_events

-- no attempt of ours has the event's reference, and no active row its subscription code
pub record IsForeign (event : Event) (s : Store) : Type 0 where
  pub no_attempt :
      (reference : ℕ)
      → event.reference ≡ some reference
      → find_by_reference reference s.attempts ≡ none
  pub no_active :
      (code : ℕ) (sub : Subscription)
      → event.subscription_id ≡ some code
      → sub_by_code code s.subs ≡ some sub
      → is_active_status sub.status ≡ false

Spares-trans : (s t u : Store) → Spares s t → Spares t u → Spares s u
Spares-trans s t u a b = record {
  subs = b.subs ∙ a.subs;
  attempts = b.attempts ∙ a.attempts;
  promo = b.promo ∙ a.promo;
  audit = b.audit ∙ a.audit;
}

Spares-refl : (s : Store) → Spares s s
Spares-refl s = record { subs = refl; attempts = refl; promo = refl; audit = refl }

mark-Spares :
    (log : ℕ) (status : BillingLogStatus) (refs : LogRefs) (s : Store)
    → Spares s (mark_processed log status refs s)
unfolding mark_processed
mark-Spares log status refs s = record { subs = refl; attempts = refl; promo = refl; audit = refl }

record_log-Spares : (p e : ℕ) (user : Option ℕ) (s : Store) → Spares s (record_log p e user s).1
unfolding record_log
record_log-Spares p e user s = elim (Option-cases (find? (is_log p e) s.billing_log)) [
  | inl n ↦ rw (n, record_log) (record { subs = refl; attempts = refl; promo = refl; audit = refl })
  | inr (l, n) ↦ rw (n, record_log) (Spares-refl s)
]

not_renewable : (sub : Subscription) → is_active_status sub.status ≡ false → renewable sub ≡ none
unfolding renewable
not_renewable sub h = elim (Option-cases sub.plan_id) [
  | inl n ↦ rw (n, renewable) refl
  | inr (plan, n) ↦ elim (Option-cases sub.billing_interval) [
    | inl m ↦ rw (n, m, renewable) refl
    | inr (i, m) ↦ rw (n, m, h, renewable) refl
  ]
]

module _ (event : Event) (now : ℕ) where
  -- a row that is not active plants no attempt
  renewal_for-none :
      (reference : ℕ) (found : Option Subscription) (s : Store)
      → ((sub : Subscription) → found ≡ some sub → is_active_status sub.status ≡ false)
      → ((renewal_for event reference found now s).0 ≡ ok none)
        × Spares s (renewal_for event reference found now s).1
  unfolding renewal_for ◌>>=◌
  renewal_for-none reference none s h = (refl, Spares-refl s)
  renewal_for-none reference (some sub) s h =
      rw (not_renewable sub (h sub refl), renewal_for)
        (refl, record { subs = refl; attempts = refl; promo = refl; audit = refl })

  renewal_attempt-none :
      (reference : ℕ) (s : Store)
      → IsForeign event s
      → ((renewal_attempt event reference now s).0 ≡ ok none)
        × Spares s (renewal_attempt event reference now s).1
  unfolding renewal_attempt ◌>>=◌
  renewal_attempt-none reference s f = elim (Option-cases event.subscription_id) [
    | inl n ↦ rw (n, renewal_attempt) (refl, Spares-refl s)
    | inr (code, n) ↦
        rw (n, renewal_attempt)
          (renewal_for-none reference (sub_by_code code s.subs) s
            (λ sub m. f.no_active code sub n m))
  ]

  foreign_reference :
      (provider : Provider) (log reference : ℕ) (s : Store)
      → IsForeign event s
      → event.reference ≡ some reference
      → Spares s (charge_reference provider event log reference now s).1
  unfolding charge_reference charge_attempt ◌>>=◌
  foreign_reference provider log reference s f n =
      let (answer, same) = renewal_attempt-none reference s f in
      rw (f.no_attempt reference n, charge_reference, gets, ◌>>=◌)
        (rw (answer, ◌>>=◌)
          (Spares-trans s _ _ same (mark-Spares log no_matching_payment no_refs _)))

  foreign_charge :
      (provider : Provider) (log : ℕ) (s : Store)
      → IsForeign event s
      → Spares s (on_charge_success provider event log now s).1
  unfolding on_charge_success
  foreign_charge provider log s f = elim (Option-cases event.reference) [
    | inl n ↦ rw (n, on_charge_success) (mark-Spares log no_matching_payment no_refs s)
    | inr (reference, n) ↦
        rw (n, on_charge_success) (foreign_reference provider log reference s f n)
  ]

module _ (provider : Provider) (key : ℕ) (event : Event) (now : ℕ)
    (kind : event.kind ≡ charge_success) where
  dispatch-Spares :
      (log : ℕ) (s : Store) → IsForeign event s → Spares s (dispatch provider event log now s).1
  unfolding dispatch
  dispatch-Spares log s f = rw (kind, dispatch) (foreign_charge event now provider log s f)

  run_dispatch-Spares :
      (log : ℕ) (again : Bool) (s : Store)
      → IsForeign event s
      → Spares s (run_dispatch provider key event log again now s).1
  unfolding run_dispatch
  run_dispatch-Spares log again s f =
      let kept = dispatch-Spares log s f in
      elim (Result-cases (dispatch provider event log now s).0) [
        | inl (u, n) ↦
            rw (n, run_dispatch)
              (record {
                subs = kept.subs;
                attempts = kept.attempts;
                promo = kept.promo;
                audit = kept.audit;
              })
        | inr (e, n) ↦
            rw (n, run_dispatch) (Spares-trans s _ _ kept (mark-Spares log error no_refs _))
      ]

  run_event-Spares :
      (log : ℕ) (was_logged : Bool) (s : Store)
      → IsForeign event s
      → Spares s (run_event provider key event log was_logged now s).1
  unfolding run_event
  run_event-Spares log was_logged s f = elim (Option-cases (stored_event key event s)) [
    | inl n ↦
        let f' : IsForeign event (insert_event key event s) = record {
          no_attempt = f.no_attempt;
          no_active = f.no_active;
        } in
        let kept = run_dispatch-Spares log false (insert_event key event s) f' in
        rw (n, run_event)
          (record {
            subs = kept.subs;
            attempts = kept.attempts;
            promo = kept.promo;
            audit = kept.audit;
          })
    | inr (e, n) ↦ elim (Bool-cases e.processed) [
      | inr m ↦ rw (n, m, run_event) (run_dispatch-Spares log true s f)
      | inl m ↦ elim (Bool-cases was_logged) [
        | inl o ↦ rw (n, m, o, run_event) (Spares-refl s)
        | inr o ↦ rw (n, m, o, run_event) (mark-Spares log duplicate no_refs s)
      ]
    ]
  ]

  -- A charge that nobody here asked for changes nothing that a payment changes: when no attempt has
  -- the event's reference and no active row its subscription code, a delivered charge.success
  -- leaves every subscription, payment attempt, promo code and audit row as it is.
  pub process_foreign :
      (s : Store) → IsForeign event s → Spares s (process provider key event now s).1
  unfolding process
  process_foreign s f =
      let logged = record_log key event.id event.user_id s in
      let same = record_log-Spares key event.id event.user_id s in
      let f' : IsForeign event logged.1 = record {
        no_attempt = λ reference n. rw (same.attempts) (f.no_attempt reference n);
        no_active = λ code sub n m. f.no_active code sub n (rw (same.subs) at m);
      } in
      elim (Bool-cases (is_stale event.claimed_at now)) [
        | inl n ↦
            rw (n, process)
              (Spares-trans s _ _ same
                (mark-Spares logged.0.0 no_matching_payment no_refs logged.1))
        | inr n ↦
            rw (n, process)
              (Spares-trans s _ _ same (run_event-Spares logged.0.0 logged.0.1 logged.1 f'))
      ]
