-- ===== src/Billing/History/Webhooks.antt =====
-- A processed webhook leaves each user with at most one kept row on a level and account.
use bondzi_backend.Prelude.{
  ℕ, refl, Bool, true, false, List, inl, inr, IsKeyed, Bool-cases, Option-cases, Result-cases,
}
use bondzi_backend.Plans.{Plan}
use bondzi_backend.Billing.{
  Provider, PaymentEvent, Store, BillingLogStatus, no_matching_payment, duplicate, error,
}
use bondzi_backend.Billing.Logs.{no_refs, record_log, mark_processed}
use bondzi_backend.Billing.Webhook.{Event}
use bondzi_backend.Billing.Webhook.Dispatch.{dispatch}
use bondzi_backend.Billing.Webhook.Process.{
  is_stale, stored_event, insert_event, run_dispatch, run_event, process,
}
use bondzi_backend.Billing.Closed.Charge.{Frame-mark}
use bondzi_backend.Billing.Closed.Frames.{record_log-Frame, record_log-subs}
use bondzi_backend.Billing.Closed.Events.{Allows, dispatch-Keeps}
use bondzi_backend.Billing.History.Owned.{IsSound, WasKept, same_subs-IsSound, IsSound-IsClosed}

module _ (ps : List Plan) (k : IsKeyed (λ q. q.id) ps) (provider : Provider) (key : ℕ)
    (event : Event) (now : ℕ) where
  mark-IsSound :
      (log : ℕ) (status : BillingLogStatus) (s : Store)
      → IsSound ps s
      → IsSound ps (mark_processed log status no_refs s)
  unfolding mark_processed
  mark-IsSound log status s h = same_subs-IsSound ps s _ (Frame-mark log status no_refs s) refl h

  events-IsSound :
      (rows : List PaymentEvent) (s : Store)
      → IsSound ps s
      → IsSound ps (record s { payment_events = rows })
  events-IsSound rows s h = record {
    unique = record { keyed = h.unique.keyed; below = h.unique.below; single = h.unique.single };
    catalogue = h.catalogue;
  }

  run_dispatch-IsSound :
      (log : ℕ) (again : Bool) (s : Store)
      → Allows WasKept event s
      → IsSound ps s
      → IsSound ps (run_dispatch provider key event log again now s).1
  unfolding run_dispatch
  run_dispatch-IsSound log again s allowed h =
      let kept =
        dispatch-Keeps ps WasKept (IsSound ps) (IsSound-IsClosed ps) k provider event log now s
          allowed h in
      elim (Result-cases (dispatch provider event log now s).0) [
        | inl (u, n) ↦ rw (n, run_dispatch) (events-IsSound _ _ kept)
        | inr (e, n) ↦ rw (n, run_dispatch) (mark-IsSound log error _ kept)
      ]

  run_event-IsSound :
      (log : ℕ) (was_logged : Bool) (s : Store)
      → Allows WasKept event s
      → IsSound ps s
      → IsSound ps (run_event provider key event log was_logged now s).1
  unfolding run_event
  run_event-IsSound log was_logged s allowed h = elim (Option-cases (stored_event key event s)) [
    | inl n ↦
        rw (n, run_event)
          (run_dispatch-IsSound log false (insert_event key event s) allowed (events-IsSound _ s h))
    | inr (e, n) ↦ elim (Bool-cases e.processed) [
      | inr m ↦ rw (n, m, run_event) (run_dispatch-IsSound log true s allowed h)
      | inl m ↦ elim (Bool-cases was_logged) [
        | inl o ↦ rw (n, m, o, run_event) h
        | inr o ↦ rw (n, m, o, run_event) (mark-IsSound log duplicate s h)
      ]
    ]
  ]

  pub process-IsSound :
      (s : Store)
      → Allows WasKept event s
      → IsSound ps s
      → IsSound ps (process provider key event now s).1
  unfolding process
  process-IsSound s allowed h =
      let logged = record_log key event.id event.user_id s in
      let same = record_log-subs key event.id event.user_id s in
      let after =
        same_subs-IsSound ps s logged.1 (record_log-Frame key event.id event.user_id s) same h in
      let still : Allows WasKept event logged.1 =
        λ code sub e f g. allowed code sub e f (rw (same) at g) in
      elim (Bool-cases (is_stale event.claimed_at now)) [
        | inl n ↦ rw (n, process) (mark-IsSound _ no_matching_payment _ after)
        | inr n ↦ rw (n, process) (run_event-IsSound logged.0.0 logged.0.1 logged.1 still after)
      ]
