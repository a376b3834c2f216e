-- ===== src/Billing/Webhook/Once.antt =====
-- An event that was processed is not processed again.
use bondzi_backend.Prelude.{
  ℕ, ◌≡◌, refl, ◌∙◌, Bool, true, false, Option, some, List, inl, inr, find?, find?-update_where,
  any, any_of_find?-some, find?_of_any, IsKeyed, ok, Bool-cases, Option-cases, Result-cases, arith,
}
use bondzi_backend.Plans.{Plan}
use bondzi_backend.Billing.{Provider, PaymentEvent, Store, duplicate}
use bondzi_backend.Billing.Contract.{trivial}
use bondzi_backend.Billing.Logs.{is_log, no_refs, record_log, mark_processed}
use bondzi_backend.Billing.Webhook.{Event}
use bondzi_backend.Billing.Webhook.Dispatch.{dispatch}
use bondzi_backend.Billing.Webhook.Process.{
  is_stale, Outcome, is_event, stored_event, insert_event, finish_event, run_dispatch, run_event,
  process,
}
use bondzi_backend.Billing.Closed.{Frame, IsClosed}
use bondzi_backend.Billing.Closed.Charge.{Frame-mark}
use bondzi_backend.Billing.Closed.Events.{dispatch-Keeps}
use bondzi_backend.Billing.Closed.Frames.{consume-Frame, refund-Frame, record_log-Frame}

-- the received events and the catalogue stay, and the event has its row in the log
record IsFiled (ps : List Plan) (rows : List PaymentEvent) (key id : ℕ) (s : Store) : Type 0 where
  catalogue : s.plans ≡ ps
  events : s.payment_events ≡ rows
  logged : any (is_log key id) s.billing_log ≡ true

-- the event has a row that is marked as processed, and its row in the log
record IsDone (key id : ℕ) (s : Store) : Type 0 where
  row : PaymentEvent
  stored : find? (is_event key id) s.payment_events ≡ some row
  processed : row.processed ≡ true
  logged : any (is_log key id) s.billing_log ≡ true

framed-IsFiled :
    (ps : List Plan) (rows : List PaymentEvent) (key id : ℕ) (s t : Store)
    → Frame s t
    → IsFiled ps rows key id s
    → IsFiled ps rows key id t
framed-IsFiled ps rows key id s t f h = record {
  catalogue = f.plans ∙ h.catalogue;
  events = f.events ∙ h.events;
  logged = f.logs key id h.logged;
}

IsFiled-IsClosed :
    (ps : List Plan) (rows : List PaymentEvent) (key id : ℕ)
    → IsClosed ps (λ _. Unit {0}) (IsFiled ps rows key id)
IsFiled-IsClosed ps rows key id = record {
  catalogue = λ s h. h.catalogue;
  same_subs = λ s t f e h. framed-IsFiled ps rows key id s t f h;
  consume = λ provider a plan opts now listed. record {
    run = λ s h.
        (framed-IsFiled ps rows key id s _ (consume-Frame provider a plan opts now s) h, trivial _);
  };
  refund = λ reference now s h. framed-IsFiled ps rows key id s _ (refund-Frame reference now s) h;
  code = λ customer code sub s found h. record {
    catalogue = h.catalogue;
    events = h.events;
    logged = h.logged;
  };
  disable = λ code sub s found g h. record {
    catalogue = h.catalogue;
    events = h.events;
    logged = h.logged;
  };
}

record_log-logged :
    (key id : ℕ) (user : Option ℕ) (s : Store)
    → any (is_log key id) (record_log key id user s).1.billing_log ≡ true
unfolding record_log
record_log-logged key id user s = elim (Option-cases (find? (is_log key id) s.billing_log)) [
  | inl n ↦ rw (n, record_log) (ground arith)
  | inr (l, n) ↦ rw (n, record_log) (any_of_find?-some (is_log key id) s.billing_log l n)
]

record_log-again :
    (key id : ℕ) (user : Option ℕ) (s : Store)
    → any (is_log key id) s.billing_log ≡ true
    → (log : ℕ) × (record_log key id user s ≡ ((log, true), s))
unfolding record_log
record_log-again key id user s h =
    let (l, n) = find?_of_any (is_log key id) s.billing_log h in (l.id, rw (n, record_log) refl)

module _ (provider : Provider) (key : ℕ) (event : Event) where
  run_event-IsDone :
      (log now : ℕ) (s : Store)
      → IsDone key event.id s
      → run_event provider key event log true now s
        ≡ (ok (record { duplicate = true; processed = false }), s)
  unfolding run_event
  run_event-IsDone log now s d = rw (d.stored, d.processed, run_event) refl

  -- a processed event is only answered
  process-IsDone :
      (now : ℕ) (s : Store)
      → is_stale event.claimed_at now ≡ false
      → IsDone key event.id s
      → process provider key event now s ≡ (ok (record { duplicate = true; processed = false }), s)
  unfolding process
  process-IsDone now s fresh d =
      let (log, again) = record_log-again key event.id event.user_id s d.logged in
      rw (again, fresh, process) (run_event-IsDone log now s d)

  inserted :
      (s : Store)
      → (e : PaymentEvent) × (find?
            (is_event key event.id)
            (insert_event key event s).payment_events
          ≡ some e)
  inserted s =
      (record { provider = key; provider_event_id = event.id; processed = false }, ground arith)

  run_dispatch-IsDone :
      (log now : ℕ) (again : Bool) (s t : Store) (e : PaymentEvent) (out : Outcome)
      → IsKeyed (λ p. p.id) s.plans
      → find? (is_event key event.id) s.payment_events ≡ some e
      → any (is_log key event.id) s.billing_log ≡ true
      → run_dispatch provider key event log again now s ≡ (ok out, t)
      → IsDone key event.id t
  unfolding run_dispatch
  run_dispatch-IsDone log now again s t e out k found logged h =
      let filed : IsFiled s.plans s.payment_events key event.id s = record {
        catalogue = refl;
        events = refl;
        logged = logged;
      } in
      let after =
        dispatch-Keeps s.plans _ _ (IsFiled-IsClosed s.plans s.payment_events key event.id) k
          provider event log now s (λ _ _ _ _ _. tt) filed in
      elim (Result-cases (dispatch provider event log now s).0) [
        | inr (x, n) ↦ let no = rw (n, run_dispatch) at h in absurd (cc)
        | inl (u, n) ↦
            let same : finish_event key event (dispatch provider event log now s).1 ≡ t =
              ground arith in
            rw (← same) (record {
              row = record e { processed = true };
              stored = rw (after.events) (
                  find?-update_where (is_event key event.id) (λ r. record r { processed = true })
                    (λ r. refl) s.payment_events e found);
              processed = refl;
              logged = after.logged;
            })
      ]

  run_event-cases :
      (log now : ℕ) (was_logged : Bool) (s t : Store) (out : Outcome)
      → IsKeyed (λ p. p.id) s.plans
      → any (is_log key event.id) s.billing_log ≡ true
      → run_event provider key event log was_logged now s ≡ (ok out, t)
      → IsDone key event.id t
  unfolding run_event
  run_event-cases log now was_logged s t out k logged h =
      elim (Option-cases (stored_event key event s)) [
        | inl n ↦
            let run = rw (n, run_event) at h in
            let (e, found) = inserted s in
            run_dispatch-IsDone log now false (insert_event key event s) t e out k found logged run
        | inr (e, n) ↦ elim (Bool-cases e.processed) [
          | inr m ↦
              let run = rw (n, m, run_event) at h in
              run_dispatch-IsDone log now true s t e out k n logged run
          | inl m ↦ elim (Bool-cases was_logged) [
            | inl o ↦
                let same : s ≡ t = let run = rw (n, m, o, run_event) at h in cc in
                rw (← same) (record { row = e; stored = n; processed = m; logged = logged })
            | inr o ↦
                let same : mark_processed log duplicate no_refs s ≡ t =
                  let run = rw (n, m, o, run_event) at h in cc in
                let f = Frame-mark log duplicate no_refs s in
                rw (← same) (record {
                  row = e;
                  stored = rw (f.events) n;
                  processed = m;
                  logged = f.logs key event.id logged;
                })
          ]
        ]
      ]

  first-IsDone :
      (now : ℕ) (s t : Store) (out : Outcome)
      → IsKeyed (λ p. p.id) s.plans
      → is_stale event.claimed_at now ≡ false
      → process provider key event now s ≡ (ok out, t)
      → IsDone key event.id t
  unfolding process
  first-IsDone now s t out k fresh h =
      let logged = record_log key event.id event.user_id s in
      let run = rw (fresh, process) at h in
      run_event-cases logged.0.0 now logged.0.1 logged.1 t out
        (rw ((record_log-Frame key event.id event.user_id s).plans) k)
        (record_log-logged key event.id event.user_id s) run

-- Delivering an event again after it was answered with success changes nothing: for a catalogue
-- with one plan to an id, and a first delivery inside the freshness window that did not fail, every
-- later delivery inside the window, whatever the provider says by then, is answered as a duplicate
-- and leaves every table and the calls to the provider as they are.
pub process_again :
    (provider changed : Provider) (key : ℕ) (event : Event) (now later : ℕ) (s t : Store)
    (out : Outcome)
    → IsKeyed (λ p. p.id) s.plans
    → is_stale event.claimed_at now ≡ false
    → is_stale event.claimed_at later ≡ false
    → process provider key event now s ≡ (ok out, t)
    → process changed key event later t ≡ (ok (record { duplicate = true; processed = false }), t)
process_again provider changed key event now later s t out k fresh still h =
    process-IsDone changed key event later t still
      (first-IsDone provider key event now s t out k fresh h)
