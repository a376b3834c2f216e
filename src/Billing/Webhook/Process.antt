-- ===== src/Billing/Webhook/Process.antt =====
-- `process` of webhook-handler.service.ts: the log, the freshness window, and each event once.
use bondzi_backend.Prelude.{
  ℕ, ◌+◌, ◌-◌, ◌*◌, Bool, true, false, ◌&&◌, Option, none, some, ◌∷◌, ltb, ◌==◌, if◌then◌else◌,
  find?, update_where, service_unavailable, ok, err,
}
use bondzi_backend.Billing.{no_matching_payment, duplicate, error, PaymentEvent, Provider, Store}
use bondzi_backend.Billing.Monad.{Action}
use bondzi_backend.Billing.Logs.{no_refs, record_log, mark_processed}
use bondzi_backend.Billing.Webhook.{Event}
use bondzi_backend.Billing.Webhook.Dispatch.{dispatch}

-- WEBHOOK_FRESHNESS_WINDOW_MS
abbrev pub freshness_window : ℕ
freshness_window = 7 * 24 * 60 * 60 * 1000

-- the claimed time is more than the window away, to either side
abbrev pub is_stale : Option ℕ → ℕ → Bool
is_stale none now = false
is_stale (some claimed) now = ltb freshness_window ((now - claimed) + (claimed - now))

pub record Outcome : Type 0 where
  pub duplicate : Bool
  pub processed : Bool

abbrev pub is_event : ℕ → ℕ → PaymentEvent → Bool
is_event provider event e = e.provider == provider && e.provider_event_id == event

abbrev pub stored_event : ℕ → Event → Store → Option PaymentEvent
stored_event provider event s = find? (is_event provider event.id) s.payment_events

abbrev pub insert_event : ℕ → Event → Store → Store
insert_event provider event s = record s {
  payment_events =
      record { provider = provider; provider_event_id = event.id; processed = false }
      ∷ s.payment_events;
}

abbrev pub finish_event : ℕ → Event → Store → Store
finish_event provider event s = record s {
  payment_events =
      update_where (is_event provider event.id) (λ e. record e { processed = true })
        s.payment_events;
}

-- the `try` around `dispatch`; the answer 503 makes the provider send the event again
unfoldable pub run_dispatch : Provider → ℕ → Event → ℕ → Bool → ℕ → Action Outcome
run_dispatch provider key event log again now s =
    let (r, t) = dispatch provider event log now s in
    elim r [
      | ok _ ↦ (ok (record { duplicate = again; processed = true }), finish_event key event t)
      | err e ↦ (err service_unavailable, mark_processed log error no_refs t)
    ]

-- the insert of the event, and what a row that is there means
unfoldable pub run_event : Provider → ℕ → Event → ℕ → Bool → ℕ → Action Outcome
run_event provider key event log was_logged now s = elim (stored_event key event s) [
  | none ↦ run_dispatch provider key event log false now (insert_event key event s)
  | some e ↦
      if e.processed
      then (
        ok (record { duplicate = true; processed = false }),
        if was_logged then s else mark_processed log duplicate no_refs s,
      )
      else run_dispatch provider key event log true now s
]

-- `process`
unfoldable pub process : Provider → ℕ → Event → ℕ → Action Outcome
process provider key event now s =
    let ((log, was_logged), t) = record_log key event.id event.user_id s in
    if is_stale event.claimed_at now
    then (
      ok (record { duplicate = false; processed = false }),
      mark_processed log no_matching_payment no_refs t,
    )
    else run_event provider key event log was_logged now t
