-- ===== src/Billing/Logs.antt =====
-- src/modules/payments/billing-log.service.ts and financial-audit.service.ts: the two records of
-- what the provider told us and of what it changed.
use bondzi_backend.Prelude.{
  ℕ, ◌+◌, Bool, true, false, ◌&&◌, Option, none, some, ◌∷◌, ◌==◌, if◌then◌else◌, find?, any,
  update_where,
}
use bondzi_backend.Billing.{
  FinancialEventType, activation, cancellation, status_correction, refund, FinancialEvent,
  BillingLogStatus, received, BillingLog, Store,
}

abbrev pub is_log : ℕ → ℕ → BillingLog → Bool
is_log provider event l = l.provider == provider && l.provider_event_id == event

-- `record`: the id of the row, and whether it was there
unfoldable pub record_log : ℕ → ℕ → Option ℕ → Store → (ℕ × Bool) × Store
record_log provider event user s = elim (find? (is_log provider event) s.billing_log) [
  | some l ↦ ((l.id, true), s)
  | none ↦
      let row : BillingLog = record {
        id = s.next_id;
        provider = provider;
        provider_event_id = event;
        process_status = received;
        payment_attempt_id = none;
        subscription_id = none;
        user_id = user;
      } in
      ((s.next_id, false), record s { billing_log = row ∷ s.billing_log; next_id = s.next_id + 1 })
]

-- the options of `markProcessed`; a field that is `none` is absent
pub record LogRefs : Type 0 where
  pub payment_attempt_id : Option (Option ℕ)
  pub subscription_id : Option (Option ℕ)
  pub user_id : Option (Option ℕ)

abbrev pub no_refs : LogRefs
no_refs = record { payment_attempt_id = none; subscription_id = none; user_id = none }

abbrev given {ℓ} : {A : Type ℓ} → Option A → A → A
given none old = old
given (some new) old = new

abbrev pub marked : BillingLogStatus → LogRefs → BillingLog → BillingLog
marked status refs l = record l {
  process_status = status;
  payment_attempt_id = given refs.payment_attempt_id l.payment_attempt_id;
  subscription_id = given refs.subscription_id l.subscription_id;
  user_id = given refs.user_id l.user_id;
}

-- `markProcessed`
unfoldable pub mark_processed : ℕ → BillingLogStatus → LogRefs → Store → Store
mark_processed id status refs s = record s {
  billing_log = update_where (λ l. l.id == id) (marked status refs) s.billing_log;
}

abbrev pub kind_eq : FinancialEventType → FinancialEventType → Bool
kind_eq activation activation = true
kind_eq cancellation cancellation = true
kind_eq status_correction status_correction = true
kind_eq refund refund = true
kind_eq _ _ = false

abbrev pub same_event : FinancialEvent → FinancialEvent → Bool
same_event e f = kind_eq e.kind f.kind && e.provider_event_id == f.provider_event_id

-- `FinancialAuditService.record` of a webhook: the unique index drops a second row of its kind
unfoldable pub record_event : FinancialEvent → Store → Store
record_event e s =
    if any (same_event e) s.financial_events
    then s
    else record s { financial_events = e ∷ s.financial_events }
