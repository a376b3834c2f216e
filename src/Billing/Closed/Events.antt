-- ===== src/Billing/Closed/Events.antt =====
-- `dispatch` of the webhook handler keeps every closed property of the tables.
use bondzi_backend.Prelude.{ℕ, ◌≡◌, refl, Option, none, some, List, inl, inr, IsKeyed, Option-cases}
use bondzi_backend.Enums.{cancelled}
use bondzi_backend.Plans.{Plan}
use bondzi_backend.Billing.{
  Subscription, PaymentAttempt, Provider, Store, success, status_correction, cancellation,
}
use bondzi_backend.Billing.Monad.{Action, ◌>>=◌}
use bondzi_backend.Billing.Logs.{no_refs}
use bondzi_backend.Billing.Contract.{Keeps-bind}
use bondzi_backend.Billing.Activation.{sub_by_code}
use bondzi_backend.Billing.Webhook.{
  EventType, charge_success, subscription_create, subscription_disable, subscription_not_renew,
  invoice_failed, invoice_update, refund_processed, unknown, Event, mark, refs_of, sub_by_customer,
}
use bondzi_backend.Billing.Webhook.Dispatch.{dispatch}
use bondzi_backend.Billing.Webhook.Refunded.{
  drop_cache_of, refund_reference, attempt_of, refunded_user, log_refund, on_refund_processed,
}
use bondzi_backend.Billing.Webhook.Rows.{
  with_code_row, set_code, on_subscription_create, sub_event, change_status, on_status_change,
  on_invoice_failed, on_subscription_not_renew, on_invoice_update,
}
use bondzi_backend.Billing.Closed.{IsClosed}
use bondzi_backend.Billing.Closed.Activations.{drop_cache-Keeps}
use bondzi_backend.Billing.Closed.Charge.{mark-Keeps, record_event-Keeps, on_charge_success-Keeps}

-- A row that the event cancels has `G`.
abbrev pub Allows : (Subscription → Type 0) → Event → Store → Type 0
Allows G event s =
    (code : ℕ) (sub : Subscription)
    → event.kind ≡ subscription_disable
    → event.subscription_id ≡ some code
    → sub_by_code code s.subs ≡ some sub
    → G sub

module _ (ps : List Plan) (G : Subscription → Type 0) (I : Store → Type 0) (c : IsClosed ps G I)
    (k : IsKeyed (λ q. q.id) ps) where
  found_row-Keeps :
      (log : ℕ) (f : Subscription → Action (Unit {0})) (found : Option Subscription) (s : Store)
      → I s
      → ((sub : Subscription) → found ≡ some sub → I (f sub s).1)
      → I
          (elim found as (λ _. Action (Unit {0})) [
            | none ↦ mark log success no_refs
            | some sub ↦ f sub
          ]
            s).1
  found_row-Keeps log f none s h kf = ((mark-Keeps ps G I c k log success no_refs).run s h).0
  found_row-Keeps log f (some sub) s h kf = kf sub refl

  code_row-Keeps :
      (event : Event) (log : ℕ) (f : Subscription → Action (Unit {0})) (s : Store)
      → I s
      → ((code : ℕ) (sub : Subscription)
          → event.subscription_id ≡ some code
          → sub_by_code code s.subs ≡ some sub
          → I (f sub s).1)
      → I (with_code_row event log f s).1
  unfolding ◌>>=◌
  code_row-Keeps event log f s h kf = elim (Option-cases event.subscription_id) [
    | inl n ↦ rw (n) ((mark-Keeps ps G I c k log success no_refs).run s h).0
    | inr (code, n) ↦
        rw (n) (found_row-Keeps log f (sub_by_code code s.subs) s h λ sub m. kf code sub n m)
  ]

  set_code-Keeps :
      (sub : Subscription) (code customer log : ℕ) (s : Store)
      → sub_by_customer customer s.subs ≡ some sub
      → I s
      → I (set_code sub code log s).1
  unfolding set_code ◌>>=◌
  set_code-Keeps sub code customer log s found h =
      let saved = c.code customer code sub s found h in
      ((Keeps-bind I _ _ (drop_cache-Keeps ps G I c sub.user_id)
          λ _. mark-Keeps ps G I c k log success (refs_of sub)).run
        _ saved).0

  on_subscription_create-Keeps :
      (event : Event) (log : ℕ) (s : Store) → I s → I (on_subscription_create event log s).1
  unfolding on_subscription_create ◌>>=◌
  on_subscription_create-Keeps event log s h =
      let skipped = ((mark-Keeps ps G I c k log success no_refs).run s h).0 in
      elim (Option-cases event.subscription_id) [
        | inl n ↦ rw (n, on_subscription_create) skipped
        | inr (code, n) ↦ elim (Option-cases event.customer_id) [
          | inl m ↦ rw (n, m, on_subscription_create) skipped
          | inr (customer, m) ↦
              rw (n, m, on_subscription_create)
                (found_row-Keeps log (λ sub. set_code sub code log)
                  (sub_by_customer customer s.subs) s h
                  λ sub o. set_code-Keeps sub code customer log s o h)
        ]
      ]

  disabled-Keeps :
      (event : Event) (log code : ℕ) (sub : Subscription) (s : Store)
      → sub_by_code code s.subs ≡ some sub
      → G sub
      → I s
      → I (change_status event cancelled log sub s).1
  unfolding change_status ◌>>=◌
  disabled-Keeps event log code sub s found g h =
      let saved = c.disable code sub s found g h in
      ((Keeps-bind I _ _ (drop_cache-Keeps ps G I c sub.user_id) λ _.
          Keeps-bind I _ _ (mark-Keeps ps G I c k log success (refs_of sub))
            λ _. record_event-Keeps ps G I c k (sub_event cancellation event sub)).run
        _ saved).0

  drop_cache_of-Keeps : (user : Option ℕ) (s : Store) → I s → I (drop_cache_of user s)
  drop_cache_of-Keeps none s h = h
  drop_cache_of-Keeps (some user) s h = ((drop_cache-Keeps ps G I c user).run s h).0

  log_refund-Keeps :
      (event : Event) (log : ℕ) (a : Option PaymentAttempt) (sub : Option Subscription) (s : Store)
      → I s
      → I (log_refund event log a sub s)
  unfolding log_refund ◌>>=◌
  log_refund-Keeps event log a (some r) s h =
      let recorded = ((record_event-Keeps ps G I c k _).run s h).0 in
      ((mark-Keeps ps G I c k log success _).run _ recorded).0
  log_refund-Keeps event log a none s h =
      let dropped = drop_cache_of-Keeps (refunded_user event a none) s h in
      let recorded = ((record_event-Keeps ps G I c k _).run _ dropped).0 in
      ((mark-Keeps ps G I c k log success _).run _ recorded).0

  refund_reference-Keeps :
      (reference : Option ℕ) (now : ℕ) (s : Store) → I s → I (refund_reference reference now s).1
  refund_reference-Keeps none now s h = h
  refund_reference-Keeps (some reference) now s h = c.refund reference now s h

  on_refund_processed-Keeps :
      (event : Event) (log now : ℕ) (s : Store) → I s → I (on_refund_processed event log now s).1
  unfolding on_refund_processed
  on_refund_processed-Keeps event log now s h =
      let refunded = refund_reference event.reference now s in
      log_refund-Keeps event log (attempt_of event.reference s) refunded.0 refunded.1
        (refund_reference-Keeps event.reference now s h)

  dispatch_kind-Keeps :
      (provider : Provider) (event : Event) (log now : ℕ) (kind : EventType) (s : Store)
      → event.kind ≡ kind
      → Allows G event s
      → I s
      → I (dispatch provider event log now s).1
  unfolding dispatch on_status_change on_invoice_failed on_subscription_not_renew on_invoice_update
  dispatch_kind-Keeps provider event log now charge_success s e allowed h =
      rw (e, dispatch)
        ((on_charge_success-Keeps ps G I c k provider event log now event.reference refl).run s h).0
  dispatch_kind-Keeps provider event log now subscription_create s e allowed h =
      rw (e, dispatch) (on_subscription_create-Keeps event log s h)
  dispatch_kind-Keeps provider event log now subscription_disable s e allowed h =
      rw (e, dispatch, on_status_change)
        (code_row-Keeps event log _ s h
          λ code sub n m. disabled-Keeps event log code sub s m (allowed code sub e n m) h)
  dispatch_kind-Keeps provider event log now subscription_not_renew s e allowed h =
      rw (e, dispatch, on_subscription_not_renew)
        (code_row-Keeps event log _ s h λ code sub n m.
          ((Keeps-bind I _ _ (drop_cache-Keeps ps G I c sub.user_id)
              λ _. mark-Keeps ps G I c k log success (refs_of sub)).run
            s h).0)
  dispatch_kind-Keeps provider event log now invoice_failed s e allowed h =
      rw (e, dispatch, on_invoice_failed)
        (code_row-Keeps event log _ s h λ code sub n m.
          ((Keeps-bind I _ _ (record_event-Keeps ps G I c k (sub_event status_correction event sub))
              λ _. mark-Keeps ps G I c k log success (refs_of sub)).run
            s h).0)
  dispatch_kind-Keeps provider event log now invoice_update s e allowed h =
      rw (e, dispatch, on_invoice_update)
        (code_row-Keeps event log _ s h
          λ code sub n m. ((mark-Keeps ps G I c k log success (refs_of sub)).run s h).0)
  dispatch_kind-Keeps provider event log now refund_processed s e allowed h =
      rw (e, dispatch) (on_refund_processed-Keeps event log now s h)
  dispatch_kind-Keeps provider event log now unknown s e allowed h =
      rw (e, dispatch) ((mark-Keeps ps G I c k log success no_refs).run s h).0

  pub dispatch-Keeps :
      (provider : Provider) (event : Event) (log now : ℕ) (s : Store)
      → Allows G event s
      → I s
      → I (dispatch provider event log now s).1
  dispatch-Keeps provider event log now s allowed h =
      dispatch_kind-Keeps provider event log now event.kind s refl allowed h
