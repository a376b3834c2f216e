-- ===== src/Billing/Webhook/Dispatch.antt =====
-- `dispatch` of webhook-handler.service.ts.
use bondzi_backend.Prelude.{ℕ}
use bondzi_backend.Enums.{cancelled}
use bondzi_backend.Billing.{success, Provider}
use bondzi_backend.Billing.Monad.{Action}
use bondzi_backend.Billing.Logs.{no_refs}
use bondzi_backend.Billing.Webhook.{
  Event, mark, charge_success, subscription_create, subscription_disable, subscription_not_renew,
  invoice_failed, invoice_update, refund_processed, unknown,
}
use bondzi_backend.Billing.Webhook.Charge.{on_charge_success}
use bondzi_backend.Billing.Webhook.Refunded.{on_refund_processed}
use bondzi_backend.Billing.Webhook.Rows.{
  on_subscription_create, on_status_change, on_invoice_failed, on_subscription_not_renew,
  on_invoice_update,
}

-- `dispatch`
unfoldable pub dispatch : Provider → Event → ℕ → ℕ → Action (Unit {0})
dispatch provider event log now = elim event.kind [
  | charge_success ↦ on_charge_success provider event log now
  | subscription_create ↦ on_subscription_create event log
  | subscription_disable ↦ on_status_change event cancelled log
  | subscription_not_renew ↦ on_subscription_not_renew event log
  | invoice_failed ↦ on_invoice_failed event log
  | invoice_update ↦ on_invoice_update event log
  | refund_processed ↦ on_refund_processed event log now
  | unknown ↦ mark log success no_refs
]
