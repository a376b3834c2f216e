-- ===== src/Billing/Webhook/Revived.antt =====
-- What `subscription.disable` does to a refunded subscription.
use bondzi_backend.Prelude.{
  ℕ, ◌≤◌, ◌<◌, ◌≡◌, refl, true, false, some, inl, inr, any, Bool-cases, ==_refl, arith,
}
use bondzi_backend.Enums.{ExamType, AccountType, SubscriptionStatus, cancelled}
use bondzi_backend.Billing.{
  Subscription, Provider, Store, success, cancellation, invalidate_cache, with_id,
}
use bondzi_backend.Billing.Monad.{◌>>=◌}
use bondzi_backend.Billing.Entitlement.{
  account_rank, account_on, is_granting, resolve, entitlement_for,
}
use bondzi_backend.Billing.Entitlement.Fresh.{resolve-le, Mem-find?}
use bondzi_backend.Billing.Entitlement.Cached.{entitlement_for-invalidate_cache}
use bondzi_backend.Billing.Logs.{mark_processed, same_event, record_event}
use bondzi_backend.Billing.Consume.Access.{Mem-update_where}
use bondzi_backend.Billing.Activation.{sub_by_code, set_status, save_status}
use bondzi_backend.Billing.Webhook.{Event, subscription_disable, refs_of}
use bondzi_backend.Billing.Webhook.Dispatch.{dispatch}
use bondzi_backend.Billing.Webhook.Rows.{sub_event, with_code_row, change_status, on_status_change}

-- the rows after the event, with some audit rows and some log rows
disabled_resolves :
    (event : Event) (log moment : ℕ) (level : ExamType) (sub : Subscription) (s : Store)
    → (entitlement_for sub.user_id level moment (
        record_event (sub_event cancellation event sub) (
          mark_processed log success
            (refs_of sub)
            (invalidate_cache sub.user_id (save_status cancelled sub s))))).0
      ≡ resolve s.plans (save_status cancelled sub s).subs sub.user_id level moment
unfolding record_event mark_processed
disabled_resolves event log moment level sub s =
    elim (Bool-cases (any (same_event (sub_event cancellation event sub)) s.financial_events)) [
      | inl n ↦ rw (n, record_event) (entitlement_for-invalidate_cache sub.user_id moment level _)
      | inr n ↦ rw (n, record_event) (entitlement_for-invalidate_cache sub.user_id moment level _)
    ]

-- A `subscription.disable` for a refunded row whose paid period is not over gives its user, until
-- the period ends, at least the account that the refund had taken away: the refunded row did not
-- grant it, and the row marked as cancelled does.
pub disable_revives :
    (provider : Provider) (event : Event) (log now moment code until : ℕ) (level : ExamType)
    (account : AccountType) (sub : Subscription) (s : Store)
    → event.kind ≡ subscription_disable
    → event.subscription_id ≡ some code
    → sub_by_code code s.subs ≡ some sub
    → sub.status ≡ SubscriptionStatus.refunded
    → sub.expires_at ≡ some until
    → moment < until
    → account_on s.plans level sub ≡ some account
    → (is_granting sub.user_id moment sub ≡ false)
      × (account_rank account
          ≤ account_rank
              (entitlement_for sub.user_id level moment
                (dispatch provider event log now s).1).0.account)
unfolding dispatch on_status_change change_status ◌>>=◌
disable_revives provider event log now moment code until level account sub s kind at found refunded
      expiry live on =
    let m =
      Mem-update_where (with_id sub.id) (set_status cancelled sub) sub s.subs
        (Mem-find? _ s.subs sub found) (==_refl sub.id) in
    let grants : is_granting sub.user_id moment (set_status cancelled sub) ≡ true =
      rw (==_refl sub.user_id, expiry) (ground arith) in
    (
      rw (==_refl sub.user_id, refunded) refl,
      rw
          (
            kind,
            at,
            found,
            dispatch,
            on_status_change,
            with_code_row,
            change_status,
            ◌>>=◌,
            disabled_resolves event log moment level sub s,
          )
          (resolve-le s.plans (save_status cancelled sub s).subs sub.user_id level moment
            (set_status cancelled sub) account m grants on),
    )
