-- ===== src/Billing.antt =====
-- The tables behind payments and subscriptions (src/modules/payments/entities,
-- src/modules/subscriptions/entities), newest rows first, and the calls that leave the process.
-- Ids, references and provider codes are numbers, since they are only compared; money is in minor
-- units and time in milliseconds.
pub mod Monad
pub mod Contract
pub mod Closed
pub mod Attempts
pub mod Entitlement
pub mod Guard
pub mod Consume
pub mod Cancel
pub mod Refund
pub mod Verify
pub mod Logs
pub mod Activation
pub mod Webhook
pub mod History
mod Tests
use bondzi_backend.Prelude.{
  ℕ, ◌+◌, Bool, true, false, not, ◌&&◌, ◌||◌, Option, none, some, List, [], ◌∷◌, ltb, ◌==◌, find?,
  keep, holds_id,
}
use bondzi_backend.Enums.{
  ExamType, AccountType, BillingInterval, SubscriptionStatus, active, trial, xp_credited, cancelled,
  expired, PaymentAttemptStatus, level_eq, account_eq,
}
use bondzi_backend.Plans.{Plan, plan_by_id}
use bondzi_backend.Promo

pub record Subscription : Type 0 where
  pub id : ℕ
  pub user_id : ℕ
  pub plan_id : Option ℕ
  pub billing_interval : Option BillingInterval
  pub provider : Option ℕ
  pub status : SubscriptionStatus
  pub provider_reference : Option ℕ
  pub provider_subscription_id : Option ℕ
  pub provider_customer_id : Option ℕ
  pub amount : Option ℕ
  pub xp_redemption_id : Option ℕ
  pub promo_code_id : Option ℕ
  pub country_code : ℕ
  pub starts_at : ℕ
  pub expires_at : Option ℕ

-- what the automatic refund of a duplicate charge came to
pub data RefundOutcome : Type 0 where
  settled awaiting refused : RefundOutcome

-- the part of `metadata` that a duplicate charge writes
pub record DuplicateAlarm : Type 0 where
  pub duplicate_of : ℕ
  pub auto_refund : RefundOutcome

pub data FailureReason : Type 0 where
  verification_failed renewal_race checkout_failed : FailureReason

pub record PaymentAttempt : Type 0 where
  pub id : ℕ
  pub user_id : ℕ
  pub subscription_id : Option ℕ
  pub plan_id : Option ℕ
  pub billing_interval : Option BillingInterval
  pub amount_minor : ℕ
  pub provider : ℕ
  pub provider_reference : ℕ
  pub provider_event_id : Option ℕ
  pub provider_customer_id : Option ℕ
  pub promo_code_id : Option ℕ
  pub discount_amount : Option ℕ
  pub status : PaymentAttemptStatus
  pub initiated_at : ℕ
  pub paid_at : Option ℕ
  pub failed_at : Option ℕ
  pub failure_reason : Option FailureReason
  pub refunded_at : Option ℕ
  pub abandoned_at : Option ℕ
  pub alarm : Option DuplicateAlarm

-- `Entitlement` of subscriptions.service.ts
pub record Grant : Type 0 where
  pub account : AccountType
  pub expires_at : Option ℕ
  pub subscription_id : Option ℕ
  pub is_cancelled : Bool
  pub dormant_plus_on_level : Bool

-- an entry of the Redis cache, with the moment at which its time to live ends
pub record CacheEntry : Type 0 where
  pub user_id : ℕ
  pub level : ExamType
  pub grant : Grant
  pub until : ℕ

pub data FinancialEventType : Type 0 where
  activation cancellation status_correction refund : FinancialEventType

pub record FinancialEvent : Type 0 where
  pub kind : FinancialEventType
  pub user_id : Option ℕ
  pub subscription_id : Option ℕ
  pub provider_event_id : ℕ

pub data BillingLogStatus : Type 0 where
  received success no_matching_payment duplicate error : BillingLogStatus

pub record BillingLog : Type 0 where
  pub id : ℕ
  pub provider : ℕ
  pub provider_event_id : ℕ
  pub process_status : BillingLogStatus
  pub payment_attempt_id : Option ℕ
  pub subscription_id : Option ℕ
  pub user_id : Option ℕ

pub record PaymentEvent : Type 0 where
  pub provider : ℕ
  pub provider_event_id : ℕ
  pub processed : Bool

-- a request to the payment provider
pub data ProviderCall : Type 0 where
  refund_transaction : ℕ → Option ℕ → ProviderCall
  cancel_subscription : ℕ → ProviderCall

pub record User : Type 0 where
  pub id : ℕ
  pub exam_type : Option ExamType

pub record Store : Type 0 where
  pub users : List User
  pub plans : List Plan
  pub subs : List Subscription
  pub attempts : List PaymentAttempt
  pub promo : Promo.Store
  pub cache : List CacheEntry
  pub provider_calls : List ProviderCall
  pub financial_events : List FinancialEvent
  pub billing_log : List BillingLog
  pub payment_events : List PaymentEvent
  pub next_id : ℕ

-- What the provider answers: none of it is this program's. A refund may throw (`none`).
pub data RefundStatus : Type 0 where
  processed on_its_way rejected : RefundStatus

pub record VerifiedTransaction : Type 0 where
  pub is_success : Bool
  pub amount_minor : ℕ
  pub customer_id : Option ℕ

pub record Provider : Type 0 where
  pub refund_answer : ℕ → Option RefundStatus
  pub verify_answer : ℕ → Option VerifiedTransaction

abbrev pub is_access_status : SubscriptionStatus → Bool
is_access_status active = true
is_access_status trial = true
is_access_status xp_credited = true
is_access_status _ = false

abbrev pub is_active_status : SubscriptionStatus → Bool
is_active_status active = true
is_active_status _ = false

abbrev pub is_cancelled_status : SubscriptionStatus → Bool
is_cancelled_status cancelled = true
is_cancelled_status _ = false

-- `status NOT IN ('refunded', 'expired')`
abbrev pub is_kept_status : SubscriptionStatus → Bool
is_kept_status SubscriptionStatus.refunded = false
is_kept_status expired = false
is_kept_status _ = true

-- `expires_at IS NULL OR expires_at > NOW()`
abbrev pub not_expired : Option ℕ → ℕ → Bool
not_expired none now = true
not_expired (some at) now = ltb now at

-- `expires_at > NOW()`, which a null is not
abbrev pub expires_later : Option ℕ → ℕ → Bool
expires_later none now = false
expires_later (some at) now = ltb now at

-- the join `p.id = s.plan_id`
abbrev pub plan_of : List Plan → Subscription → Option Plan
plan_of plans s = elim s.plan_id [ none ↦ none | some id ↦ plan_by_id id plans ]

abbrev pub plan_matches : (Plan → Bool) → Option Plan → Bool
plan_matches test none = false
plan_matches test (some p) = test p

-- `invalidateCache`
abbrev pub invalidate_cache : ℕ → Store → Store
invalidate_cache user s = record s { cache = keep (λ e. not (e.user_id == user)) s.cache }

abbrev pub with_id : ℕ → Subscription → Bool
with_id id s = s.id == id
