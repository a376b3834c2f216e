-- ===== src/Billing/Cancel.antt =====
-- `cancel` of src/modules/subscriptions/subscriptions.service.ts, under the user's lock.
pub mod Access
use bondzi_backend.Prelude.{
  ℕ, Bool, true, false, not, ◌&&◌, Option, none, some, List, [], ◌∷◌, ◌==◌, if◌then◌else◌, or_else,
  find?, any, update_where, not_found, bad_request, Result, ok, err,
}
use bondzi_backend.Enums.{ExamType, cancelled, level_eq}
use bondzi_backend.Plans.{Plan, is_one_time}
use bondzi_backend.Billing.{
  Subscription, ProviderCall, cancel_subscription, User, Store, is_access_status, not_expired,
  plan_of, plan_matches, invalidate_cache, with_id,
}
use bondzi_backend.Billing.Monad.{Action}

abbrev pub level_of : ℕ → List User → Option ExamType
level_of user users = elim (find? (λ u. u.id == user) users) [ none ↦ none | some u ↦ u.exam_type ]

abbrev pub on_level : Option ExamType → Plan → Bool
on_level none p = true
on_level (some level) p = level_eq p.level level

-- the rows of the query: live, and on the level if there is one
abbrev pub is_live_on : List Plan → ℕ → Option ExamType → ℕ → Subscription → Bool
is_live_on plans user level now s =
    plan_matches (on_level level) (plan_of plans s)
    && (s.user_id == user && (is_access_status s.status && not_expired s.expires_at now))

-- the row to cancel: the newest one that is not one-time
abbrev pub is_target : List Plan → ℕ → Option ExamType → ℕ → Subscription → Bool
is_target plans user level now s =
    is_live_on plans user level now s
    && plan_matches (λ p. not (is_one_time p.payment_kind)) (plan_of plans s)

abbrev pub cancelled_row : Subscription → Subscription
cancelled_row s = record s { status = cancelled }

-- the provider is told if the row has a provider and a code there
abbrev pub tell_provider : Subscription → List ProviderCall → List ProviderCall
tell_provider s calls = elim s.provider [
  | none ↦ calls
  | some _ ↦ elim s.provider_subscription_id [
    | none ↦ calls
    | some code ↦ cancel_subscription code ∷ calls
  ]
]

abbrev pub cancel_row : Subscription → Store → Store
cancel_row sub s = record s {
  subs = update_where (with_id sub.id) (λ _. cancelled_row sub) s.subs;
  provider_calls = tell_provider sub s.provider_calls;
}

-- the row to cancel, or what is thrown; the level of the user's row counts, and the caller's only
-- without one
unfoldable pub cancel_target : ℕ → Option ExamType → ℕ → Store → Result Subscription
cancel_target user caller_level now s =
    let level = or_else (level_of user s.users) caller_level in
    if any (is_live_on s.plans user level now) s.subs
    then elim (find? (is_target s.plans user level now) s.subs) [
      | none ↦ err bad_request
      | some sub ↦ ok sub
    ]
    else err not_found

-- `cancel`
unfoldable pub cancel : ℕ → Option ExamType → ℕ → Action Subscription
cancel user caller_level now s = elim (cancel_target user caller_level now s) [
  | err e ↦ (err e, s)
  | ok sub ↦ (ok (cancelled_row sub), invalidate_cache user (cancel_row sub s))
]
