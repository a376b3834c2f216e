-- ===== src/Xp/Redeem.antt =====
-- `redeem` of src/modules/xp-economy/xp-economy.service.ts: spendable XP for days of a subscription.
-- It is one transaction, and what it throws it throws before it writes. `NOW()` of the database and
-- the clock of the program are the same moment.
pub mod Recipient
pub mod Balance
pub mod Lifetime
use bondzi_backend.Prelude.{
  ℕ, ◌+◌, ◌-◌, ◌*◌, Bool, true, false, not, ◌&&◌, Option, none, some, List, [], ◌∷◌, leb, ◌==◌,
  if◌then◌else◌, max, find?, any, update_where, bad_request, not_found, Result, ok, err,
}
use bondzi_backend.Enums.{ExamType, SubscriptionStatus, xp_credited, pro, account_eq, level_eq}
use bondzi_backend.Plans.{Plan, is_one_time}
use bondzi_backend.Billing.{Subscription, Store, is_access_status, not_expired, with_id}
use bondzi_backend.Billing.Entitlement.{expires_after, is_granting_now}
use bondzi_backend.Xp.{User, XpTransaction, spend, Xp, user_of}

pub record XpRedemptionConfig : Type 0 where
  pub tier_key : ℕ
  pub xp_cost : ℕ
  pub credit_days : ℕ
  pub is_active : Bool

pub record XpRedemption : Type 0 where
  pub id : ℕ
  pub user_id : ℕ
  pub tier_key : ℕ
  pub xp_spent : ℕ
  pub credit_days : ℕ

-- the tables of the two modules that a redemption touches
pub record Economy : Type 0 where
  pub xp : Xp
  pub billing : Store
  pub tiers : List XpRedemptionConfig
  pub redemptions : List XpRedemption

pub record RedeemResult : Type 0 where
  pub tier_key : ℕ
  pub xp_spent : ℕ
  pub credit_days : ℕ
  pub new_spendable_xp : ℕ
  pub subscription_expires_at : ℕ

abbrev pub is_tier : ℕ → XpRedemptionConfig → Bool
is_tier key t = t.tier_key == key && t.is_active

-- `id = :id AND spendable_xp >= :cost`
abbrev pub can_pay : ℕ → ℕ → User → Bool
can_pay user cost u = u.id == user && leb cost u.spendable_xp

abbrev pub paid_by : ℕ → User → User
paid_by cost u = record u { spendable_xp = u.spendable_xp - cost }

-- a plan of the user's level that a fresh row is anchored to
abbrev pub is_credit_plan : ExamType → Plan → Bool
is_credit_plan level p =
    account_eq p.account pro
    && (level_eq p.level level
        && (p.is_active && (p.is_default && not (is_one_time p.payment_kind))))

abbrev pub credit_plan : ℕ → List User → List Plan → Option Plan
credit_plan user users plans = elim (user_of user users) [
  | none ↦ none
  | some u ↦ find? (is_credit_plan u.exam_type) plans
]

abbrev pub credit_ms : ℕ → ℕ
credit_ms days = days * 24 * 60 * 60 * 1000

-- `ORDER BY s.expires_at DESC`, by which Postgres puts the nulls first; among equals, whose order
-- SQL leaves open, the newest row
unfoldable pub latest_active : ℕ → ℕ → List Subscription → Option Subscription
latest_active user now [] = none
latest_active user now (x ∷ xs) =
    let rest = latest_active user now xs in
    if is_granting_now user now x
    then elim rest [
      | none ↦ some x
      | some y ↦ if expires_after y.expires_at x.expires_at then some y else some x
    ]
    else rest

abbrev pub is_xp_credited : SubscriptionStatus → Bool
is_xp_credited xp_credited = true
is_xp_credited _ = false

-- the end of a row after the credit
unfoldable pub extended_end : Option ℕ → ℕ → ℕ → ℕ
extended_end none now days = now + credit_ms days
extended_end (some at) now days = max at now + credit_ms days

unfoldable pub extended : ℕ → ℕ → ℕ → Subscription → Subscription
extended redemption now days s = record s {
  expires_at = some (extended_end s.expires_at now days);
  xp_redemption_id = if is_xp_credited s.status then some redemption else s.xp_redemption_id;
}

-- the country code `GH`
abbrev pub ghana : ℕ
ghana = 233

unfoldable pub credited : ℕ → ℕ → ℕ → Option Plan → ℕ → ℕ → Subscription
credited id user redemption plan now days = record {
  id = id;
  user_id = user;
  plan_id = elim plan [ none ↦ none | some p ↦ some p.id ];
  billing_interval = none;
  provider = none;
  status = xp_credited;
  provider_reference = none;
  provider_subscription_id = none;
  provider_customer_id = none;
  amount = none;
  xp_redemption_id = some redemption;
  promo_code_id = none;
  country_code = elim plan [ none ↦ ghana | some p ↦ p.country_code ];
  starts_at = now;
  expires_at = some (now + credit_ms days);
}

-- the row that the credit goes to, and the tables with it; `redemption` is the id before
unfoldable pub credit : ℕ → ℕ → Option Plan → Option Subscription → ℕ → ℕ → Store → ℕ × Store
credit user redemption plan (some row) now days s = (
  extended_end row.expires_at now days,
  record s {
    subs = update_where (with_id row.id) (λ _. extended redemption now days row) s.subs;
    next_id = redemption + 1;
  },
)
credit user redemption plan none now days s = (
  now + credit_ms days,
  record s {
    subs = credited (redemption + 1) user redemption plan now days ∷ s.subs;
    next_id = redemption + 2;
  },
)

abbrev pub debit_of : ℕ → ℕ → ℕ → ℕ → XpTransaction
debit_of user event cost redemption = record {
  user_id = user;
  event_key = event;
  level_xp = 0;
  spendable_xp = spend cost;
  reference_id = some redemption;
}

abbrev pub spendable_of : ℕ → List User → ℕ
spendable_of user rows = elim (user_of user rows) [ none ↦ 0 | some u ↦ u.spendable_xp ]

-- the transaction after the XP were taken; `event` is the key `redemption`
unfoldable pub redeem_tier : ℕ → ℕ → XpRedemptionConfig → ℕ → Economy → RedeemResult × Economy
redeem_tier event user tier now s =
    let users = update_where (can_pay user tier.xp_cost) (paid_by tier.xp_cost) s.xp.users in
    let redemption = s.billing.next_id in
    let (ends, billing) =
      credit user redemption (credit_plan user users s.billing.plans)
        (latest_active user now s.billing.subs) now tier.credit_days s.billing in
    (
      record {
        tier_key = tier.tier_key;
        xp_spent = tier.xp_cost;
        credit_days = tier.credit_days;
        new_spendable_xp = spendable_of user users;
        subscription_expires_at = ends;
      },
      record s {
        xp = record (s.xp) {
          users = users;
          transactions = debit_of user event tier.xp_cost redemption ∷ s.xp.transactions;
        };
        billing = billing;
        redemptions =
            record {
              id = redemption;
              user_id = user;
              tier_key = tier.tier_key;
              xp_spent = tier.xp_cost;
              credit_days = tier.credit_days;
            }
            ∷ s.redemptions;
      },
    )

-- `redeem`
unfoldable pub redeem : ℕ → ℕ → ℕ → ℕ → Economy → Result RedeemResult × Economy
redeem event user key now s = elim (find? (is_tier key) s.tiers) [
  | none ↦ (err not_found, s)
  | some tier ↦
      if any (can_pay user tier.xp_cost) s.xp.users
      then (let (r, t) = redeem_tier event user tier now s in (ok r, t))
      else (err bad_request, s)
]
