-- ===== src/Quota.antt =====
-- src/modules/entitlements/entitlements.service.ts: the tier × service matrix and the daily
-- counters. `SubscriptionsService.entitlementFor` is the argument `tier_of`; `none` is its throw.
-- A service is a number, as a day is.
pub mod Counter
pub mod Requests
pub mod Race
mod Tests
use bondzi_backend.Prelude.{
  ℕ, suc, ◌+◌, ◌-◌, Bool, true, false, not, ◌&&◌, Option, none, some, List, [], ◌∷◌, map, ltb, ◌==◌,
  if◌then◌else◌, is_some, find?, any, keep, update_where, HttpError, not_found, service_unavailable,
  forbidden, too_many_requests, Result, ok, err, ◌>>=◌, ◌>>◌, throw_if,
}
use bondzi_backend.Enums.{ExamType, AccountType, free, account_eq}

-- a row of `tier_services`; of the config only `requiresFormLevel` is read
pub record TierService : Type 0 where
  pub account_type : AccountType
  pub service : ℕ
  pub enabled : Bool
  pub daily_cap : Option ℕ
  pub requires_form_level : Bool
  pub updated_by : Option ℕ

pub record Key : Type 0 where
  pub user_id : ℕ
  pub service : ℕ
  pub day : ℕ

-- a row of `user_service_usage`
pub record Usage : Type 0 where
  pub key : Key
  pub used_count : ℕ

pub record Student : Type 0 where
  pub id : ℕ
  pub exam_type : Option ExamType
  pub form_level : Option ℕ

abbrev pub same_key : Key → Key → Bool
same_key a b = a.user_id == b.user_id && (a.service == b.service && a.day == b.day)

abbrev pub has_key : Key → Usage → Bool
has_key k u = same_key u.key k

-- `INSERT ... ON CONFLICT DO UPDATE SET used_count = used_count + 1`
unfoldable pub increment : Key → List Usage → List Usage
increment k rows =
    if any (has_key k) rows
    then update_where (has_key k) (λ u. record u { used_count = u.used_count + 1 }) rows
    else record { key = k; used_count = 1 } ∷ rows

-- `UPDATE ... SET used_count = greatest(used_count - 1, 0)`
unfoldable pub decrement : Key → List Usage → List Usage
decrement k rows = update_where (has_key k) (λ u. record u { used_count = u.used_count - 1 }) rows

-- the `used_count` of the row, which `RETURNING` gives and `snapshotForUser` reads
unfoldable pub used : Key → List Usage → ℕ
used k rows = elim (find? (has_key k) rows) [ none ↦ 0 | some u ↦ u.used_count ]

-- `dailyCap != null && usedCount > dailyCap`
abbrev pub over_cap : Option ℕ → ℕ → Bool
over_cap none n = false
over_cap (some cap) n = ltb cap n

abbrev pub tier_or_free : Option AccountType → AccountType
tier_or_free none = free
tier_or_free (some a) = a

-- the first statement, which returns the new count, and what the request makes of that count
unfoldable pub claim : Option ℕ → Key → List Usage → Result ℕ × List Usage
claim cap k rows =
    let rows' = increment k rows in
    (if over_cap cap (used k rows') then err too_many_requests else ok (used k rows'), rows')

-- the second statement, which only a refused request runs
unfoldable pub finish_claim : Key → Result ℕ → List Usage → Result ℕ × List Usage
finish_claim k (ok n) rows = (ok n, rows)
finish_claim k (err e) rows = (err e, decrement k rows)

-- the counter part: the result, and the rows after it, a refused request's included
unfoldable pub consume : Option ℕ → Key → List Usage → Result ℕ × List Usage
unfolding claim finish_claim
consume cap k rows = let (answer, rows') = claim cap k rows in finish_claim k answer rows'

pub record ServiceSnapshot : Type 0 where
  pub service : ℕ
  pub enabled : Bool
  pub daily_cap : Option ℕ
  pub used_today : ℕ
  pub remaining : Option ℕ

abbrev pub remaining_of : Bool → Option ℕ → ℕ → Option ℕ
remaining_of false cap n = none
remaining_of true none n = none
remaining_of true (some cap) n = some (cap - n)

-- one entry of the list that `snapshotForUser` returns
unfoldable pub snapshot_entry : ℕ → ℕ → List Usage → TierService → ServiceSnapshot
snapshot_entry user today rows policy =
    let n = used (record { user_id = user; service = policy.service; day = today }) rows in
    record {
      service = policy.service;
      enabled = policy.enabled;
      daily_cap = policy.daily_cap;
      used_today = n;
      remaining = remaining_of policy.enabled policy.daily_cap n;
    }

module _ (tier_of : ℕ → ExamType → Option AccountType) where
  -- `resolveTier`
  unfoldable pub resolve_tier : ℕ → Option ExamType → AccountType
  resolve_tier user none = free
  resolve_tier user (some level) = tier_or_free (tier_of user level)

  abbrev pub policy_for : AccountType → ℕ → List TierService → Option TierService
  policy_for account service matrix =
      find? (λ p. account_eq p.account_type account && p.service == service) matrix

  -- the part of `assertAndConsume` before the counter is touched
  unfoldable pub admit : ℕ → ℕ → List Student → List TierService → Result TierService
  admit user service students matrix = elim (find? (λ u. u.id == user) students) [
    | none ↦ err not_found
    | some u ↦ elim (policy_for (resolve_tier u.id u.exam_type) service matrix) [
      | none ↦ err service_unavailable
      | some policy ↦ do
        throw_if (not policy.enabled) forbidden
        throw_if (policy.requires_form_level && not (is_some u.form_level)) forbidden
        ok policy
    ]
  ]

  -- `assertAndConsume`
  unfoldable pub assert_and_consume :
      ℕ → ℕ → ℕ → List Student → List TierService → List Usage → Result ℕ × List Usage
  assert_and_consume user service today students matrix rows =
      elim (admit user service students matrix) [
        | err e ↦ (err e, rows)
        | ok policy ↦
            consume policy.daily_cap (record { user_id = user; service = service; day = today })
              rows
      ]

  -- `snapshotForUser`
  unfoldable pub snapshot_for_user :
      ℕ → ℕ → List Student → List TierService → List Usage → Result (List ServiceSnapshot)
  snapshot_for_user user today students matrix rows = elim (find? (λ u. u.id == user) students) [
    | none ↦ err not_found
    | some u ↦
        let account = resolve_tier u.id u.exam_type in
        ok (
          map (snapshot_entry user today rows)
            (keep (λ p. account_eq p.account_type account) matrix))
  ]
