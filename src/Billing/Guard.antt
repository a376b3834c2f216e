-- ===== src/Billing/Guard.antt =====
-- src/common/guards/subscription.guard.ts: the paywall in front of the premium routes. It shares
-- the cache key with `entitlementFor` and asks the tables on its own.
pub mod Agreement
use bondzi_backend.Prelude.{
  ℕ, ◌+◌, ◌*◌, Bool, true, false, Option, none, some, List, [], ◌∷◌, if◌then◌else◌, ltb, HttpError,
  forbidden, Result, ok, err,
}
use bondzi_backend.Enums.{ExamType, AccountType, free, plus, pro}
use bondzi_backend.Billing.{Grant, Store}
use bondzi_backend.Billing.Entitlement.{
  Candidate, is_granting_now, candidates, best, cached, store_entry,
}

-- the user that the token names
pub record Caller : Type 0 where
  pub id : ℕ
  pub exam_type : Option ExamType

-- `entitlementGrants`
abbrev pub entitlement_grants : AccountType → Option ℕ → ℕ → Bool
entitlement_grants free expires now = false
entitlement_grants _ none now = true
entitlement_grants _ (some at) now = ltb now at

-- The entry that the guard writes has no `cancelled` and no `dormantPlusOnLevel`.
abbrev pub guard_grant : Candidate → Grant
guard_grant c = record {
  account = c.account;
  expires_at = c.sub.expires_at;
  subscription_id = some c.sub.id;
  is_cancelled = false;
  dormant_plus_on_level = false;
}

abbrev verdict : AccountType → Option ℕ → ℕ → Result Bool
verdict account expires now =
    if entitlement_grants account expires now then ok true else err forbidden

-- the query, on a cold cache; `ttl` is `subscriptionStatusCacheTtlSec`
unfoldable pub ask_tables : ℕ → ℕ → ExamType → ℕ → Store → Result Bool × Store
ask_tables ttl user level now s =
    elim (best (candidates (is_granting_now user now) s.plans level s.subs)) [
      | none ↦ (err forbidden, s)
      | some c ↦
          let g = guard_grant c in
          (
            verdict g.account g.expires_at now,
            record s { cache = store_entry user level g (now + ttl * 1000) s.cache },
          )
    ]

unfoldable pub check_level : ℕ → ℕ → ExamType → ℕ → Store → Result Bool × Store
check_level ttl user level now s = elim (cached user level now s.cache) [
  | some g ↦ (verdict g.account g.expires_at now, s)
  | none ↦ ask_tables ttl user level now s
]

-- `canActivate`
unfoldable pub can_activate : ℕ → Bool → Option Caller → ℕ → Store → Result Bool × Store
can_activate ttl required caller now s =
    if required
    then elim caller [
      | none ↦ (err forbidden, s)
      | some c ↦ elim c.exam_type [
        | none ↦ (err forbidden, s)
        | some level ↦ check_level ttl c.id level now s
      ]
    ]
    else (ok true, s)
