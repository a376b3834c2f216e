-- ===== src/Billing/Entitlement.antt =====
-- `entitlementFor` of src/modules/subscriptions/subscriptions.service.ts: what a user has on a level.
pub mod Best
pub mod Fresh
pub mod Cached
pub mod Stale
use bondzi_backend.Prelude.{
  ℕ, ◌+◌, ◌*◌, Bool, true, false, not, ◌&&◌, ◌||◌, Option, none, some, List, [], ◌∷◌, ltb, leb,
  ◌==◌, if◌then◌else◌, find?, any, keep,
}
use bondzi_backend.Enums.{ExamType, AccountType, free, plus, pro, level_eq, account_eq}
use bondzi_backend.Plans.{Plan}
use bondzi_backend.Billing.{
  Subscription, Grant, CacheEntry, Store, is_access_status, is_cancelled_status, not_expired,
  expires_later, plan_of,
}

-- `accountRank`, and the CASE of the query
abbrev pub account_rank : AccountType → ℕ
account_rank pro = 2
account_rank plus = 1
account_rank free = 0

-- a row of the joined query
pub record Candidate : Type 0 where
  pub sub : Subscription
  pub account : AccountType

-- the account of the row's plan, if the plan is on the level
abbrev pub account_on : List Plan → ExamType → Subscription → Option AccountType
account_on plans level s = elim (plan_of plans s) [
  | none ↦ none
  | some p ↦ if level_eq p.level level then some p.account else none
]

-- the WHERE clause
abbrev pub is_granting : ℕ → ℕ → Subscription → Bool
is_granting user now s =
    s.user_id == user
    && ((is_access_status s.status
          || (is_cancelled_status s.status && expires_later s.expires_at now))
        && not_expired s.expires_at now)

-- the WHERE clause of the subscription guard, and of the search for a dormant Plus
abbrev pub is_granting_now : ℕ → ℕ → Subscription → Bool
is_granting_now user now s =
    s.user_id == user && (is_access_status s.status && not_expired s.expires_at now)

unfoldable pub candidates :
    (Subscription → Bool) → List Plan → ExamType → List Subscription → List Candidate
candidates test plans level [] = []
candidates test plans level (s ∷ subs) =
    let rest = candidates test plans level subs in
    elim (account_on plans level s) [
      | none ↦ rest
      | some a ↦ if test s then record { sub = s; account = a } ∷ rest else rest
    ]

-- `expires_at DESC NULLS FIRST`: strictly later
abbrev pub expires_after : Option ℕ → Option ℕ → Bool
expires_after none none = false
expires_after none (some y) = true
expires_after (some x) none = false
expires_after (some x) (some y) = ltb y x

-- strictly before in the ORDER BY
abbrev pub outranks : Candidate → Candidate → Bool
outranks c d =
    ltb (account_rank d.account) (account_rank c.account)
    || (account_rank c.account == account_rank d.account
        && expires_after c.sub.expires_at d.sub.expires_at)

-- ORDER BY ... LIMIT 1; among equals, whose order SQL leaves open, the newest row
unfoldable pub best : List Candidate → Option Candidate
best [] = none
best (c ∷ cs) = elim (best cs) [ none ↦ some c | some d ↦ if outranks d c then some d else some c ]

abbrev pub is_plus_on : List Plan → ExamType → Subscription → Bool
is_plus_on plans level s = elim (account_on plans level s) [
  | none ↦ false
  | some a ↦ account_eq a plus
]

-- a live Plus under a Pro
abbrev pub has_dormant_plus : List Plan → List Subscription → ℕ → ExamType → ℕ → Bool
has_dormant_plus plans subs user level now =
    any (λ s. is_plus_on plans level s && is_granting_now user now s) subs

abbrev pub free_grant : Grant
free_grant = record {
  account = free;
  expires_at = none;
  subscription_id = none;
  is_cancelled = false;
  dormant_plus_on_level = false;
}

unfoldable pub grant_of : Bool → Option Candidate → Grant
grant_of dormant none = free_grant
grant_of dormant (some c) = record {
  account = c.account;
  expires_at = c.sub.expires_at;
  subscription_id = some c.sub.id;
  is_cancelled = is_cancelled_status c.sub.status;
  dormant_plus_on_level = account_eq c.account pro && dormant;
}

-- the part of `entitlementFor` that reads the tables
unfoldable pub resolve : List Plan → List Subscription → ℕ → ExamType → ℕ → Grant
unfolding grant_of
resolve plans subs user level now =
    grant_of (has_dormant_plus plans subs user level now)
      (best (candidates (is_granting user now) plans level subs))

-- `entitlementStillValid`
abbrev pub still_valid : AccountType → Option ℕ → ℕ → Bool
still_valid free expires now = true
still_valid _ none now = true
still_valid _ (some at) now = ltb now at

abbrev pub has_entry : ℕ → ExamType → CacheEntry → Bool
has_entry user level e = e.user_id == user && level_eq e.level level

-- `redis.getJson`: an entry lives until its time to live ends
abbrev pub cached : ℕ → ExamType → ℕ → List CacheEntry → Option Grant
cached user level now entries =
    elim (find? (λ e. has_entry user level e && ltb now e.until) entries) [
      | none ↦ none
      | some e ↦ some e.grant
    ]

-- `redis.setJson`
abbrev pub store_entry : ℕ → ExamType → Grant → ℕ → List CacheEntry → List CacheEntry
store_entry user level g until entries =
    record { user_id = user; level = level; grant = g; until = until }
    ∷ keep (λ e. not (has_entry user level e)) entries

fill : ℕ → ExamType → ℕ → Store → Grant × Store
fill user level now s =
    let g = resolve s.plans s.subs user level now in
    (g, record s { cache = store_entry user level g (now + 600 * 1000) s.cache })

-- `entitlementFor`
unfoldable pub entitlement_for : ℕ → ExamType → ℕ → Store → Grant × Store
unfolding fill
entitlement_for user level now s = elim (cached user level now s.cache) [
  | none ↦ fill user level now s
  | some g ↦ if still_valid g.account g.expires_at now then (g, s) else fill user level now s
]

-- `hasEntitlement`
unfoldable pub has_entitlement : ℕ → Option ExamType → AccountType → ℕ → Store → Bool × Store
has_entitlement user level free now s = (true, s)
has_entitlement user none min_account now s = (false, s)
has_entitlement user (some level) min_account now s =
    let (g, s') = entitlement_for user level now s in
    (leb (account_rank min_account) (account_rank g.account), s')
