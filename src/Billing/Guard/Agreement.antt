-- ===== src/Billing/Guard/Agreement.antt =====
-- The paywall next to `entitlementFor`.
use mathlib.Core.List.{Memᴰ}
use bondzi_backend.Prelude.{
  ℕ, ◌+◌, ◌*◌, ◌≤◌, ◌≡◌, refl, ◌∙◌, true, Option, none, some, inl, inr, Bool-cases, Option-cases,
  arith, ok, err, forbidden, ltb,
}
use bondzi_backend.Enums.{ExamType, AccountType}
use bondzi_backend.Billing.{Subscription, Store, not_expired}
use bondzi_backend.Billing.Entitlement.{
  account_rank, is_granting, is_granting_now, candidates, best, resolve, entitlement_for, cached,
  store_entry,
}
use bondzi_backend.Billing.Entitlement.Best.{IsJoined, best-All, candidates-IsJoined}
use bondzi_backend.Billing.Entitlement.Fresh.{All-Mem, resolve-le, resolve_live}
use bondzi_backend.Billing.Entitlement.Stale.{cached-store_entry, filled, filled_store}
use bondzi_backend.Billing.Guard.{entitlement_grants, ask_tables, check_level}

granting_of_now :
    (user now : ℕ) (s : Subscription)
    → is_granting_now user now s ≡ true
    → is_granting user now s ≡ true
granting_of_now user now s h = ground arith

rank_of_grants :
    (a : AccountType) (expires : Option ℕ) (now : ℕ)
    → entitlement_grants a expires now ≡ true
    → 1 ≤ account_rank a
rank_of_grants a expires now h = ground arith

-- On a cold cache, whoever passes the paywall has a paid account in the answer of `entitlementFor`.
check_level_sound :
    (ttl user now : ℕ) (level : ExamType) (s : Store)
    → cached user level now s.cache ≡ none
    → (check_level ttl user level now s).0 ≡ ok true
    → 1 ≤ account_rank (resolve s.plans s.subs user level now).account
unfolding check_level ask_tables
check_level_sound ttl user now level s cold pass =
    elim (Option-cases (best (candidates (is_granting_now user now) s.plans level s.subs))) [
      | inl n ↦ let no = rw (cold, n, ask_tables, check_level) at pass in cc
      | inr (c, n) ↦
          let (m, (t, on)) =
            best-All (λ x. Memᴰ x.sub s.subs × IsJoined (is_granting_now user now) s.plans level x)
              _ c
              (candidates-IsJoined (is_granting_now user now) s.plans level (λ x. Memᴰ x s.subs)
                s.subs (All-Mem s.subs))
              n in
          let le =
            resolve-le s.plans s.subs user level now c.sub c.account m
              (granting_of_now user now c.sub t) on in
          elim (Bool-cases (entitlement_grants c.account c.sub.expires_at now)) [
            | inl g ↦ let paid = rank_of_grants c.account c.sub.expires_at now g in omega arith
            | inr g ↦ let no = rw (cold, n, g, ask_tables, check_level) at pass in cc
          ]
    ]

grants_of_rank :
    (a : AccountType) (expires : Option ℕ) (now : ℕ)
    → 1 ≤ account_rank a
    → not_expired expires now ≡ true
    → entitlement_grants a expires now ≡ true
grants_of_rank a expires now h live = ground arith

check_level-filled :
    (ttl user now : ℕ) (level : ExamType) (s : Store)
    → 1 ≤ account_rank (resolve s.plans s.subs user level now).account
    → (check_level ttl user level now (filled user level now s)).0 ≡ ok true
unfolding check_level
check_level-filled ttl user now level s paid =
    let g = resolve s.plans s.subs user level now in
    let fresh : ltb now (now + 600 * 1000) ≡ true = ground arith in
    let found : cached user level now (store_entry user level g (now + 600 * 1000) s.cache)
        ≡ some g =
      cached-store_entry user now now level g (now + 600 * 1000) s.cache ∙ rw fresh refl in
    let pass : entitlement_grants g.account g.expires_at now ≡ true =
      grants_of_rank g.account g.expires_at now paid (resolve_live s.plans s.subs user level now) in
    rw (found, pass, check_level) refl

-- The paywall's own query leaves out cancelled rows in their paid period, which `entitlementFor`
-- counts, and the two share a cache: a user whose only paid rows are such rows is refused on a cold
-- cache, and passes right after `entitlementFor` was asked.
pub check_level_depends :
    (ttl user now : ℕ) (level : ExamType) (s : Store)
    → cached user level now s.cache ≡ none
    → best (candidates (is_granting_now user now) s.plans level s.subs) ≡ none
    → 1 ≤ account_rank (resolve s.plans s.subs user level now).account
    → ((check_level ttl user level now s).0 ≡ err forbidden)
      × ((check_level ttl user level now (entitlement_for user level now s).1).0 ≡ ok true)
unfolding check_level ask_tables
check_level_depends ttl user now level s cold none_live paid = (
  rw (cold, none_live, ask_tables, check_level) refl,
  rw (filled_store user now level s cold) (check_level-filled ttl user now level s paid),
)
