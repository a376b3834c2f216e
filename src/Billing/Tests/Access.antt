-- ===== src/Billing/Tests/Access.antt =====
-- The theorems of the entitlements and of the paywall at the concrete shop.
use mathlib.Core.List.Memᴰ.{head, tail}
use bondzi_backend.Prelude.{
  ◌≤◌, ◌<◌, ◌≡◌, ◌⊎◌, refl, none, [], ◌∷◌, true, false, ok, err, forbidden, arith,
}
use bondzi_backend.Enums.{plus, wassce, cancelled}
use bondzi_backend.Billing.{Store, not_expired}
use bondzi_backend.Billing.Entitlement.{
  account_rank, is_granting_now, expires_after, candidates, best, grant_of, resolve,
  entitlement_for,
}
use bondzi_backend.Billing.Entitlement.Fresh.{resolve_top}
use bondzi_backend.Billing.Guard.{check_level, ask_tables}
use bondzi_backend.Billing.Guard.Agreement.{check_level_depends}
use bondzi_backend.Billing.Tests.{plus_row, pro_row, shop}

resolve_top_example :
    (account_rank plus < account_rank (resolve shop.plans shop.subs 1 wassce 100).account)
    ⊎ ((account_rank plus ≡ account_rank (resolve shop.plans shop.subs 1 wassce 100).account)
        × (expires_after none (resolve shop.plans shop.subs 1 wassce 100).expires_at ≡ false))
resolve_top_example =
    resolve_top shop.plans shop.subs 1 wassce 100 plus_row plus (tail (head refl)) refl refl

shop_paid : 1 ≤ account_rank (resolve shop.plans shop.subs 1 wassce 100).account
unfolding resolve grant_of best candidates
shop_paid = omega arith

still_live : not_expired (entitlement_for 1 wassce 100 shop).0.expires_at 8000 ≡ true
unfolding entitlement_for resolve grant_of best candidates
still_live = refl

passes_guard : (check_level 60 1 wassce 100 shop).0 ≡ ok true
unfolding check_level ask_tables best candidates
passes_guard = refl

-- the Pro alone, cancelled and paid up to 9000
abbrev grace : Store
grace = record shop { subs = record pro_row { status = cancelled } ∷ [] }

grace_paid : 1 ≤ account_rank (resolve grace.plans grace.subs 1 wassce 100).account
unfolding resolve grant_of best candidates
grace_paid = omega arith

grace_unseen : best (candidates (is_granting_now 1 100) grace.plans wassce grace.subs) ≡ none
unfolding best candidates
grace_unseen = refl

check_level_depends_example :
    ((check_level 60 1 wassce 100 grace).0 ≡ err forbidden)
    × ((check_level 60 1 wassce 100 (entitlement_for 1 wassce 100 grace).1).0 ≡ ok true)
check_level_depends_example = check_level_depends 60 1 100 wassce grace refl grace_unseen grace_paid
