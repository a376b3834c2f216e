-- ===== src/Billing/Tests/Redemptions.antt =====
-- A redemption at the concrete shop: the user holds Plus for life and a Pro that runs to 9000.
use mathlib.Core.List.{Memᴰ}
use bondzi_backend.Prelude.{◌+◌, ◌≤◌, ◌≡◌, refl, true, false, some, [], ◌∷◌, ok, find?, arith}
use bondzi_backend.Enums.{wassce}
use bondzi_backend.Billing.{Subscription, not_expired, with_id}
use bondzi_backend.Billing.Entitlement.{is_granting, account_rank, resolve}
use bondzi_backend.Billing.Tests.{plus_row, shop}
use bondzi_backend.Xp.{User}
use bondzi_backend.Xp.Redeem.{
  XpRedemptionConfig, Economy, RedeemResult, latest_active, extended, extended_end, credit_ms,
  spendable_of, redeem,
}
use bondzi_backend.Xp.Redeem.Balance.{redeem_pays}
use bondzi_backend.Xp.Redeem.Recipient.{recipient, rank_on}
use bondzi_backend.Xp.Redeem.Lifetime.{redeem_ends_lifetime}

abbrev student : User
student = record { id = 1; exam_type = wassce; level_xp = 90; spendable_xp = 40; current_level = 1 }

abbrev week : XpRedemptionConfig
week = record { tier_key = 3; xp_cost = 30; credit_days = 7; is_active = true }

abbrev economy : Economy
economy = record {
  xp = record { users = student ∷ []; transactions = []; rates = []; board = []; counts = [] };
  billing = shop;
  tiers = week ∷ [];
  redemptions = [];
}

plus_is_latest : latest_active 1 100 shop.subs ≡ some plus_row
unfolding latest_active
plus_is_latest = refl

runs : not_expired (recipient 1 100 week economy).expires_at 20000 ≡ true
unfolding latest_active extended extended_end
runs = refl

-- the credit goes to the Plus row
redeem_pays_example :
    (r : RedeemResult) × (t : Economy) × (redeem 9 1 3 100 economy ≡ (ok r, t))
    × (r.new_spendable_xp + 30 ≡ 40)
    × (spendable_of 1 t.xp.users ≡ r.new_spendable_xp)
    × ((recipient 1 100 week economy).expires_at ≡ some r.subscription_expires_at)
    × (100 + credit_ms 7 ≤ r.subscription_expires_at)
    × Memᴰ (recipient 1 100 week economy) t.billing.subs
    × (rank_on t.billing.plans wassce (recipient 1 100 week economy)
        ≤ account_rank (resolve t.billing.plans t.billing.subs 1 wassce 20000).account)
redeem_pays_example =
    redeem_pays 9 1 3 100 20000 wassce week student economy refl refl (omega arith) runs

plus_counts : rank_on shop.plans wassce (recipient 1 100 week economy) ≡ 1
unfolding latest_active extended
plus_counts = refl

redeem_ends_lifetime_example :
    (after : Subscription) × (find? (with_id 10) (redeem 9 1 3 100 economy).1.billing.subs
      ≡ some after)
    × (is_granting 1 604800100 after ≡ false)
redeem_ends_lifetime_example =
    redeem_ends_lifetime 9 1 3 100 604800100 week plus_row economy refl refl plus_is_latest refl
      refl (omega arith)
