-- ===== src/Xp/Redeem/Lifetime.antt =====
-- Redeeming XP with a purchase that has no end.
use bondzi_backend.Prelude.{
  ℕ, ◌+◌, ◌≤◌, ◌≡◌, refl, Bool, true, false, none, some, List, [], ◌∷◌, ◌&&◌, ◌||◌, ltb, ◌==◌,
  find?, any, update_where, arith,
}
use bondzi_backend.Billing.{Subscription, is_access_status, is_cancelled_status, with_id}
use bondzi_backend.Billing.Entitlement.{is_granting}
use bondzi_backend.Xp.Redeem.{
  XpRedemptionConfig, Economy, is_tier, can_pay, latest_active, credit_ms, extended, extended_end,
  credit, redeem_tier, redeem,
}

all_false : (a b c : Bool) → (a && ((b || c && false) && false)) ≡ false
all_false a b c = ground arith

find?-replaced :
    (id : ℕ) (row old : Subscription) (rows : List Subscription)
    → row.id ≡ id
    → find? (with_id id) rows ≡ some old
    → find? (with_id id) (update_where (with_id id) (λ _. row) rows) ≡ some row
find?-replaced id row old [] same h = cc
find?-replaced id row old (x ∷ rows) same h = ground (arith, find?-replaced id row old rows same)

ends-refused :
    (user now later days redemption : ℕ) (row : Subscription)
    → row.expires_at ≡ none
    → now + credit_ms days ≤ later
    → is_granting user later (extended redemption now days row) ≡ false
unfolding extended extended_end
ends-refused user now later days redemption row e h =
    let over : ltb later (now + credit_ms days) ≡ false = ground arith in
    rw (e, extended_end, over)
      (all_false (row.user_id == user) (is_access_status row.status)
        (is_cancelled_status row.status))

-- Redeeming XP ends a purchase that had no end: when the user can pay the tier and the row that
-- the query takes has no expiry, then after the redemption the row does not grant from the end of
-- the credit on.
pub redeem_ends_lifetime :
    (event user key now later : ℕ) (tier : XpRedemptionConfig) (row : Subscription) (s : Economy)
    → find? (is_tier key) s.tiers ≡ some tier
    → any (can_pay user tier.xp_cost) s.xp.users ≡ true
    → latest_active user now s.billing.subs ≡ some row
    → find? (with_id row.id) s.billing.subs ≡ some row
    → row.expires_at ≡ none
    → now + credit_ms tier.credit_days ≤ later
    → (after : Subscription) × (find? (with_id row.id) (redeem event user key now s).1.billing.subs
        ≡ some after)
      × (is_granting user later after ≡ false)
unfolding redeem redeem_tier credit extended
redeem_ends_lifetime event user key now later tier row s sold pays latest found endless h =
    let after = extended s.billing.next_id now tier.credit_days row in
    (
      after,
      rw (sold, pays, latest, redeem, redeem_tier, credit)
          (find?-replaced row.id after row s.billing.subs refl found),
      ends-refused user now later tier.credit_days s.billing.next_id row endless h,
    )
