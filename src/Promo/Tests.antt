-- ===== src/Promo/Tests.antt =====
-- Runs of the promo codes, and their theorems at a concrete code. Here codes are normalised
-- already, so the normalisation is the identity.
use Prim.Native.String.{String}
use bondzi_backend.Prelude.{◌≤◌, ◌≡◌, refl, none, some, [], ◌∷◌, true, false, ok}
use bondzi_backend.Enums.{percent, plus, wassce, one_time}
use bondzi_backend.Plans.{Plan}
use bondzi_backend.Promo.{
  PromoCode, PromoRedemption, Store, CreatePromoCode, is_unusable, compute_discount, quote, create,
  record_redemption,
}
use bondzi_backend.Promo.Discount.{compute_discount-le}
use bondzi_backend.Promo.Ledger.{IsSound}
use bondzi_backend.Promo.History.{empty, Reach, start, later, creates, redeems, Reach-IsSound}

abbrev as_is : String → String
as_is code = code

abbrev half_off : PromoCode
half_off = record {
  id = 0;
  code = "half";
  description = none;
  discount_type = percent;
  discount_value = 5000;
  applicable_account = some plus;
  applicable_level = none;
  max_redemptions = some 1;
  redeemed_count = 0;
  valid_from = some 10;
  valid_until = none;
  is_active = true;
  created_by = 9;
}

abbrev dto : CreatePromoCode
dto = record {
  code = "half";
  description = none;
  discount_type = percent;
  discount_value = 5000;
  applicable_account = some plus;
  applicable_level = none;
  max_redemptions = some 1;
  valid_from = some 10;
  valid_until = none;
  is_active = none;
}

abbrev created : Store
created = record { codes = half_off ∷ []; redemptions = []; next_id = 1 }

abbrev redemption : PromoRedemption
redemption = record {
  promo_code_id = 0;
  user_id = 4;
  subscription_id = some 2;
  discount_amount = 1001;
}

abbrev redeemed : Store
redeemed = record {
  codes = record half_off { redeemed_count = 1 } ∷ [];
  redemptions = redemption ∷ [];
  next_id = 1;
}

create_half : create as_is 9 dto empty ≡ ok created
unfolding create
create_half = refl

redeem_half : record_redemption redemption created ≡ ok redeemed
unfolding record_redemption
redeem_half = refl

redeemed_reached : Reach as_is redeemed
redeemed_reached = later (later start (creates 9 dto create_half)) (redeems redemption redeem_half)

created_reached : Reach as_is created
created_reached = later start (creates 9 dto create_half)

Reach-IsSound_example : IsSound redeemed
Reach-IsSound_example = Reach-IsSound as_is redeemed_reached

abbrev plan : Plan
plan = record {
  id = 1;
  account = plus;
  level = wassce;
  payment_kind = one_time;
  country_code = 233;
  provider = 1;
  monthly_price = 0;
  six_month_price = 0;
  annual_price = 2001;
  monthly_duration_days = 0;
  six_month_duration_days = 0;
  annual_duration_days = 0;
  provider_plan_monthly = none;
  provider_plan_six_month = none;
  provider_plan_annual = none;
  is_active = true;
  is_default = false;
}

quote_half : quote as_is "half" plan 4 2001 50 created ≡ some (half_off, 1001)
unfolding quote is_unusable compute_discount
quote_half = refl

compute_discount-le_example : compute_discount half_off 2001 ≤ 2001
compute_discount-le_example = compute_discount-le half_off 2001 refl
