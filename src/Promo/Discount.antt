-- ===== src/Promo/Discount.antt =====
-- How large a discount can be.
use bondzi_backend.Prelude.{ℕ, ◌+◌, ◌*◌, ◌≤◌, ◌<◌, ◌≡◌, false, arith}
use bondzi_backend.Enums.{percent}
use bondzi_backend.Promo.{PromoCode, over_percent, compute_discount}

mul_le : (g v : ℕ) → v ≤ 10000 → g * v ≤ g * 10000
mul_le g v h = grind arith

-- A code whose percentage is at most 100 never takes more than the price.
pub compute_discount-le :
    (row : PromoCode) (gross : ℕ)
    → over_percent row.discount_type row.discount_value ≡ false
    → compute_discount row gross ≤ gross
unfolding compute_discount
compute_discount-le row gross h = ground (arith, mul_le gross row.discount_value)

-- The rounding of a percentage is to the nearest minor unit.
compute_discount_near :
    (row : PromoCode) (gross : ℕ)
    → row.discount_type ≡ percent
    → (10000 * compute_discount row gross ≤ gross * row.discount_value + 5000)
      × (gross * row.discount_value < 10000 * compute_discount row gross + 5000)
unfolding compute_discount
compute_discount_near row gross h = (ground arith, ground arith)
