-- ===== src/Srs/Rounding.antt =====
-- How near the two products and sums of `sm2`, which round, come to the real numbers.
use native.Mathlib.Decide.{dec_le}
use bondzi_backend.Prelude.{ℕ, ◌+◌, ◌-◌, ◌*◌, ◌^◌, ◌≤◌, ◌≡◌, ap, refl, max, arith}
use bondzi_backend.Srs.{penalty, ease_update, stretch, double_0_1, double_1_3}
use bondzi_backend.Srs.Double.{one, round, Near, round-Near}

-- a hundred times what the formula gives in real numbers: the ease factor and
-- 0.1 - (5 - q) * (0.08 + (5 - q) * 0.02), but 1.3 at least
abbrev pub ideal_ease : ℕ → ℕ → ℕ
ideal_ease quality ease =
    max (130 * one) (100 * ease + 10 * one - (5 - quality) * (8 + (5 - quality) * 2) * one)

-- The new ease factor is off the real one by at most (ease + 1) / 2^53.
abbrev pub EaseRule : ℕ → ℕ → ℕ → Type 0
EaseRule quality ease ease' =
    Near (2 ^ 53 * (100 * ease')) (2 ^ 53 * ideal_ease quality ease) (100 * (ease + one))

pub stretch-Near :
    (interval ease : ℕ)
    → Near
        (2 ^ 53 * (stretch interval ease * one))
        (2 ^ 53 * (interval * ease))
        (2 ^ 53 * 2 ^ 57 + interval * ease)
unfolding stretch
stretch-Near interval ease =
    let near = round-Near (interval * ease) in
    (omega (arith, near.0, near.1), omega (arith, near.0, near.1))

pub stretch-le : (interval ease : ℕ) → double_1_3 ≤ ease → interval ≤ stretch interval ease
unfolding stretch
stretch-le interval ease h =
    let near = round-Near (interval * ease) in
    let grown_by : interval * double_1_3 ≤ interval * ease = grind arith in
    omega (arith, near.0, near.1, grown_by)

-- the constants of the three qualities that pass
penalty_three : round (penalty 3 - double_0_1) ≡ 40352252661239640
unfolding penalty round
penalty_three = refl

penalty_four : round (double_0_1 - penalty 4) ≡ 0
unfolding penalty round
penalty_four = refl

penalty_five : round (double_0_1 - penalty 5) ≡ double_0_1
unfolding penalty round
penalty_five = refl

ease_update_three : (e : ℕ) → ease_update 3 e ≡ max double_1_3 (round (e - 40352252661239640))
unfolding ease_update penalty
ease_update_three e = ap (λ d. max double_1_3 (round (e - d))) penalty_three

ease_update_four : (e : ℕ) → ease_update 4 e ≡ max double_1_3 (round (e + 0))
unfolding ease_update penalty
ease_update_four e = ap (λ d. max double_1_3 (round (e + d))) penalty_four

ease_update_five : (e : ℕ) → ease_update 5 e ≡ max double_1_3 (round (e + double_0_1))
unfolding ease_update penalty
ease_update_five e = ap (λ d. max double_1_3 (round (e + d))) penalty_five

three-EaseRule : (e : ℕ) → double_1_3 ≤ e → EaseRule 3 e (ease_update 3 e)
three-EaseRule e he =
    let near = round-Near (e - 40352252661239640) in
    rw (ease_update_three e) (ground (arith, near.0, near.1), ground (arith, near.0, near.1))

four-EaseRule : (e : ℕ) → double_1_3 ≤ e → EaseRule 4 e (ease_update 4 e)
four-EaseRule e he =
    let near = round-Near (e + 0) in
    rw (ease_update_four e) (ground (arith, near.0, near.1), ground (arith, near.0, near.1))

five-EaseRule : (e : ℕ) → double_1_3 ≤ e → EaseRule 5 e (ease_update 5 e)
five-EaseRule e he =
    let near = round-Near (e + double_0_1) in
    rw (ease_update_five e) (ground (arith, near.0, near.1), ground (arith, near.0, near.1))

pub ease_update-EaseRule :
    (q e : ℕ) → 3 ≤ q → q ≤ 5 → double_1_3 ≤ e → EaseRule q e (ease_update q e)
ease_update-EaseRule q e lo hi he = elim (dec_le q 3) [
  | yes three ↦ let same : q ≡ 3 = omega arith in rw same (three-EaseRule e he)
  | no more ↦ elim (dec_le q 4) [
    | yes four ↦ let same : q ≡ 4 = omega arith in rw same (four-EaseRule e he)
    | no five ↦ let same : q ≡ 5 = omega arith in rw same (five-EaseRule e he)
  ]
]

pub ease_update-le : (q e : ℕ) → double_1_3 ≤ ease_update q e
unfolding ease_update
ease_update-le q e = ground arith
