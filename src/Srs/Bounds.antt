-- ===== src/Srs/Bounds.antt =====
-- What SM-2 does to a card whose columns hold numbers.
use bondzi_backend.Prelude.{
  ◌⊎◌, ℕ, ◌+◌, ◌*◌, ◌^◌, ◌≤◌, ◌<◌, ◌≡◌, err, internal, ◌||◌, ltb, ◌==◌, if◌then◌else◌, arith,
}
use bondzi_backend.Srs.{
  num, Sm2Input, Sm2State, sm2, schedule, day_ms, ease_update, stretch, double_1_3,
}
use bondzi_backend.Srs.Double.{one, Near}
use bondzi_backend.Srs.Rounding.{EaseRule}

abbrev pub card_of : ℕ → ℕ → ℕ → Sm2Input
card_of ease interval repetitions = record {
  ease_factor = num ease;
  interval_days = num interval;
  repetitions = num repetitions;
}

-- The result is a schedule that a row can hold: three numbers, the ease factor 1.3 at least, and
-- the next review a whole number of days later, one day at least.
pub record IsScheduled (now quality ease interval repetitions : ℕ) (t : Sm2State) : Type 0 where
  pub numbers : t ≡ schedule quality (card_of ease interval repetitions) now
  pub due : t.next_review_at ≡ num (now + interval * day_ms)
  pub ease_floor : double_1_3 ≤ ease
  pub positive : 1 ≤ interval

-- 1 day, then 6, then never less than the last interval, and next to it times the factor: off by
-- half a day at most and by one part in 2^53
abbrev pub IntervalRule : ℕ → ℕ → ℕ → ℕ → Type 0
IntervalRule repetitions interval ease' interval' =
    ((repetitions ≡ 0) × (interval' ≡ 1))
    ⊎ (((repetitions ≡ 1) × (interval' ≡ 6))
        ⊎ ((2 ≤ repetitions)
            × (interval ≤ interval')
            × Near (2 ^ 53 * (interval' * one)) (2 ^ 53 * (interval * ease'))
                (2 ^ 53 * 2 ^ 57 + interval * ease')))

-- The algorithm as its description has it: a failed review starts over, a passed one counts, moves
-- the ease factor and stretches the interval.
abbrev pub Follows : ℕ → ℕ → ℕ → ℕ → ℕ → ℕ → ℕ → Type 0
Follows quality ease interval repetitions ease' interval' repetitions' =
    ((quality < 3) × (ease' ≡ ease) × (interval' ≡ 1) × (repetitions' ≡ 0))
    ⊎ ((3 ≤ quality)
        × (repetitions' ≡ repetitions + 1)
        × EaseRule quality ease ease'
        × IntervalRule repetitions interval ease' interval')

-- The three numbers after a review.
ease_after : ℕ → ℕ → ℕ
ease_after q e = if ltb q 3 then e else ease_update q e

interval_after : ℕ → ℕ → ℕ → ℕ → ℕ
interval_after q e i r =
    if ltb q 3 || r == 0 then 1 else if r == 1 then 6 else stretch i (ease_after q e)

repetitions_after : ℕ → ℕ → ℕ
repetitions_after q r = if ltb q 3 then 0 else r + 1

-- Any other quality is refused.
pub sm2_range : (q : ℕ) (card : Sm2Input) (now : ℕ) → 5 < q → sm2 q card now ≡ err internal
unfolding sm2
sm2_range q card now h = ground arith
