-- ===== src/Srs/Tests.antt =====
-- Runs of the SM-2 update and of a review, and their theorems at concrete cards.
use bondzi_backend.Prelude.{
  ◌+◌, ◌*◌, ◌≡◌, refl, some, [], ◌∷◌, true, false, ok, err, internal, find?, arith,
}
use bondzi_backend.Srs.{
  num, Store, is_card, sm2, schedule, advance, grown, review, upsert_or_ignore, day_ms, double_2_5,
  ease_update, penalty, stretch,
}
use bondzi_backend.Srs.Double.{round}
use bondzi_backend.Srs.Bounds.{card_of, sm2_range}
use bondzi_backend.Srs.NewCard.{IsNew, review_new_passed, fresh_card, upsert_or_ignore_new}

abbrev store : Store
store = record { cards = fresh_card 1 7 1 0 ∷ []; questions = 7 ∷ 8 ∷ []; invalidated = [] }

-- a third passed review: the interval 6 grows by 2.5
third_review :
    sm2 4 (card_of double_2_5 6 2) 1000
    ≡ ok (record {
      ease_factor = num double_2_5;
      interval_days = num 15;
      repetitions = num 3;
      last_quality = 4;
      next_review_at = num (1000 + 15 * day_ms);
      last_reviewed_at = 1000;
    })
unfolding sm2 schedule advance grown ease_update penalty stretch round
third_review = refl

-- 2.36 and 25 days: the code computes 2.2199999999999998 and Math.round(55.49999999999999)
rounds_down :
    (ease_update 3 680223687718039680 ≡ 639871435056800000)
    × (stretch 25 (ease_update 3 680223687718039680) ≡ 55)
unfolding ease_update penalty stretch round
rounds_down = (refl, refl)

sm2_range_example : sm2 6 (card_of double_2_5 6 2) 1000 ≡ err internal
sm2_range_example = sm2_range 6 (card_of double_2_5 6 2) 1000 (omega arith)

eight-IsNew : IsNew 1 8 store
eight-IsNew = record { no_card = refl; known = refl }

review_new_passed_example : review 1 8 4 1000 store ≡ err internal
review_new_passed_example =
    review_new_passed 1 8 4 1000 store eight-IsNew (omega arith) (omega arith)

upsert_or_ignore_new_example :
    (upsert_or_ignore 1 8 true 1000 store ≡ store)
    × (find? (is_card 1 8) (upsert_or_ignore 1 8 false 1000 store).cards
        ≡ some (fresh_card 1 8 1 1000))
upsert_or_ignore_new_example = upsert_or_ignore_new 1 8 1000 store eight-IsNew
