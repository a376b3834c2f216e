-- ===== src/Srs/NewCard.antt =====
-- The first review of a question.
use bondzi_backend.Prelude.{
  ℕ, ◌+◌, ◌*◌, ◌≤◌, ◌<◌, ◌≡◌, true, false, none, some, ◌∷◌, ◌==◌, find?, any, any_of_find?-none, ok,
  err, internal, arith,
}
use bondzi_backend.Srs.{
  SrsCard, Store, undefined, sm2, advance, schedule, grown, load_card, row_of, save_card, is_card,
  review, upsert_from_answer, upsert_or_ignore, day_ms, double_2_5,
}

-- The user has no card for the question, which exists.
pub record IsNew (user question : ℕ) (s : Store) : Type 0 where
  pub no_card : find? (is_card user question) s.cards ≡ none
  pub known : any (λ q. q == question) s.questions ≡ true

load_new :
    (user question : ℕ) (s : Store)
    → IsNew user question s
    → load_card user question s
      ≡ ok (record { ease_factor = undefined; interval_days = undefined; repetitions = undefined })
unfolding load_card
load_new user question s h = ground arith

-- The entity has no numbers before it is saved, so a passed review computes NaN and the save is
-- refused: nothing is stored.
pub review_new_passed :
    (user question q now : ℕ) (s : Store)
    → IsNew user question s
    → 3 ≤ q
    → q ≤ 5
    → review user question q now s ≡ err internal
unfolding review sm2 advance schedule grown row_of
review_new_passed user question q now s h lo hi = ground (arith, load_new user question s h)

abbrev pub fresh_card : ℕ → ℕ → ℕ → ℕ → SrsCard
fresh_card user question q now = record {
  user_id = user;
  question_id = question;
  ease_factor = double_2_5;
  interval_days = 1;
  repetitions = 0;
  last_quality = some q;
  next_review_at = now + 1 * day_ms;
  last_reviewed_at = some now;
}

-- A failed first review does store a card, due in one day.
review_new_failed :
    (user question q now : ℕ) (s : Store)
    → IsNew user question s
    → q < 3
    → review user question q now s
      ≡ ok (
        fresh_card user question q now,
        record s {
          cards = save_card (fresh_card user question q now) s.cards;
          invalidated = user ∷ s.invalidated;
        },
      )
unfolding review sm2 advance schedule grown row_of
review_new_failed user question q now s h lo = ground (arith, load_new user question s h)

-- For a user and an existing question without a card, a correct answer stores nothing, since the
-- numbers of the new card are NaN and the error of the save is dropped; an incorrect one stores
-- a card with the default ease factor, due in one day.
pub upsert_or_ignore_new :
    (user question now : ℕ) (s : Store)
    → IsNew user question s
    → (upsert_or_ignore user question true now s ≡ s)
      × (find? (is_card user question) (upsert_or_ignore user question false now s).cards
          ≡ some (fresh_card user question 1 now))
unfolding upsert_or_ignore upsert_from_answer save_card
upsert_or_ignore_new user question now s h = (
  ground (arith, review_new_passed user question 4 now s h (omega arith) (omega arith)),
  ground (
    arith,
    review_new_failed user question 1 now s h (omega arith),
    any_of_find?-none (is_card user question) s.cards,
  ),
)
