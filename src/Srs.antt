-- ===== src/Srs.antt =====
-- src/modules/srs: the SM-2 update (utils/sm2.util.ts) and the review of a card (srs.service.ts).
-- A JavaScript number that the code reads from a row may be `undefined` and a computed one may be
-- NaN, so both are values of `JsNumber`. The ease factor is a double, in the code, in the column and
-- here, counted in units of 2^-58 (Srs/Double.antt); the other numbers are whole, and taken to be
-- within their columns. Dates are milliseconds, within the range of `Date`; NaN is the invalid one.
pub mod Double
pub mod Rounding
pub mod Bounds
pub mod NewCard
pub mod Counts
mod Tests
use bondzi_backend.Prelude.{
  ℕ, ◌+◌, ◌-◌, ◌*◌, ◌/◌, Bool, true, false, ◌&&◌, Option, none, some, List, [], ◌∷◌, max, ltb, leb,
  ◌==◌, if◌then◌else◌, find?, any, length, count_if, update_where, HttpError, not_found, internal,
  Result, ok, err, ◌>>=◌, ◌>>◌, throw_if,
}
use bondzi_backend.Srs.Double.{round, math_round}

pub data JsNumber : Type 0 where
  undefined : JsNumber
  nan : JsNumber
  num : ℕ → JsNumber

-- arithmetic on a value that is no number gives NaN
abbrev pub lift : (ℕ → ℕ) → JsNumber → JsNumber
lift f (num n) = num (f n)
lift f _ = nan

abbrev pub lift2 : (ℕ → ℕ → ℕ) → JsNumber → JsNumber → JsNumber
lift2 f (num n) y = lift (f n) y
lift2 f _ y = nan

-- `x === n`
abbrev pub is_num : JsNumber → ℕ → Bool
is_num (num m) n = m == n
is_num _ n = false

pub record Sm2Input : Type 0 where
  pub ease_factor : JsNumber
  pub interval_days : JsNumber
  pub repetitions : JsNumber

pub record Sm2State : Type 0 where
  pub ease_factor : JsNumber
  pub interval_days : JsNumber
  pub repetitions : JsNumber
  pub last_quality : ℕ
  pub next_review_at : JsNumber
  pub last_reviewed_at : ℕ

abbrev pub day_ms : ℕ
day_ms = 24 * 60 * 60 * 1000

-- the constants 0.02, 0.08, 0.1, 1.3 and 2.5 as the doubles that they are read as
abbrev pub double_0_02 : ℕ
double_0_02 = 5764607523034235

abbrev pub double_0_08 : ℕ
double_0_08 = 23058430092136940

abbrev pub double_0_1 : ℕ
double_0_1 = 28823037615171176

abbrev pub double_1_3 : ℕ
double_1_3 = 374699488997225280

abbrev pub double_2_5 : ℕ
double_2_5 = 720575940379279360

-- `(5 - quality) * (0.08 + (5 - quality) * 0.02)`, each operation rounded
unfoldable pub penalty : ℕ → ℕ
unfolding round
penalty quality =
    let missing = 5 - quality in
    round (missing * round (double_0_08 + round (missing * double_0_02)))

-- `Math.max(1.3, easeFactor + delta)`, where `delta` is 0.1 less the penalty and may be negative;
-- where the sum would be negative 1.3 is taken in any case
unfoldable pub ease_update : ℕ → ℕ → ℕ
ease_update quality ease =
    let c = penalty quality in
    max double_1_3 (
      if leb c double_0_1
      then round (ease + round (double_0_1 - c))
      else round (ease - round (c - double_0_1)))

-- `Math.round(intervalDays * easeFactor)`
unfoldable pub stretch : ℕ → ℕ → ℕ
stretch interval ease = math_round (round (interval * ease))

pub grown : JsNumber → JsNumber → JsNumber → JsNumber
grown repetitions interval ease =
    if is_num repetitions 0
    then num 1
    else if is_num repetitions 1
    then num 6
    else lift2 stretch interval ease

-- the branches of `sm2` that set the three numbers of the card
pub advance : ℕ → Sm2Input → Sm2Input
advance quality card =
    if ltb quality 3
    then record card { interval_days = num 1; repetitions = num 0 }
    else let ease = lift (ease_update quality) card.ease_factor in
      record {
        ease_factor = ease;
        interval_days = grown card.repetitions card.interval_days ease;
        repetitions = lift (λ n. n + 1) card.repetitions;
      }

pub schedule : ℕ → Sm2Input → ℕ → Sm2State
schedule quality card now = record {
  ease_factor = card.ease_factor;
  interval_days = card.interval_days;
  repetitions = card.repetitions;
  last_quality = quality;
  next_review_at = lift (λ days. now + days * day_ms) card.interval_days;
  last_reviewed_at = now;
}

-- `sm2`; qualities are whole and not negative by their type
unfoldable pub sm2 : ℕ → Sm2Input → ℕ → Result Sm2State
sm2 quality card now = do
  throw_if (ltb 5 quality) internal
  ok (schedule quality (advance quality card) now)

-- A row of `srs_cards`: its columns hold numbers.
pub record SrsCard : Type 0 where
  pub user_id : ℕ
  pub question_id : ℕ
  pub ease_factor : ℕ
  pub interval_days : ℕ
  pub repetitions : ℕ
  pub last_quality : Option ℕ
  pub next_review_at : ℕ
  pub last_reviewed_at : Option ℕ

pub record Store : Type 0 where
  pub cards : List SrsCard
  pub questions : List ℕ
  -- users whose `srsDueCount` key was deleted, the latest first
  pub invalidated : List ℕ

abbrev pub is_card : ℕ → ℕ → SrsCard → Bool
is_card user question c = c.user_id == user && c.question_id == question

-- The numbers of the entity that `review` works on: those of the row, or, for an entity fresh
-- from `cardsRepo.create({ userId, questionId })`, none: column defaults are set by the insert.
unfoldable pub load_card : ℕ → ℕ → Store → Result Sm2Input
load_card user question s = elim (find? (is_card user question) s.cards) [
  | some c ↦ ok (record {
    ease_factor = num c.ease_factor;
    interval_days = num c.interval_days;
    repetitions = num c.repetitions;
  })
  | none ↦
      if any (λ q. q == question) s.questions
      then ok
          (record { ease_factor = undefined; interval_days = undefined; repetitions = undefined })
      else err not_found
]

-- What a column stores: `undefined` leaves its default, and NaN is refused by an integer or
-- timestamp column.
abbrev pub column : ℕ → JsNumber → Result ℕ
column default undefined = ok default
column default nan = err internal
column default (num n) = ok n

-- the assignments to the card and `cardsRepo.save(card)`
pub row_of : ℕ → ℕ → Sm2State → Result SrsCard
row_of user question next = do
  ease ← column double_2_5 next.ease_factor
  interval ← column 1 next.interval_days
  repetitions ← column 0 next.repetitions
  due ← column next.last_reviewed_at next.next_review_at
  ok (record {
    user_id = user;
    question_id = question;
    ease_factor = ease;
    interval_days = interval;
    repetitions = repetitions;
    last_quality = some next.last_quality;
    next_review_at = due;
    last_reviewed_at = some next.last_reviewed_at;
  })

unfoldable pub save_card : SrsCard → List SrsCard → List SrsCard
save_card c cards =
    if any (is_card c.user_id c.question_id) cards
    then update_where (is_card c.user_id c.question_id) (λ _. c) cards
    else c ∷ cards

-- `review`: the saved card and the store after it
unfoldable pub review : ℕ → ℕ → ℕ → ℕ → Store → Result (SrsCard × Store)
review user question quality now s = do
  card ← load_card user question s
  next ← sm2 quality card now
  c ← row_of user question next
  ok (c, record s { cards = save_card c s.cards; invalidated = user ∷ s.invalidated })

-- `upsertFromAnswer`
unfoldable pub upsert_from_answer : ℕ → ℕ → Bool → ℕ → Store → Result (SrsCard × Store)
upsert_from_answer user question is_correct now s =
    review user question (if is_correct then 4 else 1) now s

-- the call of `upsertFromAnswer` in `ExamsService.submitAnswer`, whose `catch` drops the error
unfoldable pub upsert_or_ignore : ℕ → ℕ → Bool → ℕ → Store → Store
upsert_or_ignore user question is_correct now s =
    elim (upsert_from_answer user question is_correct now s) [ ok (c, t) ↦ t | err e ↦ s ]

pub record Stats : Type 0 where
  pub total : ℕ
  pub due_today : ℕ
  pub overdue : ℕ
  pub mastered : ℕ

abbrev pub due_by : ℕ → ℕ → SrsCard → Bool
due_by user time c = c.user_id == user && leb c.next_review_at time

-- the four counts of `stats`; `start_of_day` and `end_of_day` are taken in the server's time zone
unfoldable pub stats : ℕ → ℕ → ℕ → Store → Stats
stats user start_of_day end_of_day s = record {
  total = count_if (λ c. c.user_id == user) s.cards;
  due_today = count_if (due_by user end_of_day) s.cards;
  overdue = count_if (due_by user start_of_day) s.cards;
  mastered = count_if (λ c. c.user_id == user && ltb 21 c.interval_days) s.cards;
}
