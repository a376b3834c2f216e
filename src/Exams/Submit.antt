-- ===== src/Exams/Submit.antt =====
-- `submitAnswer` of src/modules/exams/exams.service.ts: one transaction, and what comes after it.
-- The referral check, which is not awaited, runs at the end.
pub mod Accepts
use bondzi_backend.Prelude.{
  ℕ, ◌+◌, Bool, true, false, not, Option, none, some, List, [], ◌∷◌, ◌==◌, if◌then◌else◌, find?,
  any, keep, update_where, holds_id, is_some, not_found, conflict, bad_request, Result, ok, err,
  ◌>>=◌, ◌>>◌, throw_if,
}
use bondzi_backend.Enums.{QuestionPool}
use bondzi_backend.Srs.{upsert_or_ignore}
use bondzi_backend.Xp.{AwardXpResult, award_xp}
use bondzi_backend.Community.{Community}
use bondzi_backend.Community.Referrals.{check_qualification}
use bondzi_backend.Exams.{
  Exam, ExamAnswer, AnswerOption, Question, Campus, is_in_progress, is_pm_test, own_exam,
  answers_to, contains, answered_by,
}

pub record SubmitAnswer : Type 0 where
  pub question_id : ℕ
  pub selected_option_id : Option ℕ
  pub typed_answer : Option ℕ
  pub time_spent_ms : Option ℕ

pub record Graded : Type 0 where
  pub is_correct : Bool
  pub correct_option_id : ℕ
  pub question_pool : QuestionPool

pub record SubmitResult : Type 0 where
  pub is_correct : Bool
  pub correct_option_id : ℕ
  pub xp : Option AwardXpResult

-- the event keys are texts, which the code only compares
abbrev pub correct_past_paper : ℕ
correct_past_paper = 1

abbrev pub correct_pm_test : ℕ
correct_pm_test = 2

abbrev pub options_of : ℕ → List AnswerOption → List AnswerOption
options_of question = keep (λ o. o.question_id == question)

abbrev pub or_other : List AnswerOption → List AnswerOption → List AnswerOption
or_other [] other = other
or_other (o ∷ os) other = o ∷ os

-- the options of the exam's pool, or, where it has none, those of the other one
unfoldable pub all_options : QuestionPool → ℕ → Campus → List AnswerOption
all_options QuestionPool.pm_test question c =
    or_other (options_of question c.pm_test_options) (options_of question c.options)
all_options QuestionPool.past_paper question c =
    or_other (options_of question c.options) (options_of question c.pm_test_options)

-- `selectedOptionId` is given and not one of the options
abbrev pub is_foreign : Option ℕ → List AnswerOption → Bool
is_foreign none options = false
is_foreign (some id) options = not (any (λ o. o.id == id) options)

-- the checks of the transaction
unfoldable pub grade : ℕ → ℕ → SubmitAnswer → Campus → Result Graded
grade user id dto c = do
  exam ← own_exam user id c.exams
  throw_if (not (is_in_progress exam.status)) conflict
  throw_if (not (contains dto.question_id exam.question_ids)) bad_request
  throw_if (any (answers_to id dto.question_id) c.answers) conflict
  let options = all_options exam.question_pool dto.question_id c
  elim (find? (λ o. o.is_correct) options) [
    | none ↦ err not_found
    | some right ↦ do
      throw_if (is_foreign dto.selected_option_id options) bad_request
      ok (record {
        is_correct = holds_id dto.selected_option_id right.id;
        correct_option_id = right.id;
        question_pool = exam.question_pool;
      })
  ]

abbrev pub counted : Bool → Question → Question
counted right q = record q {
  times_answered = q.times_answered + 1;
  times_correct = if right then q.times_correct + 1 else q.times_correct;
}

-- the row of the answer, whose `question_pool` keeps its default
abbrev pub answer_of : ℕ → SubmitAnswer → Bool → ExamAnswer
answer_of id dto right = record {
  exam_id = id;
  question_id = dto.question_id;
  question_pool = QuestionPool.past_paper;
  selected_option_id = dto.selected_option_id;
  typed_answer = dto.typed_answer;
  is_correct = right;
  time_spent_ms = dto.time_spent_ms;
}

-- the writes of the transaction
unfoldable pub record_answer : ℕ → SubmitAnswer → Bool → Campus → Campus
record_answer id dto right c = record c {
  answers = answer_of id dto right ∷ c.answers;
  questions = update_where (λ q. q.id == dto.question_id) (counted right) c.questions;
}

abbrev pub given : Result AwardXpResult → Option AwardXpResult
given (ok r) = some r
given (err e) = none

-- the XP of a correct answer, and the tables after it
unfoldable pub award_answer :
    ℕ → SubmitAnswer → Graded → ℕ → ℕ → Community → Option AwardXpResult × Community
award_answer user dto g day month c =
    if g.is_correct
    then (let (r, s) =
          award_xp user (if is_pm_test g.question_pool then correct_pm_test else correct_past_paper)
            (some dto.question_id) day month c.xp in
        (given r, record c { xp = s }))
    else (none, c)

-- what comes after the commit: no failure of it reaches the caller
unfoldable pub after_answer : ℕ → SubmitAnswer → Graded → ℕ → ℕ → ℕ → Campus → SubmitResult × Campus
after_answer user dto g now day month c =
    let (xp, community) = award_answer user dto g day month c.community in
    (
      record { is_correct = g.is_correct; correct_option_id = g.correct_option_id; xp = xp },
      record c {
        srs = upsert_or_ignore user dto.question_id g.is_correct now c.srs;
        community = (check_qualification user (answered_by user c) now day month community).1;
      },
    )

-- `submitAnswer`
unfoldable pub submit_answer :
    ℕ → ℕ → SubmitAnswer → ℕ → ℕ → ℕ → Campus → Result SubmitResult × Campus
submit_answer user id dto now day month c = elim (grade user id dto c) [
  | err e ↦ (err e, c)
  | ok g ↦
      let (r, t) = after_answer user dto g now day month (record_answer id dto g.is_correct c) in
      (ok r, t)
]
