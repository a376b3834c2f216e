-- ===== src/Exams.antt =====
-- src/modules/exams: an exam is created with its questions, answered, and completed or abandoned.
-- The tables that exams.service.ts works on as one record, with those of the components it calls.
-- Times are milliseconds.
pub mod Saved
pub mod Submit
pub mod Progress
pub mod Complete
pub mod Session
pub mod Create
pub mod History
pub mod Weakness
mod Tests
use bondzi_backend.Prelude.{
  ℕ, Bool, true, false, ◌&&◌, Option, none, some, List, ◌==◌, find?, any, count_if, Result, ok, err,
  not_found, forbidden, if◌then◌else◌,
}
use bondzi_backend.Enums.{ExamType, QuestionPool}
use bondzi_backend.Srs
use bondzi_backend.Community.{Community}

pub data ExamMode : Type 0 where
  past_paper practice topic_drill pm_test srs_review mock_exam : ExamMode

pub data ExamStatus : Type 0 where
  in_progress completed abandoned paused : ExamStatus

-- `percent_score` is a decimal with two places, counted in hundredths
pub record Exam : Type 0 where
  pub id : ℕ
  pub user_id : ℕ
  pub exam_type : ExamType
  pub mode : ExamMode
  pub question_pool : QuestionPool
  pub status : ExamStatus
  pub question_ids : List ℕ
  pub subject_ids : List ℕ
  pub duration_seconds : Option ℕ
  pub score : Option ℕ
  pub total_questions : Option ℕ
  pub percent_score : Option ℕ
  pub xp_earned : ℕ
  pub started_at : ℕ
  pub completed_at : Option ℕ

pub record ExamAnswer : Type 0 where
  pub exam_id : ℕ
  pub question_id : ℕ
  pub question_pool : QuestionPool
  pub selected_option_id : Option ℕ
  pub typed_answer : Option ℕ
  pub is_correct : Bool
  pub time_spent_ms : Option ℕ

-- a row of `options` or of `pm_test_options`
pub record AnswerOption : Type 0 where
  pub id : ℕ
  pub question_id : ℕ
  pub is_correct : Bool

pub data Difficulty : Type 0 where
  easy medium hard : Difficulty

-- the columns of `questions` that an exam reads; of its status only whether it is active
pub record Question : Type 0 where
  pub id : ℕ
  pub subject_id : ℕ
  pub topic_id : Option ℕ
  pub exam_type : ExamType
  pub year : Option ℕ
  pub wassec_paper : Option ℕ
  pub section : Option ℕ
  pub difficulty : Difficulty
  pub is_active : Bool
  pub created_at : ℕ
  pub times_answered : ℕ
  pub times_correct : ℕ

pub record TopicAccuracy : Type 0 where
  pub topic_id : ℕ
  pub seen : ℕ
  pub correct : ℕ

pub record UserSubjectProgress : Type 0 where
  pub user_id : ℕ
  pub subject_id : ℕ
  pub questions_seen : ℕ
  pub questions_correct : ℕ
  pub total_time_ms : ℕ
  pub topic_accuracy : List TopicAccuracy
  pub last_studied_at : Option ℕ

pub record Campus : Type 0 where
  pub exams : List Exam
  pub answers : List ExamAnswer
  pub questions : List Question
  pub options : List AnswerOption
  pub pm_test_options : List AnswerOption
  pub progress : List UserSubjectProgress
  pub community : Community
  pub srs : Srs.Store
  pub next_id : ℕ

abbrev pub is_in_progress : ExamStatus → Bool
is_in_progress in_progress = true
is_in_progress _ = false

abbrev pub is_completed : ExamStatus → Bool
is_completed completed = true
is_completed _ = false

abbrev pub is_pm_test : QuestionPool → Bool
is_pm_test QuestionPool.pm_test = true
is_pm_test QuestionPool.past_paper = false

abbrev pub with_id : ℕ → Exam → Bool
with_id id e = e.id == id

abbrev pub exam_by_id : ℕ → List Exam → Option Exam
exam_by_id id = find? (with_id id)

-- the exam of the request, which has to be the user's
unfoldable pub own_exam : ℕ → ℕ → List Exam → Result Exam
own_exam user id exams = elim (exam_by_id id exams) [
  | none ↦ err not_found
  | some e ↦ if e.user_id == user then ok e else err forbidden
]

abbrev pub of_exam : ℕ → ExamAnswer → Bool
of_exam id a = a.exam_id == id

abbrev pub answers_to : ℕ → ℕ → ExamAnswer → Bool
answers_to id question a = a.exam_id == id && a.question_id == question

abbrev pub correct_of : ℕ → ExamAnswer → Bool
correct_of id a = a.exam_id == id && a.is_correct

abbrev pub contains : ℕ → List ℕ → Bool
contains k = any (λ j. j == k)

-- `select count(*) from exam_answers a inner join exams e on e.id = a.exam_id where e.user_id = $1`
abbrev pub is_owned : ℕ → List Exam → ExamAnswer → Bool
is_owned user exams a = any (λ e. e.id == a.exam_id && e.user_id == user) exams

abbrev pub answered_by : ℕ → Campus → ℕ
answered_by user c = count_if (is_owned user c.exams) c.answers
