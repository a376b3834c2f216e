-- ===== src/Exams/Session.antt =====
-- `getOne`, `resumeMostRecent` and `abandon` of src/modules/exams/exams.service.ts, and the session
-- page of serializers/exam-session.serializer.ts. Of a question only its id is kept, so the gate on
-- its explanation is left out.
pub mod Resume
use bondzi_backend.Prelude.{
  ℕ, ◌*◌, Bool, true, false, not, ◌&&◌, Option, none, some, List, [], ◌∷◌, ltb, leb, ◌==◌,
  if◌then◌else◌, or_default, find?, any, keep, length, update_where, Result, ok, err,
}
use bondzi_backend.Exams.{
  ExamMode, Exam, ExamAnswer, Question, Campus, abandoned, is_in_progress, is_completed, with_id,
  own_exam, answers_to, ExamStatus,
}
use bondzi_backend.Exams.Complete.{Grade, grade_by}

pub record ExamSession : Type 0 where
  pub id : ℕ
  pub user_id : ℕ
  pub mode : ExamMode
  pub question_count : ℕ
  pub duration_seconds : Option ℕ
  pub started_at : ℕ
  pub completed_at : Option ℕ
  pub abandoned_at : Option ℕ
  pub score : Option ℕ
  pub grade : Option Grade
  pub questions : List ℕ
  pub subject_ids : List ℕ

abbrev pub is_abandoned : ExamStatus → Bool
is_abandoned abandoned = true
is_abandoned _ = false

-- `deriveGrade` of a percentage that may be null
abbrev pub session_grade : Option ℕ → Option Grade
session_grade none = none
session_grade (some hundredths) = some (grade_by (λ n. leb (n * 100) hundredths))

-- `toExamSessionResponse`
unfoldable pub to_exam_session : Exam → List ℕ → ExamSession
to_exam_session exam questions = record {
  id = exam.id;
  user_id = exam.user_id;
  mode = exam.mode;
  question_count = or_default exam.total_questions (length questions);
  duration_seconds = exam.duration_seconds;
  started_at = exam.started_at;
  completed_at = exam.completed_at;
  abandoned_at = if is_abandoned exam.status then exam.completed_at else none;
  score = exam.score;
  grade = if is_completed exam.status then session_grade exam.percent_score else none;
  questions = questions;
  subject_ids = exam.subject_ids;
}

-- the questions that are left, in the order of the exam, as far as the table of past-paper
-- questions has them
unfoldable pub remaining : ℕ → List ExamAnswer → List Question → List ℕ → List ℕ
remaining id answers questions ids =
    keep (λ k. not (any (answers_to id k) answers) && any (λ q. q.id == k) questions) ids

-- `getOne`
unfoldable pub get_one : ℕ → ℕ → Campus → Result ExamSession
get_one user id c = elim (own_exam user id c.exams) [
  | err e ↦ err e
  | ok exam ↦ ok (to_exam_session exam (remaining id c.answers c.questions exam.question_ids))
]

-- `ORDER BY started_at DESC`; among equals, whose order SQL leaves open, the newest row
unfoldable pub latest_open : ℕ → List Exam → Option Exam
latest_open user [] = none
latest_open user (e ∷ es) =
    let rest = latest_open user es in
    if e.user_id == user && is_in_progress e.status
    then elim rest [
      | none ↦ some e
      | some x ↦ if ltb e.started_at x.started_at then some x else some e
    ]
    else rest

-- `resumeMostRecent`
unfoldable pub resume_most_recent : ℕ → Campus → Result (Option ExamSession)
resume_most_recent user c = elim (latest_open user c.exams) [
  | none ↦ ok none
  | some exam ↦ elim (get_one user exam.id c) [ err e ↦ err e | ok session ↦ ok (some session) ]
]

abbrev pub abandoned_exam : Exam → Exam
abandoned_exam e = record e { status = abandoned }

-- `abandon`
unfoldable pub abandon : ℕ → ℕ → Campus → Result (Unit {0}) × Campus
abandon user id c = elim (own_exam user id c.exams) [
  | err e ↦ (err e, c)
  | ok exam ↦ (
    ok tt,
    record c { exams = update_where (with_id exam.id) (λ _. abandoned_exam exam) c.exams },
  )
]
