-- ===== src/Exams/Complete.antt =====
-- `complete` of src/modules/exams/exams.service.ts, and the result page of
-- serializers/exam-result.serializer.ts, of which texts are left out. `c.toFixed(2)` is the nearest
-- hundredth; a half goes up.
pub mod Again
pub mod Grades
use bondzi_backend.Prelude.{
  ℕ, ◌+◌, ◌-◌, ◌*◌, ◌/◌, Bool, true, false, not, ◌&&◌, Option, none, some, List, [], ◌∷◌, map, ltb,
  leb, ◌==◌, if◌then◌else◌, find?, keep, count_if, length, update_where, Result, ok, err,
}
use bondzi_backend.Xp.{Xp, AwardXpResult, award_xp}
use bondzi_backend.Community.{Community}
use bondzi_backend.Community.Streak.{record_study_day}
use bondzi_backend.Community.Referrals.{check_qualification}
use bondzi_backend.Exams.{
  Exam, ExamAnswer, Question, TopicAccuracy, Campus, completed, is_completed, with_id, own_exam,
  of_exam, answered_by,
}
use bondzi_backend.Exams.Submit.{given}
use bondzi_backend.Exams.Progress.{topics_with, update_subject_progress}

-- the event keys are texts, which the code only compares
abbrev pub exam_complete : ℕ
exam_complete = 3

abbrev pub exam_perfect : ℕ
exam_perfect = 4

pub data Grade : Type 0 where
  a1 b2 b3 c4 c5 c6 d7 e8 f9 : Grade

-- `deriveGrade`, by the test `percent >= n`
abbrev pub grade_by : (ℕ → Bool) → Grade
grade_by reaches =
    if reaches 75
    then a1
    else if reaches 70
    then b2
    else if reaches 65
    then b3
    else if reaches 60
    then c4
    else if reaches 55
    then c5
    else if reaches 50
    then c6
    else if reaches 45
    then d7
    else if reaches 40
    then e8
    else f9

-- `(correct / total) * 100 >= n`, which is 0 where there is no question
abbrev pub ratio_reaches : ℕ → ℕ → ℕ → Bool
ratio_reaches correct total n = if total == 0 then false else leb (n * total) (correct * 100)

pub record ExamResult : Type 0 where
  pub exam_id : ℕ
  pub grade : Grade
  pub total_questions : ℕ
  pub correct_count : ℕ
  pub wrong_count : ℕ
  pub skipped_count : ℕ
  pub xp_earned : ℕ
  pub duration_seconds : ℕ
  pub by_topic : List TopicAccuracy
  pub wrong_answers : List ℕ

-- the loop that fills `byTopicMap`, less the entry of questions without a topic
unfoldable pub topics_of : List Question → List ExamAnswer → List TopicAccuracy → List TopicAccuracy
topics_of questions [] ts = ts
topics_of questions (a ∷ more) ts =
    topics_of questions more (elim (find? (λ q. q.id == a.question_id) questions) [
      | none ↦ ts
      | some q ↦ topics_with q.topic_id a.is_correct ts
    ])

unfoldable pub duration : Option ℕ → ℕ → ℕ
duration none started = 0
duration (some at) started = (at - started + 500) / 1000

-- `toExamResultResponse`
unfoldable pub to_exam_result : Exam → List ExamAnswer → List Question → ExamResult
to_exam_result exam answers questions =
    let total = length exam.question_ids in
    let right = count_if (λ a. a.is_correct) answers in
    record {
      exam_id = exam.id;
      grade = grade_by (ratio_reaches right total);
      total_questions = total;
      correct_count = right;
      wrong_count = count_if (λ a. not a.is_correct) answers;
      skipped_count = total - length answers;
      xp_earned = right * 10;
      duration_seconds = duration exam.completed_at exam.started_at;
      by_topic = topics_of questions answers [];
      wrong_answers = map (λ a. a.question_id) (keep (λ a. not a.is_correct) answers);
    }

-- `getResult`
unfoldable pub get_result : ℕ → ℕ → Campus → Result ExamResult
get_result user id c = elim (own_exam user id c.exams) [
  | err e ↦ err e
  | ok exam ↦ ok (to_exam_result exam (keep (of_exam id) c.answers) c.questions)
]

-- `Number(((correct / total) * 100).toFixed(2))` in hundredths, halves up; the quotient of doubles
-- gives the same for all exams that the DTO of `create` allows, of 100 questions at most
unfoldable pub percent_hundredths : ℕ → ℕ → ℕ
percent_hundredths correct total = if total == 0 then 0 else (correct * 20000 + total) / (2 * total)

abbrev pub amount_of : Option AwardXpResult → ℕ
amount_of none = 0
amount_of (some r) = r.xp_amount

-- the completion bonus and the bonus of a perfect score: what they gave, and the tables after them
unfoldable pub completion_xp : ℕ → ℕ → Bool → ℕ → ℕ → Xp → ℕ × Xp
completion_xp user id perfect day month s =
    let (r, s') = award_xp user exam_complete (some id) day month s in
    if perfect
    then (let (r', t) = award_xp user exam_perfect (some id) day month s' in
        (amount_of (given r) + amount_of (given r'), t))
    else (amount_of (given r), s')

unfoldable pub completed_exam : Exam → ℕ → ℕ → ℕ → Exam
completed_exam exam right xp now = record exam {
  score = some right;
  total_questions = some (length exam.question_ids);
  percent_score = some (percent_hundredths right (length exam.question_ids));
  status = completed;
  completed_at = some now;
  xp_earned = xp;
}

-- the streak and the referral after the exam was saved
unfoldable pub after_complete : ℕ → ℕ → ℕ → ℕ → ℕ → Community → Community
after_complete user answered now day month c =
    (check_qualification user answered now day month (record_study_day user day month c).1).1

-- the part of `complete` for an exam that is not completed
unfoldable pub complete_exam : ℕ → Exam → ℕ → ℕ → ℕ → Campus → ExamResult × Campus
complete_exam user exam now day month c =
    let answers = keep (of_exam exam.id) c.answers in
    let right = count_if (λ a. a.is_correct) answers in
    let total = length exam.question_ids in
    let (xp, s) =
      completion_xp user exam.id (ltb 0 total && right == total) day month c.community.xp in
    let row = completed_exam exam right xp now in
    (
      to_exam_result row answers c.questions,
      record c {
        exams = update_where (with_id exam.id) (λ _. row) c.exams;
        community =
            after_complete user (answered_by user c) now day month
              (record (c.community) { xp = s });
        progress =
            update_subject_progress user now exam.question_ids c.questions answers c.progress;
      },
    )

-- `complete`
unfoldable pub complete : ℕ → ℕ → ℕ → ℕ → ℕ → Campus → Result ExamResult × Campus
complete user id now day month c = elim (own_exam user id c.exams) [
  | err e ↦ (err e, c)
  | ok exam ↦
      if is_completed exam.status
      then (get_result user id c, c)
      else let (r, t) = complete_exam user exam now day month c in (ok r, t)
]
