-- ===== src/Exams/Create.antt =====
-- `create` of src/modules/exams/exams.service.ts with its three kinds of session. `hasEntitlement`
-- and the tier of the quotas are arguments, and so is the order that RANDOM() gives. A missing list
-- of a filter is an empty one, which the code treats alike.
pub mod Choice
pub mod Drawn
pub mod Outcome
use bondzi_backend.Prelude.{
  ℕ, ◌+◌, ◌*◌, Bool, true, false, not, ◌&&◌, ◌||◌, Option, none, some, List, [], ◌∷◌, map, ltb, leb,
  ◌==◌, if◌then◌else◌, or_default, holds_id, is_some, find?, any, keep, length, HttpError,
  not_found, forbidden, bad_request, Result, ok, err, ◌>>=◌, ◌>>◌, throw_if,
}
use bondzi_backend.Enums.{ExamType, AccountType, QuestionPool, question_pool_for}
use bondzi_backend.Quota.{Student, TierService, Usage, assert_and_consume}
use bondzi_backend.Exams.{ExamMode, Exam, Question, Difficulty, Campus, in_progress}
use bondzi_backend.Exams.Create.Choice.{
  CreateExam, PmTestQuestion, Pupil, Subject, is_past_paper, is_pm_mode, is_mock_mode, is_given,
  matches, matches_pm, matches_mock, weak_subjects, canonical, first,
}

-- the tables of an exam with those of the checks before it
pub record Desk : Type 0 where
  pub campus : Campus
  pub pupils : List Pupil
  pub subjects : List Subject
  pub pm_questions : List PmTestQuestion
  pub matrix : List TierService
  pub usage : List Usage

-- the services that are metered
abbrev pub past_papers_core : ℕ
past_papers_core = 1

abbrev pub past_papers_elective : ℕ
past_papers_elective = 2

abbrev pub level_tests : ℕ
level_tests = 3

abbrev pub mock_exams : ℕ
mock_exams = 4

abbrev pub student_of : Pupil → Student
student_of p = record { id = p.id; exam_type = some p.exam_type; form_level = p.form_level }

abbrev pub is_asked : List ℕ → Subject → Bool
is_asked ids s = any (λ k. k == s.id) ids

-- `assertCanStudySubjects`
unfoldable pub assert_can_study : Bool → List ℕ → List Subject → Result (Unit {0})
assert_can_study has_plus ids subjects =
    throw_if (any (λ s. is_asked ids s && not s.is_core) subjects && not has_plus) forbidden

-- `resolvePastPaperService`
unfoldable pub past_paper_service : List ℕ → List Subject → ℕ
past_paper_service ids subjects =
    if any (λ s. is_asked ids s && s.is_elective) subjects
    then past_papers_elective
    else past_papers_core

-- the row that is saved, which is the newest
unfoldable pub new_exam : Pupil → CreateExam → QuestionPool → Option ℕ → List ℕ → ℕ → ℕ → Exam
new_exam user dto pool seconds ids now id = record {
  id = id;
  user_id = user.id;
  exam_type = user.exam_type;
  mode = dto.mode;
  question_pool = pool;
  status = in_progress;
  question_ids = ids;
  subject_ids = dto.subject_ids;
  duration_seconds = seconds;
  score = none;
  total_questions = some (length ids);
  percent_score = none;
  xp_earned = 0;
  started_at = now;
  completed_at = none;
}

unfoldable pub save_exam :
    Pupil → CreateExam → QuestionPool → Option ℕ → List ℕ → ℕ → Campus → Campus
save_exam user dto pool seconds ids now c = record c {
  exams = new_exam user dto pool seconds ids now c.next_id ∷ c.exams;
  next_id = c.next_id + 1;
}

-- what a session is made of, once it is admitted
pub record Draw : Type 0 where
  pub pool : QuestionPool
  pub seconds : Option ℕ
  pub ids : List ℕ

module _ (random : List ℕ → List ℕ) where
  -- the questions of a past paper, a practice or a drill
  unfoldable pub draw : Pupil → CreateExam → Campus → Draw
  draw user dto c =
      let found = keep (matches user dto (weak_subjects user dto c.progress)) c.questions in
      record {
        pool = QuestionPool.past_paper;
        seconds = dto.duration_seconds;
        ids = first (or_default dto.question_count (if is_past_paper dto.mode then 50 else 20)) (
            if is_past_paper dto.mode
            then map (λ q. q.id) (canonical found)
            else random (map (λ q. q.id) found));
      }

  -- the questions of a level test
  unfoldable pub draw_pm : Pupil → CreateExam → List PmTestQuestion → Draw
  draw_pm user dto questions = record {
    pool = QuestionPool.pm_test;
    seconds = dto.duration_seconds;
    ids =
        first (or_default dto.question_count 20)
          (random (map (λ q. q.id) (keep (matches_pm user dto) questions)));
  }

  -- the questions of a mock exam: 50 of them, for three hours
  unfoldable pub draw_mock : Pupil → CreateExam → Campus → Draw
  draw_mock user dto c = record {
    pool = QuestionPool.past_paper;
    seconds = some (3 * 60 * 60);
    ids = first 50 (random (map (λ q. q.id) (keep (matches_mock user dto) c.questions)));
  }

  unfoldable pub draw_for : Pupil → CreateExam → Desk → Draw
  draw_for user dto d =
      if is_pm_mode dto.mode
      then draw_pm user dto d.pm_questions
      else if is_mock_mode dto.mode
      then draw_mock user dto d.campus
      else draw user dto d.campus

-- the filters that a mode refuses
unfoldable pub check_filter : CreateExam → Result (Unit {0})
check_filter dto = do
  throw_if (is_given dto.syllabus_topic_ids && not (is_pm_mode dto.mode)) bad_request
  throw_if (is_pm_mode dto.mode && is_given dto.topic_ids) bad_request
  throw_if (is_pm_mode dto.mode && (is_given dto.years || is_some dto.wassec_paper)) bad_request
  throw_if (is_mock_mode dto.mode && not (length dto.subject_ids == 1)) bad_request
  throw_if
      (is_mock_mode dto.mode
        && (is_given dto.topic_ids || (is_given dto.years || is_some dto.wassec_paper)))
      bad_request

-- the quota that a mode uses up, if any
unfoldable pub metered : CreateExam → List Subject → Option ℕ
metered dto subjects =
    if is_pm_mode dto.mode
    then some level_tests
    else if is_mock_mode dto.mode
    then some mock_exams
    else if is_past_paper dto.mode && is_given dto.subject_ids
    then some (past_paper_service dto.subject_ids subjects)
    else none

module _ (tier_of : ℕ → ExamType → Option AccountType) where
  -- `assertAndConsume`, where there is a quota
  unfoldable pub meter : ℕ → Option ℕ → ℕ → Desk → Result (Unit {0}) × List Usage
  meter user none today d = (ok tt, d.usage)
  meter user (some service) today d =
      let (r, usage) =
        assert_and_consume tier_of user service today (map student_of d.pupils) d.matrix d.usage in
      (elim r [ ok n ↦ ok tt | err e ↦ err e ], usage)

  module _ (random : List ℕ → List ℕ) (has_plus : ℕ → ExamType → Bool) where
    -- the part after the quota, which stays used when no question is found
    unfoldable pub open_session : Pupil → CreateExam → ℕ → Desk → Result Exam × Desk
    open_session user dto now d =
        let drawn = draw_for random user dto d in
        if length drawn.ids == 0 then (err bad_request, d) else (
          ok (new_exam user dto drawn.pool drawn.seconds drawn.ids now d.campus.next_id),
          record d { campus = save_exam user dto drawn.pool drawn.seconds drawn.ids now d.campus },
        )

    -- the checks before anything is written
    unfoldable pub admit : ℕ → CreateExam → Desk → Result Pupil
    admit user dto d = elim (find? (λ p. p.id == user) d.pupils) [
      | none ↦ err not_found
      | some p ↦ do
        assert_can_study (has_plus user p.exam_type) dto.subject_ids d.subjects
        check_filter dto
        ok p
    ]

    -- `create`
    unfoldable pub create : ℕ → CreateExam → ℕ → ℕ → Desk → Result Exam × Desk
    create user dto now today d = elim (admit user dto d) [
      | err e ↦ (err e, d)
      | ok p ↦
          let (r, usage) = meter p.id (metered dto d.subjects) today d in
          elim r [
            | err e ↦ (err e, record d { usage = usage })
            | ok admitted ↦ open_session p dto now (record d { usage = usage })
          ]
    ]
