-- ===== src/Exams/Tests/Histories.antt =====
-- The theorems of the exams after some calls.
use bondzi_backend.Prelude.{
  ℕ, ◌≤◌, ◌≡◌, refl, Bool, true, false, Option, none, some, List, [], ◌∷◌, length, count_if,
}
use bondzi_backend.Enums.{ExamType, wassce, AccountType, plus, QuestionPool, question_pool_for}
use bondzi_backend.Exams.{
  ExamMode, Exam, is_completed, exam_by_id, own_exam, answers_to, correct_of,
}
use bondzi_backend.Exams.Submit.{grade, all_options, record_answer, after_answer, submit_answer}
use bondzi_backend.Exams.Complete.{
  percent_hundredths, completion_xp, completed_exam, complete_exam, complete,
}
use bondzi_backend.Exams.Create.{
  Desk, assert_can_study, check_filter, metered, meter, open_session, draw_for, draw, new_exam,
  save_exam, admit, create,
}
use bondzi_backend.Exams.Create.Choice.{CreateExam, Pupil, matches, weak_subjects, first}
use bondzi_backend.Exams.History.{Reach, start, later, creates, answers, completes, Reach-grades}
use bondzi_backend.Exams.Weakness.{for_user}
use bondzi_backend.Exams.Weakness.Shown.{Reach-no_syllabus_topic}
use bondzi_backend.Exams.Tests.{school, choice}

abbrev pupil : Pupil
pupil = record { id = 1; exam_type = wassce; form_level = none }

abbrev request : CreateExam
request = record {
  mode = ExamMode.practice;
  subject_ids = 3 ∷ [];
  topic_ids = [];
  syllabus_topic_ids = [];
  years = [];
  wassec_paper = none;
  question_count = some 1;
  duration_seconds = none;
  difficulty = none;
  focus_weak = false;
}

abbrev desk : Desk
desk = record {
  campus = school [];
  pupils = pupil ∷ [];
  subjects = record { id = 3; is_core = true; is_elective = false } ∷ [];
  pm_questions = [];
  matrix = [];
  usage = [];
}

abbrev tier_of : ℕ → ExamType → Option AccountType
tier_of user level = some plus

abbrev random : List ℕ → List ℕ
random xs = xs

abbrev has_plus : ℕ → ExamType → Bool
has_plus user level = true

-- the exam is created, its question answered rightly, and completed
abbrev created : Desk
created = (create tier_of random has_plus 1 request 1000 20 desk).1

abbrev solved : Desk
solved = record created { campus = (submit_answer 1 8 (choice 11 21) 2000 20 8 created.campus).1 }

abbrev closed : Desk
closed = record solved { campus = (complete 1 8 3000 20 8 solved.campus).1 }

closed-Reach : Reach tier_of random has_plus closed
closed-Reach =
    later
      (later (later (start refl refl) (creates 1 request 1000 20))
        (answers 1 8 (choice 11 21) 2000 20 8))
      (completes 1 8 3000 20 8)

abbrev drawn_exam : Exam
drawn_exam = new_exam pupil request QuestionPool.past_paper none (11 ∷ []) 1000 8

created_exams : created.campus.exams ≡ drawn_exam ∷ []
unfolding create admit assert_can_study check_filter metered meter open_session draw_for draw
    matches weak_subjects first save_exam question_pool_for
created_exams = refl

abbrev closed_exam : Exam
closed_exam =
    completed_exam drawn_exam 1 (completion_xp 1 8 true 20 8 solved.campus.community.xp).0 3000

closed_found : exam_by_id 8 closed.campus.exams ≡ some closed_exam
unfolding create admit assert_can_study check_filter metered meter open_session draw_for draw
    matches weak_subjects first save_exam question_pool_for submit_answer after_answer grade
    own_exam all_options record_answer complete complete_exam new_exam completed_exam
closed_found = refl

closed_shown : is_completed closed_exam.status ≡ true
unfolding completed_exam
closed_shown = refl

Reach-grades_example :
    (right : ℕ) × (right ≡ count_if (correct_of 8) closed.campus.answers)
    × (closed_exam.score ≡ some right)
    × (right ≤ length closed_exam.question_ids)
    × (closed_exam.percent_score
        ≡ some (percent_hundredths right (length closed_exam.question_ids)))
    × (percent_hundredths right (length closed_exam.question_ids) ≤ 10000)
    × ((question : ℕ) → count_if (answers_to 8 question) closed.campus.answers ≤ 1)
unfolding completed_exam new_exam
Reach-grades_example =
    Reach-grades tier_of random has_plus closed closed_exam closed-Reach closed_found closed_shown

Reach-no_syllabus_topic_example :
    (for_user 1 none closed.pm_questions closed.campus).syllabus_weak_topics ≡ []
Reach-no_syllabus_topic_example =
    Reach-no_syllabus_topic tier_of random has_plus closed 1 none closed-Reach
