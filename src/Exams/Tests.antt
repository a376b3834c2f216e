-- ===== src/Exams/Tests.antt =====
-- The theorems of the exams at concrete tables.
mod Histories
use bondzi_backend.Prelude.{
  ℕ, ◌+◌, ◌*◌, ◌≤◌, ◌≡◌, ◌↔◌, ◌⊎◌, refl, Bool, true, false, not, ◌&&◌, Option, none, some, List, [],
  ◌∷◌, ◌==◌, ok, length, count_if, keep, arith,
}
use bondzi_backend.Enums.{ExamType, wassce, AccountType, plus, QuestionPool, question_pool_for}
use bondzi_backend.Community.{Learner, Community}
use bondzi_backend.Xp
use bondzi_backend.Srs
use bondzi_backend.Exams.{
  ExamMode, in_progress, completed, Exam, ExamAnswer, AnswerOption, easy, Question, Campus,
  is_completed, exam_by_id, own_exam, of_exam, answers_to, correct_of, contains,
}
use bondzi_backend.Exams.Submit.{
  SubmitAnswer, SubmitResult, grade, all_options, record_answer, after_answer, award_answer,
  submit_answer,
}
use bondzi_backend.Exams.Submit.Accepts.{IsAcceptable, submit_answer_iff, submit_answer_lem}
use bondzi_backend.Exams.Progress.Counts.{seen, shown_on, count_on}
use bondzi_backend.Exams.Progress.{update_subject_progress}
use bondzi_backend.Exams.Complete.{
  ExamResult, percent_hundredths, completion_xp, completed_exam, complete_exam, complete,
}
use bondzi_backend.Exams.Complete.Again.{complete_again, complete-abandon-complete}
use bondzi_backend.Exams.Complete.Grades.{complete-get_one}
use bondzi_backend.Exams.Create.{
  Desk, assert_can_study, check_filter, metered, meter, open_session, draw_for, draw, new_exam,
  save_exam, admit, create,
}
use bondzi_backend.Exams.Create.Choice.{CreateExam, Pupil, matches, weak_subjects, first}
use bondzi_backend.Exams.Create.Outcome.{IsDrawn}
use bondzi_backend.Exams.History.{Reach, start, later, creates, answers, completes, Reach-grades}
use bondzi_backend.Exams.Weakness.{WeaknessBySource, for_user}
use bondzi_backend.Exams.Weakness.Shown.{IsShown, Reach-no_syllabus_topic}
use bondzi_backend.Exams.Session.{ExamSession, to_exam_session, remaining, get_one, abandon}
use bondzi_backend.Exams.Session.Resume.{submit_answer-get_one}

abbrev sitting : Exam
sitting = record {
  id = 7;
  user_id = 1;
  exam_type = wassce;
  mode = ExamMode.practice;
  question_pool = QuestionPool.past_paper;
  status = in_progress;
  question_ids = 11 ∷ 12 ∷ [];
  subject_ids = 3 ∷ [];
  duration_seconds = none;
  score = none;
  total_questions = some 2;
  percent_score = none;
  xp_earned = 0;
  started_at = 1000;
  completed_at = none;
}

abbrev question : ℕ → Question
question id = record {
  id = id;
  subject_id = 3;
  topic_id = some 5;
  exam_type = wassce;
  year = some 2019;
  wassec_paper = some 1;
  section = none;
  difficulty = easy;
  is_active = true;
  created_at = 10;
  times_answered = 0;
  times_correct = 0;
}

abbrev option : ℕ → ℕ → Bool → AnswerOption
option id question right = record { id = id; question_id = question; is_correct = right }

abbrev club : Community
club = record {
  learners =
      record {
        id = 1;
        streak_days = 0;
        longest_streak = 0;
        last_study_date = none;
        referral_qualified = false;
      }
      ∷ [];
  events = [];
  xp = record { users = []; transactions = []; rates = []; board = []; counts = [] };
}

abbrev pub school : List Exam → Campus
school exams = record {
  exams = exams;
  answers = [];
  questions = question 11 ∷ question 12 ∷ [];
  options = option 21 11 true ∷ option 22 11 false ∷ option 23 12 false ∷ option 24 12 true ∷ [];
  pm_test_options = option 31 41 true ∷ [];
  progress = [];
  community = club;
  srs = record { cards = []; questions = []; invalidated = [] };
  next_id = 8;
}

abbrev campus : Campus
campus = school (sitting ∷ [])

abbrev pub choice : ℕ → ℕ → SubmitAnswer
choice question picked = record {
  question_id = question;
  selected_option_id = some picked;
  typed_answer = none;
  time_spent_ms = some 900;
}

own_sitting : own_exam 1 7 campus.exams ≡ ok sitting
unfolding own_exam
own_sitting = refl

choice-IsAcceptable : IsAcceptable 1 7 (choice 11 21) campus
unfolding own_exam all_options
choice-IsAcceptable = record {
  exam = sitting;
  right = option 21 11 true;
  own = refl;
  running = refl;
  asked = refl;
  unanswered = refl;
  solved = refl;
  offered = refl;
}

submit_answer_iff_example :
    ((r : SubmitResult) × ((submit_answer 1 7 (choice 11 21) 2000 20 8 campus).0 ≡ ok r))
    ↔ IsAcceptable 1 7 (choice 11 21) campus
submit_answer_iff_example = submit_answer_iff 1 7 (choice 11 21) campus 2000 20 8

submit_answer_lem_example :
    (r : SubmitResult) × (t : Campus) × (submit_answer 1 7 (choice 11 21) 2000 20 8 campus
      ≡ (ok r, t))
    × (r.correct_option_id ≡ 21)
    × ((r.is_correct ≡ true) ↔ ((choice 11 21).selected_option_id ≡ some 21))
    × (count_if (answers_to 7 11) t.answers ≡ 1)
unfolding choice-IsAcceptable
submit_answer_lem_example =
    submit_answer_lem 1 7 (choice 11 21) campus choice-IsAcceptable 2000 20 8

-- the other option is picked
abbrev missed : Campus
missed = (submit_answer 1 7 (choice 11 22) 2000 20 8 campus).1

abbrev reply : SubmitResult
reply = record { is_correct = false; correct_option_id = 21; xp = none }

missed_run : submit_answer 1 7 (choice 11 22) 2000 20 8 campus ≡ (ok reply, missed)
unfolding submit_answer after_answer award_answer grade own_exam all_options
missed_run = refl

abbrev session : ExamSession
session = to_exam_session sitting (remaining 7 [] campus.questions sitting.question_ids)

session_shown : get_one 1 7 campus ≡ ok session
unfolding get_one own_exam
session_shown = refl

submit_answer-get_one_example :
    (s : ExamSession) × (get_one 1 7 missed ≡ ok s)
    × ((k : ℕ) → contains k s.questions ≡ (contains k session.questions && not (11 == k)))
submit_answer-get_one_example =
    submit_answer-get_one 1 7 2000 20 8 (choice 11 22) campus missed reply session missed_run
      session_shown

abbrev level_test : Exam
level_test = record sitting { question_pool = QuestionPool.pm_test; question_ids = 41 ∷ [] }

level_test_own : own_exam 1 7 (level_test ∷ []) ≡ ok level_test
unfolding own_exam
level_test_own = refl

complete_again_example :
    complete 1 7 9000 21 8 (complete 1 7 5000 20 8 missed).1 ≡ complete 1 7 5000 20 8 missed
complete_again_example = complete_again 1 7 5000 20 8 9000 21 8 missed

complete-get_one_example :
    (r : ExamResult) × (t : Campus) × (s : ExamSession) × (complete 1 7 5000 20 8 campus
      ≡ (ok r, t))
    × (get_one 1 7 t ≡ ok s)
    × (s.grade ≡ some r.grade)
    × (s.score ≡ some r.correct_count)
complete-get_one_example =
    complete-get_one 1 7 5000 20 8 sitting campus own_sitting refl (omega arith)

-- one wrong answer was given
abbrev answer : ExamAnswer
answer = record {
  exam_id = 7;
  question_id = 11;
  question_pool = QuestionPool.past_paper;
  selected_option_id = some 22;
  typed_answer = none;
  is_correct = false;
  time_spent_ms = some 900;
}

abbrev answered : Campus
answered = record campus { answers = answer ∷ [] }

complete-abandon-complete_example :
    shown_on seen 1 3
      (complete 1 7 9000 21 8 (abandon 1 7 (complete 1 7 5000 20 8 answered).1).1).1.progress
    ≡ 0 + 2 * 1
unfolding seen
complete-abandon-complete_example =
    complete-abandon-complete 1 7 sitting 5000 20 8 9000 21 8 answered own_sitting refl seen 3
