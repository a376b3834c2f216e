-- ===== src/Exams/Create/Choice.antt =====
-- The WHERE and ORDER BY clauses by which `create` chooses questions.
use bondzi_backend.Prelude.{
  ℕ, ◌*◌, Bool, true, false, not, ◌&&◌, ◌||◌, Option, none, some, List, [], ◌∷◌, zero, suc, ltb,
  leb, ◌==◌, if◌then◌else◌, holds_id, keep,
}
use bondzi_backend.Enums.{ExamType, level_eq, question_pool_for}
use bondzi_backend.Exams.{
  ExamMode, Question, Difficulty, easy, medium, hard, UserSubjectProgress, contains,
}

-- `difficulty` is null for none and for `mixed`; a paper 0 counts as none
pub record CreateExam : Type 0 where
  pub mode : ExamMode
  pub subject_ids : List ℕ
  pub topic_ids : List ℕ
  pub syllabus_topic_ids : List ℕ
  pub years : List ℕ
  pub wassec_paper : Option ℕ
  pub question_count : Option ℕ
  pub duration_seconds : Option ℕ
  pub difficulty : Option Difficulty
  pub focus_weak : Bool

-- a row of `pm_test_questions`
pub record PmTestQuestion : Type 0 where
  pub id : ℕ
  pub subject_id : ℕ
  pub syllabus_topic_id : Option ℕ
  pub exam_type : ExamType
  pub form_level : ℕ
  pub difficulty : Difficulty
  pub is_active : Bool

-- the columns of `users` that `create` reads
pub record Pupil : Type 0 where
  pub id : ℕ
  pub exam_type : ExamType
  pub form_level : Option ℕ

pub record Subject : Type 0 where
  pub id : ℕ
  pub is_core : Bool
  pub is_elective : Bool

abbrev pub is_past_paper : ExamMode → Bool
is_past_paper ExamMode.past_paper = true
is_past_paper _ = false

abbrev pub is_pm_mode : ExamMode → Bool
is_pm_mode ExamMode.pm_test = true
is_pm_mode _ = false

abbrev pub is_mock_mode : ExamMode → Bool
is_mock_mode ExamMode.mock_exam = true
is_mock_mode _ = false

-- `list?.length`
abbrev pub is_given : List ℕ → Bool
is_given [] = false
is_given (x ∷ xs) = true

-- `column IN (:...list)`, where the list is given
abbrev pub within : List ℕ → Option ℕ → Bool
within [] column = true
within (x ∷ xs) none = false
within (x ∷ xs) (some k) = contains k (x ∷ xs)

abbrev pub difficulty_eq : Difficulty → Difficulty → Bool
difficulty_eq easy easy = true
difficulty_eq medium medium = true
difficulty_eq hard hard = true
difficulty_eq _ _ = false

abbrev pub has_difficulty : Option Difficulty → Difficulty → Bool
has_difficulty none d = true
has_difficulty (some wanted) d = difficulty_eq d wanted

abbrev pub has_paper : Option ℕ → Option ℕ → Bool
has_paper none paper = true
has_paper (some wanted) paper = holds_id paper wanted

-- `questions_seen >= 5 AND questions_correct::float / questions_seen < 0.5`
abbrev pub is_weak : ℕ → UserSubjectProgress → Bool
is_weak user p =
    p.user_id == user && (leb 5 p.questions_seen && ltb (2 * p.questions_correct) p.questions_seen)

unfoldable pub weak_ids : ℕ → List UserSubjectProgress → List ℕ
weak_ids user [] = []
weak_ids user (p ∷ rows) =
    let rest = weak_ids user rows in if is_weak user p then p.subject_id ∷ rest else rest

-- the subjects that `focusWeak` narrows the choice to; none if there are none
unfoldable pub weak_subjects : Pupil → CreateExam → List UserSubjectProgress → List ℕ
weak_subjects user dto progress =
    if not (is_past_paper dto.mode) && dto.focus_weak
    then keep (λ k. within dto.subject_ids (some k)) (weak_ids user.id progress)
    else []

-- the conditions of a past paper, a practice or a drill
unfoldable pub matches : Pupil → CreateExam → List ℕ → Question → Bool
matches user dto weak q =
    q.is_active
    && (level_eq q.exam_type (question_pool_for user.exam_type)
        && (within dto.subject_ids (some q.subject_id)
            && (within dto.topic_ids q.topic_id
                && (within dto.years q.year
                    && (has_paper dto.wassec_paper q.wassec_paper
                        && ((is_past_paper dto.mode || has_difficulty dto.difficulty q.difficulty)
                            && within weak (some q.subject_id)))))))

abbrev pub on_form : Option ℕ → ℕ → Bool
on_form none level = true
on_form (some wanted) level = level == wanted

-- the conditions of a level test
unfoldable pub matches_pm : Pupil → CreateExam → PmTestQuestion → Bool
matches_pm user dto q =
    q.is_active
    && (level_eq q.exam_type (question_pool_for user.exam_type)
        && (within dto.subject_ids (some q.subject_id)
            && (within dto.syllabus_topic_ids q.syllabus_topic_id
                && (on_form user.form_level q.form_level
                    && has_difficulty dto.difficulty q.difficulty))))

-- the conditions of a mock exam
unfoldable pub matches_mock : Pupil → CreateExam → Question → Bool
matches_mock user dto q =
    q.is_active
    && (level_eq q.exam_type (question_pool_for user.exam_type)
        && within dto.subject_ids (some q.subject_id))

-- `ASC` of a nullable column: the nulls come last; whether `a` stands strictly before `b`
abbrev pub before : Option ℕ → Option ℕ → Bool
before none b = false
before (some j) none = true
before (some j) (some k) = ltb j k

-- paper, section, time of creation
unfoldable pub comes_first : Question → Question → Bool
comes_first a b =
    before a.wassec_paper b.wassec_paper
    || (not (before b.wassec_paper a.wassec_paper)
        && (before a.section b.section
            || (not (before b.section a.section) && ltb a.created_at b.created_at)))

unfoldable pub insert_question : Question → List Question → List Question
insert_question q [] = q ∷ []
insert_question q (x ∷ xs) =
    let rest = insert_question q xs in if comes_first x q then x ∷ rest else q ∷ x ∷ xs

-- the order of a past paper
unfoldable pub canonical : List Question → List Question
canonical [] = []
canonical (q ∷ qs) = insert_question q (canonical qs)

-- `LIMIT n`
unfoldable pub first : ℕ → List ℕ → List ℕ
first n [] = []
first zero (x ∷ xs) = []
first (suc n) (x ∷ xs) = x ∷ first n xs
