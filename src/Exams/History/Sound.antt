-- ===== src/Exams/History/Sound.antt =====
-- What the tables of the exams always look like, and that no call breaks it.
use bondzi_backend.Prelude.{
  ℕ, ◌+◌, ◌≤◌, ◌<◌, ◌≡◌, refl, sym, ap, ◌∙◌, Bool, true, false, ◌&&◌, some, List, [], ◌∷◌, inl, inr,
  ◌==◌, length, any, keep, count_if, All, All-map, IsKeyed, Bool-cases, arith,
}
use bondzi_backend.Exams.{
  Exam, ExamAnswer, Campus, is_completed, is_pm_test, exam_by_id, of_exam, answers_to, correct_of,
  contains,
}
use bondzi_backend.Exams.Complete.{percent_hundredths}

-- a completed exam shows its score
abbrev pub IsGraded : List ExamAnswer → Exam → Type 0
IsGraded answers e =
    is_completed e.status ≡ true
    → (e.score ≡ some (count_if (correct_of e.id) answers))
      × (e.percent_score
          ≡ some (percent_hundredths (count_if (correct_of e.id) answers) (length e.question_ids)))

-- the question belongs to the exam
abbrev pub is_asked_in : ExamAnswer → Exam → Bool
is_asked_in a e = e.id == a.exam_id && contains a.question_id e.question_ids

pub record IsSound (c : Campus) : Type 0 where
  pub keyed : IsKeyed (λ e. e.id) c.exams
  pub below : All (λ e. e.id < c.next_id) c.exams
  pub single : (id q : ℕ) → count_if (answers_to id q) c.answers ≤ 1
  pub asked : All (λ a. any (is_asked_in a) c.exams ≡ true) c.answers
  pub graded : All (IsGraded c.answers) c.exams
  pub default_pool : All (λ a. is_pm_test a.question_pool ≡ false) c.answers

-- the exam with an id is the only one with it
pub only :
    (id : ℕ) (x : Exam) (exams : List Exam)
    → IsKeyed (λ e. e.id) exams
    → exam_by_id id exams ≡ some x
    → All (λ e. e.id ≡ id → e ≡ x) exams
only id x [] k found = tt
only id x (e ∷ exams) k found = elim (Bool-cases (e.id == id)) [
  | inl hit ↦
      let top : e ≡ x = ground arith in
      let same : e.id ≡ id = ground arith in
      (λ _. top, All-map _ _ exams (λ y ne eq. absurd (ne (eq ∙ sym same))) k.0)
  | inr miss ↦ (λ eq. absurd (ground arith), only id x exams k.1 (rw (miss) at found))
]

pub count-keep :
    (id : ℕ) (answers : List ExamAnswer)
    → count_if (λ a. a.is_correct) (keep (of_exam id) answers) ≡ count_if (correct_of id) answers
count-keep id [] = refl
count-keep id (a ∷ answers) = ground (arith, count-keep id answers)

-- the bound: the answers to an exam are answers to its questions, one for each
abbrev to_any : ℕ → List ℕ → ExamAnswer → Bool
to_any id ids a = a.exam_id == id && contains a.question_id ids

module _ (id : ℕ) where
  to_any-le :
      (q : ℕ) (ids : List ℕ) (rows : List ExamAnswer)
      → count_if (to_any id (q ∷ ids)) rows
        ≤ count_if (answers_to id q) rows + count_if (to_any id ids) rows
  to_any-le q ids [] = omega arith
  to_any-le q ids (a ∷ rows) = ground (arith, to_any-le q ids rows)

  to_any-empty : (rows : List ExamAnswer) → count_if (to_any id []) rows ≡ 0
  to_any-empty [] = refl
  to_any-empty (a ∷ rows) = ground (arith, to_any-empty rows)

  to_any-length :
      (answers : List ExamAnswer) (ids : List ℕ)
      → ((q : ℕ) → count_if (answers_to id q) answers ≤ 1)
      → count_if (to_any id ids) answers ≤ length ids
  to_any-length answers [] h = omega (arith, to_any-empty answers)
  to_any-length answers (q ∷ ids) h =
      omega (arith, to_any-le q ids answers, h q, to_any-length answers ids h)

asked-own :
    (a : ExamAnswer) (e : Exam) (exams : List Exam)
    → a.exam_id ≡ e.id
    → All (λ x. x.id ≡ e.id → x ≡ e) exams
    → any (is_asked_in a) exams ≡ true
    → contains a.question_id e.question_ids ≡ true
asked-own a e [] same u h = cc
asked-own a e (x ∷ exams) same u h = elim (Bool-cases (is_asked_in a x)) [
  | inl y ↦
      let id : x.id ≡ e.id = ground arith in
      ap (λ z. contains a.question_id z.question_ids) (sym (u.0 id)) ∙ ground arith
  | inr n ↦ asked-own a e exams same u.1 (rw (n) at h)
]

correct-le :
    (e : Exam) (exams : List Exam) (rows : List ExamAnswer)
    → All (λ x. x.id ≡ e.id → x ≡ e) exams
    → All (λ a. any (is_asked_in a) exams ≡ true) rows
    → count_if (correct_of e.id) rows ≤ count_if (to_any e.id e.question_ids) rows
correct-le e exams [] u h = omega arith
correct-le e exams (a ∷ rows) u h = elim (Bool-cases (a.exam_id == e.id)) [
  | inl hit ↦
      let asked = asked-own a e exams (ground arith) u h.0 in
      let rest = correct-le e exams rows u h.1 in rw (hit, asked) (ground (arith, rest))
  | inr miss ↦ rw (miss) (omega (arith, correct-le e exams rows u h.1))
]

-- The score of a completed exam is the number of its correct answers, and no more than its
-- questions.
pub graded-bound :
    (c : Campus) (e : Exam)
    → IsSound c
    → exam_by_id e.id c.exams ≡ some e
    → count_if (correct_of e.id) c.answers ≤ length e.question_ids
graded-bound c e s found =
    let u = only e.id e c.exams s.keyed found in
    omega (
      arith,
      correct-le e c.exams c.answers u s.asked,
      to_any-length e.id c.answers e.question_ids (λ q. s.single e.id q),
    )
