-- ===== src/Exams/Complete/Grades.antt =====
-- The two pages that show the grade of an exam compute it in two ways.
use native.Mathlib.Nat.{le-div_iff_mul-le}
use bondzi_backend.Prelude.{
  ℕ, ◌+◌, ◌*◌, ◌/◌, ◌<◌, ◌≤◌, ◌≡◌, ◌↔◌, refl, sym, ap, ◌∙◌, keep, count_if, leb→le, Bool, false,
  some, inl, inr, leb, ◌==◌, length, ok, Bool-cases, arith,
}
use bondzi_backend.Exams.{Exam, Campus, own_exam, is_completed, of_exam}
use bondzi_backend.Exams.Session.{ExamSession, get_one, to_exam_session, remaining}
use bondzi_backend.Exams.Complete.Again.{row, row-saved, completes}
use bondzi_backend.Exams.Complete.{
  ExamResult, grade_by, ratio_reaches, percent_hundredths, complete_exam, completed_exam, complete,
  to_exam_result,
}

grade_by-cong : (f g : ℕ → Bool) → ((n : ℕ) → 0 < n → f n ≡ g n) → grade_by f ≡ grade_by g
grade_by-cong f g h =
    rw
      (
        h 75 (omega arith),
        h 70 (omega arith),
        h 65 (omega arith),
        h 60 (omega arith),
        h 55 (omega arith),
        h 50 (omega arith),
        h 45 (omega arith),
        h 40 (omega arith),
      )
      refl

leb-cong : (a b x y : ℕ) → (a ≤ b) ↔ (x ≤ y) → leb a b ≡ leb x y
leb-cong a b x y h = elim (Bool-cases (leb x y)) [
  | inl k ↦ let below : a ≤ b = h.1 (leb→le x y k) in ground arith
  | inr k ↦ elim (Bool-cases (leb a b)) [
    | inl m ↦ let below : x ≤ y = h.0 (leb→le a b m) in ground arith
    | inr m ↦ m ∙ sym k
  ]
]

product : (n total : ℕ) → n * 100 * (2 * total) ≡ 200 * (n * total)
product n total = grind arith

-- rounding to hundredths never lifts a score over a whole percentage, below 200 questions
rounded_iff :
    (right total m : ℕ) → total < 200 → (200 * m ≤ right * 20000 + total) ↔ (m ≤ right * 100)
rounded_iff right total m small = (λ h. omega arith, λ h. omega arith)

reaches-same :
    (right total n : ℕ)
    → 0 < n
    → total < 200
    → leb (n * 100) (percent_hundredths right total) ≡ ratio_reaches right total n
unfolding percent_hundredths
reaches-same right total n pos small = elim (Bool-cases (total == 0)) [
  | inl empty ↦ rw (empty, percent_hundredths) (ground arith)
  | inr full ↦
      let wide : 0 < 2 * total = ground arith in
      let split =
        le-div_iff_mul-le {k = 2 * total} {x = n * 100} {y = right * 20000 + total} wide in
      let whole = rounded_iff right total (n * total) small in
      rw (full, percent_hundredths)
        (leb-cong (n * 100) ((right * 20000 + total) / (2 * total)) (n * total) (right * 100) (
          λ h. whole.0 (rw (product n total) at (split.0 h)),
          λ h. split.1 (rw (product n total) (whole.1 h)),
        ))
]

-- The grade of the session page and that of the result page are the same: when the user completes
-- an own exam of less than 200 questions that was not completed, the session that is read after it
-- shows the grade of the answer, and its score is the number of correct answers.
pub complete-get_one :
    (user id now day month : ℕ) (exam : Exam) (c : Campus)
    → own_exam user id c.exams ≡ ok exam
    → is_completed exam.status ≡ false
    → length exam.question_ids < 200
    → (r : ExamResult) × (t : Campus) × (s : ExamSession) × (complete user id now day month c
        ≡ (ok r, t))
      × (get_one user id t ≡ ok s)
      × (s.grade ≡ some r.grade)
      × (s.score ≡ some r.correct_count)
unfolding get_one to_exam_session complete_exam completed_exam to_exam_result
complete-get_one user id now day month exam c own open_exam small =
    let right = count_if (λ a. a.is_correct) (keep (of_exam exam.id) c.answers) in
    let saved = row-saved user id exam now day month c own open_exam in
    (
      (complete_exam user exam now day month c).0,
      (complete_exam user exam now day month c).1,
      to_exam_session (row user id exam now day month c own open_exam)
          (remaining id c.answers c.questions exam.question_ids),
      completes user id exam now day month c own open_exam,
      rw (saved, get_one) refl,
      ap (λ g. some g)
          (grade_by-cong _ _ λ n pos. reaches-same right (length exam.question_ids) n pos small),
      refl,
    )
