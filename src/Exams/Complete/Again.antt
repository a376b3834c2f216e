-- ===== src/Exams/Complete/Again.antt =====
-- `complete` called again.
use bondzi_backend.Prelude.{
  ℕ, ◌+◌, ◌*◌, ◌≡◌, refl, sym, ap, Bool, ◌&&◌, ◌==◌, ltb, length, true, false, inl, inr, keep,
  count_if, update_where, ok, err, HttpError, Bool-cases, HttpError, Result-cases, arith,
}
use bondzi_backend.Exams.{Exam, Campus, with_id, own_exam, of_exam, is_completed}
use bondzi_backend.Exams.Saved.{own_exam-saved, own_exam-IsOwn}
use bondzi_backend.Exams.Complete.{
  ExamResult, completed_exam, complete_exam, get_result, complete, to_exam_result, completion_xp,
}
use bondzi_backend.Exams.Session.{abandon, abandoned_exam}
use bondzi_backend.Exams.Progress.Counts.{Column, shown_on, count_on, shown_on-update}

-- the score is not empty and full
abbrev pub is_perfect : Exam → Campus → Bool
is_perfect exam c =
    let total = length exam.question_ids in
    ltb 0 total && count_if (λ a. a.is_correct) (keep (of_exam exam.id) c.answers) == total

module _ (user id : ℕ) (exam : Exam) (now day month : ℕ) (c : Campus)
    (own : own_exam user id c.exams ≡ ok exam) (open_exam : is_completed exam.status ≡ false) where
  abbrev pub done : ExamResult × Campus
  done = complete_exam user exam now day month c

  pub completes : complete user id now day month c ≡ (ok done.0, done.1)
  unfolding complete
  completes = rw (own, complete, open_exam) refl

  -- the row as it was saved
  abbrev pub row : Exam
  row =
      completed_exam exam (count_if (λ a. a.is_correct) (keep (of_exam exam.id) c.answers))
        (completion_xp user exam.id (is_perfect exam c) day month c.community.xp).0 now

  pub row-saved : own_exam user id done.1.exams ≡ ok row
  unfolding complete_exam completed_exam
  row-saved = own_exam-saved user id exam row c.exams own refl refl

  row-result : get_result user id done.1 ≡ ok done.0
  unfolding get_result complete_exam completed_exam to_exam_result
  row-result =
      rw (row-saved, get_result)
        (ap (λ k. ok (to_exam_result row (keep (of_exam k) c.answers) c.questions))
          (sym (own_exam-IsOwn user id exam c.exams own).same))

  done-again :
      (now' day' month' : ℕ) → complete user id now' day' month' done.1 ≡ (ok done.0, done.1)
  unfolding complete completed_exam
  done-again now' day' month' = rw (row-saved, complete, row-result) refl

  progress-done :
      (column : Column) (subject : ℕ)
      → shown_on column user subject done.1.progress
        ≡ shown_on column user subject c.progress
          + count_on column subject exam.question_ids c.questions (keep (of_exam exam.id) c.answers)
  unfolding complete_exam
  progress-done column subject =
      shown_on-update column user subject now exam.question_ids c.questions
        (keep (of_exam exam.id) c.answers) c.progress

-- an exam that is not the user's, or that is completed, is left alone
refused-stays :
    (user id now day month : ℕ) (c : Campus) (e : HttpError)
    → own_exam user id c.exams ≡ err e
    → complete user id now day month c ≡ (err e, c)
unfolding complete
refused-stays user id now day month c e n = rw (n, complete) refl

completed-stays :
    (user id now day month : ℕ) (c : Campus) (exam : Exam)
    → own_exam user id c.exams ≡ ok exam
    → is_completed exam.status ≡ true
    → complete user id now day month c ≡ (get_result user id c, c)
unfolding complete
completed-stays user id now day month c exam n d = rw (n, complete, d) refl

-- A second `complete` by the same user, at any time, directly on the tables that the first one left,
-- changes none of them and gives the same answer: also when the first one was refused.
pub complete_again :
    (user id now day month now' day' month' : ℕ) (c : Campus)
    → complete user id now' day' month' (complete user id now day month c).1
      ≡ complete user id now day month c
complete_again user id now day month now' day' month' c =
    elim (Result-cases (own_exam user id c.exams)) [
      | inr (e, n) ↦
          rw (refused-stays user id now day month c e n)
            (refused-stays user id now' day' month' c e n)
      | inl (exam, n) ↦ elim (Bool-cases (is_completed exam.status)) [
        | inl d ↦
            rw (completed-stays user id now day month c exam n d)
              (completed-stays user id now' day' month' c exam n d)
        | inr o ↦
            rw (completes user id exam now day month c n o)
              (done-again user id exam now day month c n o now' day' month')
      ]
    ]

module _ (user id : ℕ) (exam : Exam) (now day month now' day' month' : ℕ) (c : Campus)
    (own : own_exam user id c.exams ≡ ok exam) (open_exam : is_completed exam.status ≡ false) where
  abbrev closed : Campus
  closed = (complete_exam user exam now day month c).1

  abbrev saved_row : Exam
  saved_row = row user id exam now day month c own open_exam

  abbrev reopened : Campus
  reopened = record closed {
    exams = update_where (with_id exam.id) (λ _. abandoned_exam saved_row) closed.exams;
  }

  abandon-closed : abandon user id closed ≡ (ok tt, reopened)
  unfolding abandon completed_exam
  abandon-closed = rw (row-saved user id exam now day month c own open_exam, abandon) refl

  reopened-own : own_exam user id reopened.exams ≡ ok (abandoned_exam saved_row)
  unfolding completed_exam
  reopened-own =
      own_exam-saved user id saved_row (abandoned_exam saved_row) closed.exams
        (row-saved user id exam now day month c own open_exam) refl refl

  -- what the answers of the exam give
  abbrev answers_give : Column → ℕ → ℕ
  answers_give column subject =
      count_on column subject exam.question_ids c.questions (keep (of_exam exam.id) c.answers)

  progress-again :
      (column : Column) (subject : ℕ)
      → shown_on column user subject
          (complete_exam user (abandoned_exam saved_row) now' day' month' reopened).1.progress
        ≡ shown_on column user subject closed.progress + answers_give column subject
  unfolding complete_exam completed_exam
  progress-again column subject =
      shown_on-update column user subject now' exam.question_ids c.questions
        (keep (of_exam exam.id) c.answers) closed.progress

  reopened-counts :
      (column : Column) (subject : ℕ)
      → shown_on column user subject (complete user id now' day' month' reopened).1.progress
        ≡ shown_on column user subject c.progress + 2 * answers_give column subject
  reopened-counts column subject =
      rw (completes user id (abandoned_exam saved_row) now' day' month' reopened reopened-own refl)
        (let before = progress-done user id exam now day month c own open_exam column subject in
          let more = progress-again column subject in omega (arith, before, more))

  -- Completing, abandoning and completing an exam counts its answers twice: the progress of the
  -- user on every subject grows, in each column that is summed, by twice what the answers give,
  -- when the exam is the user's and was not completed before.
  pub complete-abandon-complete :
      (column : Column) (subject : ℕ)
      → shown_on column user subject
          (complete user id now' day' month'
            (abandon user id (complete user id now day month c).1).1).1.progress
        ≡ shown_on column user subject c.progress
          + 2
            * count_on column subject exam.question_ids c.questions
                (keep (of_exam exam.id) c.answers)
  complete-abandon-complete column subject =
      rw (completes user id exam now day month c own open_exam, abandon-closed)
        (reopened-counts column subject)
