-- ===== src/Exams/Submit/Accepts.antt =====
-- Which answers are taken, and how they are graded.
use bondzi_backend.Prelude.{
  ℕ, ◌≡◌, ◌≢◌, ◌↔◌, bad_request, not_found, throw_if, ◌>>◌, refl, sym, ap, ok_inj, ◌∙◌, true, false,
  Option, none, some, inl, inr, ==_refl, find?, any, count_if, count_if_of_any, holds_id, conflict,
  Result, ok, err, HttpError, Result-cases, Option-cases, Bool-cases, arith,
}
use bondzi_backend.Exams.{
  Exam, AnswerOption, Campus, own_exam, is_in_progress, contains, answers_to,
}
use bondzi_backend.Exams.Submit.{
  SubmitAnswer, Graded, SubmitResult, all_options, is_foreign, grade, record_answer, after_answer,
  submit_answer,
}

-- what has to be so for an answer to be taken
pub record IsAcceptable (user id : ℕ) (dto : SubmitAnswer) (c : Campus) : Type 0 where
  pub exam : Exam
  pub right : AnswerOption
  pub own : own_exam user id c.exams ≡ ok exam
  pub running : is_in_progress exam.status ≡ true
  pub asked : contains dto.question_id exam.question_ids ≡ true
  pub unanswered : any (answers_to id dto.question_id) c.answers ≡ false
  pub solved :
      find? (λ o. o.is_correct) (all_options exam.question_pool dto.question_id c) ≡ some right
  pub offered :
      is_foreign dto.selected_option_id (all_options exam.question_pool dto.question_id c) ≡ false

err-ne-ok : (x : HttpError) (g : Graded) → err x ≢ ok g
err-ne-ok x g e = cc

selected_iff : (o : Option ℕ) (k : ℕ) → (holds_id o k ≡ true) ↔ (o ≡ some k)
selected_iff none k = (λ h. cc, λ h. cc)
selected_iff (some j) k = ground arith

module _ (user id : ℕ) (dto : SubmitAnswer) (c : Campus) where
  abbrev graded : IsAcceptable user id dto c → Graded
  graded a = record {
    is_correct = holds_id dto.selected_option_id a.right.id;
    correct_option_id = a.right.id;
    question_pool = a.exam.question_pool;
  }

  grade-accepts : (a : IsAcceptable user id dto c) → grade user id dto c ≡ ok (graded a)
  unfolding grade
  grade-accepts a = rw (a.own, a.running, a.asked, a.unanswered, a.solved, a.offered, grade) refl

  -- what is left of the checks once the question may be answered
  abbrev inspect : Exam → Result Graded
  inspect exam =
      let options = all_options exam.question_pool dto.question_id c in
      elim (find? (λ o. o.is_correct) options) [
        | none ↦ err not_found
        | some right ↦
            throw_if (is_foreign dto.selected_option_id options) bad_request
            >> ok (record {
              is_correct = holds_id dto.selected_option_id right.id;
              correct_option_id = right.id;
              question_pool = exam.question_pool;
            })
      ]

  inspected :
      (g : Graded) (exam : Exam)
      → own_exam user id c.exams ≡ ok exam
      → is_in_progress exam.status ≡ true
      → contains dto.question_id exam.question_ids ≡ true
      → any (answers_to id dto.question_id) c.answers ≡ false
      → inspect exam ≡ ok g
      → IsAcceptable user id dto c
  inspected g exam n o p q e =
      let options = all_options exam.question_pool dto.question_id c in
      elim (Option-cases (find? (λ o. o.is_correct) options)) [
        | inl r ↦ absurd (err-ne-ok not_found g (rw (r, inspect) at e))
        | inr (right, r) ↦ elim (Bool-cases (is_foreign dto.selected_option_id options)) [
          | inl s ↦ absurd (err-ne-ok bad_request g (rw (r, s, inspect) at e))
          | inr s ↦ record {
            exam = exam;
            right = right;
            own = n;
            running = o;
            asked = p;
            unanswered = q;
            solved = r;
            offered = s;
          }
        ]
      ]

  pub grade-IsAcceptable : (g : Graded) → grade user id dto c ≡ ok g → IsAcceptable user id dto c
  unfolding grade
  grade-IsAcceptable g e = elim (Result-cases (own_exam user id c.exams)) [
    | inr (x, n) ↦ absurd (err-ne-ok x g (rw (n, grade) at e))
    | inl (exam, n) ↦ elim (Bool-cases (is_in_progress exam.status)) [
      | inr o ↦ absurd (err-ne-ok conflict g (rw (n, o, grade) at e))
      | inl o ↦ elim (Bool-cases (contains dto.question_id exam.question_ids)) [
        | inr p ↦ absurd (err-ne-ok bad_request g (rw (n, o, p, grade) at e))
        | inl p ↦ elim (Bool-cases (any (answers_to id dto.question_id) c.answers)) [
          | inl q ↦ absurd (err-ne-ok conflict g (rw (n, o, p, q, grade) at e))
          | inr q ↦ inspected g exam n o p q (rw (n, o, p, q, grade) at e)
        ]
      ]
    ]
  ]

  -- a graded answer is written
  submits :
      (g : Graded) (now day month : ℕ)
      → grade user id dto c ≡ ok g
      → (t : Campus) × (r : SubmitResult) × (submit_answer user id dto now day month c ≡ (ok r, t))
        × (r.is_correct ≡ g.is_correct)
        × (r.correct_option_id ≡ g.correct_option_id)
        × (t.answers ≡ (record_answer id dto g.is_correct c).answers)
        × (t.exams ≡ c.exams)
        × (t.questions ≡ (record_answer id dto g.is_correct c).questions)
  unfolding submit_answer after_answer record_answer
  submits g now day month e = (
    (after_answer user dto g now day month (record_answer id dto g.is_correct c)).1,
    (after_answer user dto g now day month (record_answer id dto g.is_correct c)).0,
    rw (e, submit_answer) refl,
    refl,
    refl,
    refl,
    refl,
    refl,
  )

  -- An answer is taken exactly when the exam is the user's and in progress, the question belongs to
  -- it and has no answer yet, the question has a correct option, and the selected option, if there is
  -- one, belongs to it.
  pub submit_answer_iff :
      (now day month : ℕ)
      → ((r : SubmitResult) × ((submit_answer user id dto now day month c).0 ≡ ok r))
        ↔ IsAcceptable user id dto c
  unfolding submit_answer
  submit_answer_iff now day month = (
    λ (r, e). elim (Result-cases (grade user id dto c)) [
      | inl (g, n) ↦ grade-IsAcceptable g n
      | inr (x, n) ↦ let thrown : err x ≡ ok r = rw (n, submit_answer) at e in cc
    ],
    λ a.
        let done = submits (graded a) now day month (grade-accepts a) in
        (done.1, ap (λ p. p.0) done.2),
  )

  -- the answers after a call that was taken
  pub submit_answer-answers :
      (now day month : ℕ) (r : SubmitResult) (t : Campus)
      → submit_answer user id dto now day month c ≡ (ok r, t)
      → (t.answers ≡ (record_answer id dto r.is_correct c).answers)
        × (t.exams ≡ c.exams)
        × (t.questions ≡ (record_answer id dto r.is_correct c).questions)
  unfolding submit_answer
  submit_answer-answers now day month r t e = elim (Result-cases (grade user id dto c)) [
    | inl (g, n) ↦
        let (t', r', run, right, option, answers, exams, questions) = submits g now day month n in
        let same : (ok r', t') ≡ (ok r, t) = sym run ∙ e in
        let state : t' ≡ t = ap (λ p. p.1) same in
        let answer : r' ≡ r = ok_inj (ap (λ p. p.0) same) in
        let graded_as : g.is_correct ≡ r.is_correct = sym right ∙ ap (λ x. x.is_correct) answer in
        (
          ap (λ x. x.answers) (sym state)
              ∙ answers
              ∙ ap (λ b. (record_answer id dto b c).answers) graded_as,
          ap (λ x. x.exams) (sym state) ∙ exams,
          ap (λ x. x.questions) (sym state)
              ∙ questions
              ∙ ap (λ b. (record_answer id dto b c).questions) graded_as,
        )
    | inr (x, n) ↦ let thrown : err x ≡ ok r = ap (λ p. p.0) (rw (n, submit_answer) at e) in cc
  ]

  -- An answer is graded by the option that was selected: when it is acceptable, the call succeeds
  -- and says which option is correct, it says "correct" exactly when that one was selected, and
  -- there is one answer to the question in the table after it.
  pub submit_answer_lem :
      (a : IsAcceptable user id dto c) (now day month : ℕ)
      → (r : SubmitResult) × (t : Campus) × (submit_answer user id dto now day month c ≡ (ok r, t))
        × (r.correct_option_id ≡ a.right.id)
        × ((r.is_correct ≡ true) ↔ (dto.selected_option_id ≡ some a.right.id))
        × (count_if (answers_to id dto.question_id) t.answers ≡ 1)
  unfolding record_answer
  submit_answer_lem a now day month =
      let (t, r, run, right, option, answers, exams, questions) =
        submits (graded a) now day month (grade-accepts a) in
      (
        r,
        t,
        run,
        option,
        rw (right) (selected_iff dto.selected_option_id a.right.id),
        rw (answers) (
            rw (==_refl id, ==_refl dto.question_id)
              (omega
                (arith, count_if_of_any (answers_to id dto.question_id) c.answers a.unanswered))),
      )
