-- ===== src/Exams/Session/Resume.antt =====
-- What a resumed session shows.
use bondzi_backend.Prelude.{
  ℕ, ◌≡◌, refl, sym, ap, ok_inj, ◌∙◌, Bool, false, not, ◌&&◌, ◌||◌, List, [], ◌∷◌, inl, inr, ◌==◌,
  ==_refl, any, keep, update_where, All, ok, err, Result-cases, Bool-cases, arith,
}
use bondzi_backend.Exams.{Exam, ExamAnswer, Question, Campus, own_exam, answers_to, contains}
use bondzi_backend.Exams.Submit.{SubmitAnswer, SubmitResult, counted, record_answer, submit_answer}
use bondzi_backend.Exams.Submit.Accepts.{submit_answer-answers}
use bondzi_backend.Exams.Session.{ExamSession, to_exam_session, remaining, get_one}

abbrev known : ℕ → List Question → Bool
known k = any (λ q. q.id == k)

contains-keep :
    (p : ℕ → Bool) (k : ℕ) (ids : List ℕ) → contains k (keep p ids) ≡ (contains k ids && p k)
contains-keep p k [] = refl
contains-keep p k (x ∷ ids) = elim (Bool-cases (x == k)) [
  | inl hit ↦
      let same : p x ≡ p k = ap p (let top : x ≡ k = ground arith in top) in
      elim (Bool-cases (p x)) [
        | inl y ↦ rw (hit, y) (rw (hit) (sym (sym same ∙ y)))
        | inr n ↦ rw (hit, n) (contains-keep p k ids ∙ ground (arith, same, n))
      ]
  | inr miss ↦ elim (Bool-cases (p x)) [
    | inl y ↦ rw (miss, y) (rw (miss) (contains-keep p k ids))
    | inr n ↦ rw (miss, n) (contains-keep p k ids)
  ]
]

contains-remaining :
    (id k : ℕ) (answers : List ExamAnswer) (questions : List Question) (ids : List ℕ)
    → contains k (remaining id answers questions ids)
      ≡ (contains k ids && (not (any (answers_to id k) answers) && known k questions))
unfolding remaining
contains-remaining id k answers questions ids = contains-keep _ k ids

taken_off : (a q b k : Bool) → (a && (not (q || b) && k)) ≡ ((a && (not b && k)) && not q)
taken_off a q b k = ground arith

-- a question that is counted keeps its id
known-counted :
    (right : Bool) (q k : ℕ) (rows : List Question)
    → known k (update_where (λ x. x.id == q) (counted right) rows) ≡ known k rows
known-counted right q k [] = refl
known-counted right q k (x ∷ rows) = ground (arith, known-counted right q k rows)

no-question :
    (id : ℕ) (answers : List ExamAnswer) (questions : List Question) (ids : List ℕ)
    → All (λ k. known k questions ≡ false) ids
    → remaining id answers questions ids ≡ []
unfolding remaining
no-question id answers questions [] h = refl
no-question id answers questions (k ∷ ids) h =
    ground (arith, no-question id answers questions ids h.1)

module _ (user id : ℕ) (c : Campus) where
  get_one-cases :
      (s : ExamSession)
      → get_one user id c ≡ ok s
      → (exam : Exam) × (own_exam user id c.exams ≡ ok exam)
        × (s.questions ≡ remaining id c.answers c.questions exam.question_ids)
  unfolding get_one to_exam_session
  get_one-cases s e = elim (Result-cases (own_exam user id c.exams)) [
    | inr (x, n) ↦ let thrown : err x ≡ ok s = rw (n, get_one) at e in cc
    | inl (exam, n) ↦
        let whole = ok_inj (rw (n, get_one) at e) in (exam, n, ap (λ x. x.questions) (sym whole))
  ]

  -- A resumed session of an own exam whose questions are all from the other pool shows no question
  -- at all, however many are unanswered.
  get_one_other_pool :
      (exam : Exam)
      → own_exam user id c.exams ≡ ok exam
      → All (λ k. known k c.questions ≡ false) exam.question_ids
      → (s : ExamSession) × (get_one user id c ≡ ok s) × (s.questions ≡ [])
  unfolding get_one to_exam_session remaining
  get_one_other_pool exam n other = (
    to_exam_session exam (remaining id c.answers c.questions exam.question_ids),
    rw (n, get_one) refl,
    no-question id c.answers c.questions exam.question_ids other,
  )

-- Answering a question takes it, and nothing else, off the session: after an answer that was taken,
-- the questions that a resumed session shows are those that it showed before without the answered
-- one.
pub submit_answer-get_one :
    (user id now day month : ℕ) (dto : SubmitAnswer) (c t : Campus) (r : SubmitResult)
    (s : ExamSession)
    → submit_answer user id dto now day month c ≡ (ok r, t)
    → get_one user id c ≡ ok s
    → (s' : ExamSession) × (get_one user id t ≡ ok s')
      × ((k : ℕ) → contains k s'.questions ≡ (contains k s.questions && not (dto.question_id == k)))
unfolding get_one to_exam_session record_answer
submit_answer-get_one user id now day month dto c t r s run shown =
    let (exam, n, before) = get_one-cases user id c s shown in
    let (answers, exams, questions) = submit_answer-answers user id dto c now day month r t run in
    (
      to_exam_session exam (remaining id t.answers t.questions exam.question_ids),
      rw (exams, n, get_one) refl,
      λ k.
          let was =
            ap (contains k) before
            ∙ contains-remaining id k c.answers c.questions exam.question_ids in
          let answered : any (answers_to id k) t.answers
              ≡ (dto.question_id == k || any (answers_to id k) c.answers) =
            rw (answers) (rw (==_refl id) refl) in
          let same : known k t.questions ≡ known k c.questions =
            ap (known k) questions ∙ known-counted r.is_correct dto.question_id k c.questions in
          contains-remaining id k t.answers t.questions exam.question_ids
          ∙ rw (answered, same, was)
              (taken_off (contains k exam.question_ids) (dto.question_id == k)
                (any (answers_to id k) c.answers) (known k c.questions)),
    )
