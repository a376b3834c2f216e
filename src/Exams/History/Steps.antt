-- ===== src/Exams/History/Steps.antt =====
-- Every call keeps the tables of the exams sound.
use mathlib.Core.Path.{subst}
use bondzi_backend.Prelude.{
  ℕ, ◌+◌, ◌≤◌, ◌<◌, ◌≡◌, refl, sym, ap, ◌∙◌, true, false, ◌&&◌, Option, some, List, [], ◌∷◌, inl,
  inr, ◌==◌, if◌then◌else◌, length, any, count_if, count_if_of_any, update_where, All, All-map,
  All-update_where, update_where-IsKeyed, ok, Bool-cases, Result-cases, arith,
}
use bondzi_backend.Enums.{QuestionPool}
use bondzi_backend.Exams.{
  ExamStatus, Exam, ExamAnswer, Campus, is_completed, is_in_progress, with_id, exam_by_id, own_exam,
  answers_to, correct_of, contains,
}
use bondzi_backend.Exams.Saved.{own_exam-IsOwn}
use bondzi_backend.Exams.Submit.{
  SubmitAnswer, grade, answer_of, record_answer, after_answer, submit_answer,
}
use bondzi_backend.Exams.Submit.Accepts.{grade-IsAcceptable}
use bondzi_backend.Exams.Complete.{percent_hundredths, completed_exam, complete_exam, complete}
use bondzi_backend.Exams.Session.{abandon, abandoned_exam}
use bondzi_backend.Exams.Create.{new_exam, save_exam}
use bondzi_backend.Exams.Create.Choice.{Pupil, CreateExam}
use bondzi_backend.Exams.History.Sound.{IsSound, IsGraded, is_asked_in, only, count-keep}

pub save_exam-IsSound :
    (p : Pupil) (dto : CreateExam) (pool : QuestionPool) (seconds : Option ℕ) (ids : List ℕ)
    (now : ℕ) (c : Campus)
    → IsSound c
    → IsSound (save_exam p dto pool seconds ids now c)
unfolding save_exam new_exam
save_exam-IsSound p dto pool seconds ids now c s = record {
  keyed = (
    All-map _ _ c.exams (λ e l eq. absurd (omega (arith, l, ap (λ (n : ℕ). n) eq))) s.below,
    s.keyed,
  );
  below = (omega arith, All-map _ _ c.exams (λ e l. omega (arith, l)) s.below);
  single = s.single;
  asked = All-map _ _ c.answers (λ a h. ground (arith, h)) s.asked;
  graded = (λ h. cc, s.graded);
  default_pool = s.default_pool;
}

-- an answer to another exam changes no score
graded-other :
    (a : ExamAnswer) (answers : List ExamAnswer) (e : Exam)
    → (e.id ≡ a.exam_id → is_completed e.status ≡ false)
    → IsGraded answers e
    → IsGraded (a ∷ answers) e
graded-other a answers e open_exam g done = elim (Bool-cases (a.exam_id == e.id)) [
  | inl hit ↦ let still : is_completed e.status ≡ false = open_exam (ground arith) in absurd (cc)
  | inr other ↦
      let n : count_if (correct_of e.id) answers ≡ 0 + count_if (correct_of e.id) answers =
        omega arith in
      rw (other) (
        subst
          (λ k.
            (e.score ≡ some k)
            × (e.percent_score ≡ some (percent_hundredths k (length e.question_ids))))
          n (g done))
]

All-both {ℓ κ μ ν} :
    {A : Type ℓ} (P : A → Type κ) (Q : A → Type μ) (R : A → Type ν) (xs : List A)
    → ((a : A) → P a → Q a → R a)
    → All P xs
    → All Q xs
    → All R xs
All-both P Q R [] k h j = tt
All-both P Q R (x ∷ xs) k h j = (k x h.0 j.0, All-both P Q R xs k h.1 j.1)

single-cons :
    (id question i q : ℕ) (answers : List ExamAnswer)
    → any (answers_to id question) answers ≡ false
    → count_if (answers_to i q) answers ≤ 1
    → (if id == i && question == q then 1 else 0) + count_if (answers_to i q) answers ≤ 1
single-cons id question i q answers fresh h = elim (Bool-cases (id == i)) [
  | inr miss ↦ rw (miss) (omega arith)
  | inl hit ↦ elim (Bool-cases (question == q)) [
    | inr miss ↦ rw (hit, miss) (omega arith)
    | inl hit' ↦
        let same : id ≡ i = ground arith in
        let same' : question ≡ q = ground arith in
        let no_answer : count_if (answers_to i q) answers ≡ 0 =
          subst (λ k. count_if (answers_to k q) answers ≡ 0) same
            (subst (λ k. count_if (answers_to id k) answers ≡ 0) same'
              (count_if_of_any (answers_to id question) answers fresh)) in
        rw (hit, hit') (omega (arith, no_answer))
  ]
]

any-asked :
    (id q : ℕ) (x : Exam) (exams : List Exam)
    → exam_by_id id exams ≡ some x
    → contains q x.question_ids ≡ true
    → any (λ e. e.id == id && contains q e.question_ids) exams ≡ true
any-asked id q x [] found h = cc
any-asked id q x (e ∷ exams) found h = elim (Bool-cases (e.id == id)) [
  | inl hit ↦
      let top : e ≡ x = ground arith in
      let asked : contains q e.question_ids ≡ true = ap (λ y. contains q y.question_ids) top ∙ h in
      rw (hit, asked) refl
  | inr miss ↦ rw (miss) (any-asked id q x exams (rw (miss) at found) h)
]

not_completed : (status : ExamStatus) → is_in_progress status ≡ true → is_completed status ≡ false
not_completed ExamStatus.in_progress h = refl
not_completed ExamStatus.completed h = cc
not_completed ExamStatus.abandoned h = refl
not_completed ExamStatus.paused h = refl

pub submit_answer-IsSound :
    (user id : ℕ) (dto : SubmitAnswer) (now day month : ℕ) (c : Campus)
    → IsSound c
    → IsSound (submit_answer user id dto now day month c).1
unfolding submit_answer after_answer record_answer
submit_answer-IsSound user id dto now day month c s = elim (Result-cases (grade user id dto c)) [
  | inr (e, n) ↦ rw (n, submit_answer) s
  | inl (g, n) ↦
      let a = grade-IsAcceptable user id dto c g n in
      let own = own_exam-IsOwn user id a.exam c.exams a.own in
      rw (n, submit_answer)
        (record {
          keyed = s.keyed;
          below = s.below;
          single = λ i q. single-cons id dto.question_id i q c.answers a.unanswered (s.single i q);
          asked = (any-asked id dto.question_id a.exam c.exams own.found a.asked, s.asked);
          graded =
              All-both _ _ _ c.exams
                (λ e unique g'.
                  graded-other (answer_of id dto g.is_correct) c.answers e
                    (λ same.
                      ap (λ y. is_completed y.status) (unique same)
                      ∙ not_completed a.exam.status a.running)
                    g')
                (only id a.exam c.exams s.keyed own.found) s.graded;
          default_pool = (refl, s.default_pool);
        })
]

asked-replaced :
    (a : ExamAnswer) (exam row : Exam) (exams : List Exam)
    → row.id ≡ exam.id
    → row.question_ids ≡ exam.question_ids
    → All (λ e. e.id ≡ exam.id → e ≡ exam) exams
    → any (is_asked_in a) exams ≡ true
    → any (is_asked_in a) (update_where (with_id exam.id) (λ _. row) exams) ≡ true
asked-replaced a exam row [] same questions u h = cc
asked-replaced a exam row (x ∷ exams) same questions u h = elim (Bool-cases (x.id == exam.id)) [
  | inl hit ↦
      let top : x ≡ exam = u.0 (ground arith) in
      let as_before : is_asked_in a row ≡ is_asked_in a x = rw (same, questions, top) refl in
      elim (Bool-cases (is_asked_in a x)) [
        | inl y ↦ rw (hit, as_before, y) refl
        | inr n ↦
            rw (hit, as_before, n)
              (asked-replaced a exam row exams same questions u.1 (rw (n) at h))
      ]
  | inr miss ↦ elim (Bool-cases (is_asked_in a x)) [
    | inl y ↦ rw (miss, y) refl
    | inr n ↦ rw (miss, n) (asked-replaced a exam row exams same questions u.1 (rw (n) at h))
  ]
]

-- a row that takes the place of the exam of a request
replaced-IsSound :
    (user id : ℕ) (exam row : Exam) (c t : Campus)
    → own_exam user id c.exams ≡ ok exam
    → row.id ≡ exam.id
    → row.question_ids ≡ exam.question_ids
    → IsGraded c.answers row
    → t.exams ≡ update_where (with_id exam.id) (λ _. row) c.exams
    → t.answers ≡ c.answers
    → t.next_id ≡ c.next_id
    → IsSound c
    → IsSound t
replaced-IsSound user id exam row c t n same questions g exams answers next s =
    let own = own_exam-IsOwn user id exam c.exams n in
    let unique : All (λ e. e.id ≡ exam.id → e ≡ exam) c.exams =
      only exam.id exam c.exams s.keyed
        (subst (λ k. exam_by_id k c.exams ≡ some exam) (sym own.same) own.found) in
    record {
      keyed = rw (exams) (
          update_where-IsKeyed (λ e. e.id) (with_id exam.id) (λ _. row) c.exams
            (λ e hit. same ∙ ground arith) s.keyed);
      below =
          rw (exams, next)
            (All-update_where (λ e. e.id < c.next_id) (with_id exam.id) (λ _. row) c.exams
              (λ e l hit. let at : e.id ≡ exam.id = ground arith in omega (arith, l, at, same))
              s.below);
      single = rw (answers) s.single;
      asked =
          rw (exams, answers)
            (All-map _ _ c.answers
              (λ a h. asked-replaced a exam row c.exams same questions unique h) s.asked);
      graded =
          rw (exams, answers)
            (All-update_where (IsGraded c.answers) (with_id exam.id) (λ _. row) c.exams
              (λ e h hit. g) s.graded);
      default_pool = rw (answers) s.default_pool;
    }

pub complete-IsSound :
    (user id now day month : ℕ) (c : Campus)
    → IsSound c
    → IsSound (complete user id now day month c).1
unfolding complete complete_exam completed_exam
complete-IsSound user id now day month c s = elim (Result-cases (own_exam user id c.exams)) [
  | inr (e, n) ↦ rw (n, complete) s
  | inl (exam, n) ↦ elim (Bool-cases (is_completed exam.status)) [
    | inl done ↦ rw (n, done, complete) s
    | inr open_exam ↦
        let count = count-keep exam.id c.answers in
        rw (n, open_exam, complete)
          (replaced-IsSound user id exam _ c _ n refl refl
            (λ _. (
              ap (λ k. some k) count,
              ap (λ k. some (percent_hundredths k (length exam.question_ids))) count,
            ))
            refl refl refl s)
  ]
]

pub abandon-IsSound : (user id : ℕ) (c : Campus) → IsSound c → IsSound (abandon user id c).1
unfolding abandon
abandon-IsSound user id c s = elim (Result-cases (own_exam user id c.exams)) [
  | inr (e, n) ↦ rw (n, abandon) s
  | inl (exam, n) ↦
      rw (n, abandon)
        (replaced-IsSound user id exam (abandoned_exam exam) c _ n refl refl (λ h. cc) refl refl
          refl s)
]
