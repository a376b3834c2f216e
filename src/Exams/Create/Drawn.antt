-- ===== src/Exams/Create/Drawn.antt =====
-- The questions that are drawn for an exam.
use bondzi_backend.Prelude.{
  ℕ, zero, suc, ◌*◌, ◌≤◌, ◌≡◌, refl, sym, ap, ◌∙◌, Bool, true, false, ◌&&◌, ◌||◌, some, List, [],
  ◌∷◌, inl, inr, map, ◌==◌, if◌then◌else◌, or_default, any, keep, length, Bool-cases, arith,
}
use bondzi_backend.Enums.{ExamType, QuestionPool, level_eq, question_pool_for}
use bondzi_backend.Exams.{ExamMode, Question, is_pm_test, contains}
use bondzi_backend.Exams.Create.Choice.{
  CreateExam, Pupil, is_past_paper, is_pm_mode, is_mock_mode, matches, matches_pm, matches_mock,
  insert_question, canonical, first,
}
use bondzi_backend.Exams.Create.{Desk, draw, draw_pm, draw_mock, draw_for}

module _ {A : Type 0} (id : A → ℕ) where
  pub contains-map : (k : ℕ) (xs : List A) → contains k (map id xs) ≡ any (λ x. id x == k) xs
  contains-map k [] = refl
  contains-map k (x ∷ xs) = ap (λ b. (id x == k) || b) (contains-map k xs)

  any-keep :
      (p q : A → Bool) (k : ℕ) (xs : List A)
      → ((x : A) → p x ≡ true → q x ≡ true)
      → any (λ x. id x == k) (keep p xs) ≡ true
      → any (λ x. id x == k && q x) xs ≡ true
  any-keep p q k [] h e = cc
  any-keep p q k (x ∷ xs) h e = elim (Bool-cases (p x)) [
    | inl y ↦ ground (arith, h x y, any-keep p q k xs h)
    | inr n ↦ ground (arith, any-keep p q k xs h)
  ]

contains-first : (n k : ℕ) (xs : List ℕ) → contains k (first n xs) ≡ true → contains k xs ≡ true
unfolding first
contains-first n k [] e = e
contains-first zero k (x ∷ xs) e = cc
contains-first (suc n) k (x ∷ xs) e = ground (arith, contains-first n k xs)

length-first-le : (n : ℕ) (xs : List ℕ) → length (first n xs) ≤ n
unfolding first
length-first-le n [] = omega arith
length-first-le zero (x ∷ xs) = omega arith
length-first-le (suc n) (x ∷ xs) = omega (arith, length-first-le n xs)

any-insert :
    (p : Question → Bool) (q : Question) (xs : List Question)
    → any p (insert_question q xs) ≡ (p q || any p xs)
unfolding insert_question
any-insert p q [] = refl
any-insert p q (x ∷ xs) = ground (arith, any-insert p q xs)

any-canonical : (p : Question → Bool) (xs : List Question) → any p (canonical xs) ≡ any p xs
unfolding canonical
any-canonical p [] = refl
any-canonical p (x ∷ xs) = any-insert p x (canonical xs) ∙ ap (λ b. p x || b) (any-canonical p xs)

-- the question is active and of the pool of the level
abbrev pub is_offered : ExamType → ExamType → Bool → Bool
is_offered level own active = active && level_eq own (question_pool_for level)

-- a question of the pool of the exam that its level is offered
abbrev pub is_eligible : Desk → ExamType → QuestionPool → ℕ → Bool
is_eligible d level pool k =
    if is_pm_test pool
    then any (λ q. q.id == k && is_offered level q.exam_type q.is_active) d.pm_questions
    else any (λ q. q.id == k && is_offered level q.exam_type q.is_active) d.campus.questions

abbrev pub limit : CreateExam → ℕ
limit dto =
    if is_mock_mode dto.mode
    then 50
    else or_default dto.question_count (if is_past_paper dto.mode then 50 else 20)

pm-alone :
    (mode : ExamMode)
    → is_pm_mode mode ≡ true
    → (is_mock_mode mode ≡ false) × (is_past_paper mode ≡ false)
pm-alone ExamMode.pm_test h = (refl, refl)
pm-alone ExamMode.past_paper h = cc
pm-alone ExamMode.practice h = cc
pm-alone ExamMode.topic_drill h = cc
pm-alone ExamMode.srs_review h = cc
pm-alone ExamMode.mock_exam h = cc

module _ (random : List ℕ → List ℕ)
    (keeps : (k : ℕ) (xs : List ℕ) → contains k (random xs) ≡ true → contains k xs ≡ true)
    (user : Pupil) (dto : CreateExam) where
  from_random :
      {A : Type 0} (id : A → ℕ) (p q : A → Bool) (n k : ℕ) (xs : List A)
      → ((x : A) → p x ≡ true → q x ≡ true)
      → contains k (first n (random (map id (keep p xs)))) ≡ true
      → any (λ x. id x == k && q x) xs ≡ true
  from_random id p q n k xs h e =
      any-keep id p q k xs h
        (sym (contains-map id k (keep p xs)) ∙ keeps k _ (contains-first n k _ e))

  from_canonical :
      (p q : Question → Bool) (n k : ℕ) (xs : List Question)
      → ((x : Question) → p x ≡ true → q x ≡ true)
      → contains k (first n (map (λ x. x.id) (canonical (keep p xs)))) ≡ true
      → any (λ x. x.id == k && q x) xs ≡ true
  from_canonical p q n k xs h e =
      any-keep (λ x. x.id) p q k xs h
        (sym (any-canonical (λ x. x.id == k) (keep p xs))
          ∙ (sym (contains-map (λ x. x.id) k (canonical (keep p xs))) ∙ contains-first n k _ e))

  pub drawn-eligible :
      (d : Desk) (k : ℕ)
      → contains k (draw_for random user dto d).ids ≡ true
      → is_eligible d user.exam_type (draw_for random user dto d).pool k ≡ true
  unfolding draw_for draw draw_pm draw_mock matches matches_pm matches_mock
  drawn-eligible d k e = elim (Bool-cases (is_pm_mode dto.mode)) [
    | inl pm ↦
        rw (pm, draw_for)
          (from_random (λ q. q.id) (matches_pm user dto) _ _ k d.pm_questions (λ q h. ground arith)
            (rw (pm, draw_for) at e))
    | inr other ↦ elim (Bool-cases (is_mock_mode dto.mode)) [
      | inl mock ↦
          rw (other, mock, draw_for)
            (from_random (λ q. q.id) (matches_mock user dto) _ _ k d.campus.questions
              (λ q h. ground arith) (rw (other, mock, draw_for) at e))
      | inr plain ↦ elim (Bool-cases (is_past_paper dto.mode)) [
        | inl past ↦
            rw (other, plain, draw_for)
              (from_canonical _ _ _ k d.campus.questions (λ q h. ground arith)
                (rw (other, plain, past, draw_for, draw) at e))
        | inr practice ↦
            rw (other, plain, draw_for)
              (from_random (λ q. q.id) _ _ _ k d.campus.questions (λ q h. ground arith)
                (rw (other, plain, practice, draw_for, draw) at e))
      ]
    ]
  ]

  pub drawn-limit : (d : Desk) → length (draw_for random user dto d).ids ≤ limit dto
  unfolding draw_for draw draw_pm draw_mock
  drawn-limit d = elim (Bool-cases (is_pm_mode dto.mode)) [
    | inl pm ↦
        let (no_mock, no_past) = pm-alone dto.mode pm in
        rw (pm, no_mock, no_past, draw_for) (length-first-le _ _)
    | inr other ↦ elim (Bool-cases (is_mock_mode dto.mode)) [
      | inl mock ↦ rw (other, mock, draw_for) (length-first-le _ _)
      | inr plain ↦ rw (other, plain, draw_for) (length-first-le _ _)
    ]
  ]

  pub drawn-mock :
      (d : Desk)
      → is_mock_mode dto.mode ≡ true
      → (draw_for random user dto d).seconds ≡ some (3 * 60 * 60)
  unfolding draw_for draw_mock
  drawn-mock d mock = elim (Bool-cases (is_pm_mode dto.mode)) [
    | inl pm ↦ let no_mock = (pm-alone dto.mode pm).0 in absurd (ground arith)
    | inr other ↦ rw (other, mock, draw_for) refl
  ]
