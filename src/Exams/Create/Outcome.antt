-- ===== src/Exams/Create/Outcome.antt =====
-- The outcome of a call of `create`.
use bondzi_backend.Prelude.{
  ℕ, ◌*◌, ◌≤◌, ◌≡◌, ◌<◌, ◌⊎◌, bad_request, refl, ap, Bool, true, Option, some, List, ◌∷◌, inl, inr,
  ◌==◌, length, Result, ok, err, HttpError, Result-cases, Bool-cases, arith,
}
use bondzi_backend.Enums.{ExamType, AccountType}
use bondzi_backend.Exams.{Exam, in_progress, contains}
use bondzi_backend.Exams.Create.Choice.{CreateExam, Pupil, is_mock_mode}
use bondzi_backend.Quota.{Usage}
use bondzi_backend.Exams.Create.{
  Desk, Draw, draw_for, new_exam, save_exam, admit, metered, meter, open_session, create,
  check_filter,
}
use bondzi_backend.Exams.Create.Drawn.{limit, is_eligible}

module _ (tier_of : ℕ → ExamType → Option AccountType) (random : List ℕ → List ℕ)
    (has_plus : ℕ → ExamType → Bool) (user : ℕ) (dto : CreateExam) (now today : ℕ) (d : Desk) where
  pub single-subject :
      check_filter dto ≡ ok tt → is_mock_mode dto.mode ≡ true → length dto.subject_ids ≡ 1
  unfolding check_filter
  single-subject e mock = ground arith

  abbrev out : Result Exam × Desk
  out = create tier_of random has_plus user dto now today d

  abbrev Refused : Type 0
  Refused = (e : HttpError) × (out.0 ≡ err e) × (out.1.campus ≡ d.campus)

  -- an exam with at least one question is saved
  abbrev Saved : Pupil → Draw → Type 0
  Saved p drawn =
      (admit tier_of random has_plus user dto d ≡ ok p)
      × (0 < length drawn.ids)
      × (out.0 ≡ ok (new_exam p dto drawn.pool drawn.seconds drawn.ids now d.campus.next_id))
      × (out.1.campus ≡ save_exam p dto drawn.pool drawn.seconds drawn.ids now d.campus)

  opened-cases :
      (p : Pupil) (usage : List Usage)
      → admit tier_of random has_plus user dto d ≡ ok p
      → meter tier_of p.id (metered dto d.subjects) today d ≡ (ok tt, usage)
      → Refused ⊎ Saved p (draw_for random p dto d)
  unfolding create open_session draw_for
  opened-cases p usage n m = elim (Bool-cases (length (draw_for random p dto d).ids == 0)) [
    | inl empty ↦ inl (
      bad_request,
      rw (n, m, create, open_session, empty) refl,
      rw (n, m, create, open_session, empty) refl,
    )
    | inr full ↦ inr (
      n,
      ground arith,
      rw (n, m, create, open_session, full) refl,
      rw (n, m, create, open_session, full) refl,
    )
  ]

  pub create-cases : Refused ⊎ ((p : Pupil) × Saved p (draw_for random p dto d))
  unfolding create
  create-cases = elim (Result-cases (admit tier_of random has_plus user dto d)) [
    | inr (e, n) ↦ inl (e, rw (n, create) refl, rw (n, create) refl)
    | inl (p, n) ↦ elim (Result-cases (meter tier_of p.id (metered dto d.subjects) today d).0) [
      | inr (e, m) ↦ inl (e, rw (n, m, create) refl, rw (n, m, create) refl)
      | inl (u, m) ↦
          elim (opened-cases p _ n (
            ap
              (λ (r : Result (Unit {0})).
                (r, (meter tier_of p.id (metered dto d.subjects) today d).1))
              m)) [ inl failed ↦ inl failed | inr saved ↦ inr (p, saved) ]
    ]
  ]

-- what an exam is like that was just created
pub record IsDrawn (user : ℕ) (dto : CreateExam) (d t : Desk) (exam : Exam) : Type 0 where
  pub saved : t.campus.exams ≡ exam ∷ d.campus.exams
  pub owner : exam.user_id ≡ user
  pub running : exam.status ≡ in_progress
  pub some_question : 0 < length exam.question_ids
  pub few : length exam.question_ids ≤ limit dto
  pub eligible :
      (k : ℕ)
      → contains k exam.question_ids ≡ true
      → is_eligible d exam.exam_type exam.question_pool k ≡ true
  pub mock :
      is_mock_mode dto.mode ≡ true
      → (exam.duration_seconds ≡ some (3 * 60 * 60)) × (length dto.subject_ids ≡ 1)
