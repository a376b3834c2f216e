-- ===== src/Exams/Saved.antt =====
-- The exam of a request, before and after it is saved.
use mathlib.Core.Path.{subst}
use bondzi_backend.Prelude.{
  ℕ, ◌≡◌, refl, sym, ap, ok_inj, not_found, forbidden, ◌∙◌, List, [], ◌∷◌, inl, inr, some, ◌==◌,
  ==_refl, update_where, ok, err, Bool-cases, Option-cases, arith,
}
use bondzi_backend.Exams.{Exam, with_id, exam_by_id, own_exam}

-- what `own_exam` answers with
pub record IsOwn (user id : ℕ) (exam : Exam) (exams : List Exam) : Type 0 where
  pub found : exam_by_id id exams ≡ some exam
  pub same : exam.id ≡ id
  pub owned : exam.user_id ≡ user

module _ (user id : ℕ) (exam : Exam) where
  found-id : (exams : List Exam) → exam_by_id id exams ≡ some exam → exam.id ≡ id
  found-id [] e = cc
  found-id (x ∷ exams) e = ground (arith, found-id exams)

  pub own_exam-IsOwn :
      (exams : List Exam) → own_exam user id exams ≡ ok exam → IsOwn user id exam exams
  unfolding own_exam
  own_exam-IsOwn exams e = elim (Option-cases (exam_by_id id exams)) [
    | inl n ↦ let thrown : err not_found ≡ ok exam = rw (n, own_exam) at e in cc
    | inr (x, n) ↦ elim (Bool-cases (x.user_id == user)) [
      | inl hit ↦
          let top : x ≡ exam = ok_inj (rw (n, own_exam, hit) at e) in
          let here : exam_by_id id exams ≡ some exam = n ∙ ap (λ y. some y) top in
          let owner : x.user_id ≡ user = ground arith in
          record {
            found = here;
            same = found-id exams here;
            owned = ap (λ y. y.user_id) (sym top) ∙ owner;
          }
      | inr miss ↦ let thrown : err forbidden ≡ ok exam = rw (n, own_exam, miss) at e in cc
    ]
  ]

  found-saved :
      (row : Exam) (exams : List Exam)
      → row.id ≡ id
      → exam_by_id id exams ≡ some exam
      → exam_by_id id (update_where (with_id id) (λ _. row) exams) ≡ some row
  found-saved row [] same e = cc
  found-saved row (x ∷ exams) same e = elim (Bool-cases (x.id == id)) [
    | inl hit ↦ rw (hit) (rw (same, ==_refl id) refl)
    | inr miss ↦ rw (miss, miss) (found-saved row exams same (rw (miss) at e))
  ]

  -- a saved row of the same exam is the exam of the next request
  pub own_exam-saved :
      (row : Exam) (exams : List Exam)
      → own_exam user id exams ≡ ok exam
      → row.id ≡ exam.id
      → row.user_id ≡ exam.user_id
      → own_exam user id (update_where (with_id exam.id) (λ _. row) exams) ≡ ok row
  unfolding own_exam
  own_exam-saved row exams e same owner =
      let own = own_exam-IsOwn exams e in
      let saved : exam_by_id id (update_where (with_id exam.id) (λ _. row) exams) ≡ some row =
        subst (λ k. exam_by_id id (update_where (with_id k) (λ _. row) exams) ≡ some row)
          (sym own.same) (found-saved row exams (same ∙ own.same) own.found) in
      rw (saved, own_exam) (rw (owner ∙ own.owned, ==_refl user) refl)
