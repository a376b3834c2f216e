-- ===== src/Exams/History.antt =====
-- Every state of the tables that the calls of exams.service.ts lead to, in any order, by any users
-- and at any times, with anything else changing the other tables between them.
pub mod Sound
pub mod Steps
use native.Mathlib.Nat.{le-div_iff_mul-le}
use bondzi_backend.Prelude.{
  ℕ, ◌+◌, ◌*◌, ◌/◌, ◌≤◌, ◌<◌, ◌≡◌, refl, sym, ap, ◌∙◌, Bool, true, false, Option, some, List, [],
  inl, inr, ◌==◌, if◌then◌else◌, length, count_if, update_where, All, All-find?, Bool-cases, find?,
  leb, leb→le, arith,
}
use bondzi_backend.Enums.{ExamType, AccountType}
use bondzi_backend.Exams.{Exam, Campus, is_completed, with_id, exam_by_id, correct_of, answers_to}
use bondzi_backend.Exams.Submit.{SubmitAnswer, submit_answer}
use bondzi_backend.Exams.Complete.{percent_hundredths, complete}
use bondzi_backend.Exams.Session.{abandon}
use bondzi_backend.Exams.Create.{Desk, create, draw_for}
use bondzi_backend.Exams.Create.Choice.{CreateExam}
use bondzi_backend.Exams.Create.Outcome.{create-cases}
use bondzi_backend.Exams.History.Sound.{IsSound, IsGraded, graded-bound}
use bondzi_backend.Exams.History.Steps.{
  save_exam-IsSound, submit_answer-IsSound, complete-IsSound, abandon-IsSound,
}

-- whatever does not write the two tables of the exams
pub record LeavesExams (c t : Campus) : Type 0 where
  pub exams : t.exams ≡ c.exams
  pub answers : t.answers ≡ c.answers
  pub next_id : t.next_id ≡ c.next_id

LeavesExams-IsSound : (c t : Campus) → LeavesExams c t → IsSound c → IsSound t
LeavesExams-IsSound c t l s = record {
  keyed = rw (l.exams) s.keyed;
  below = rw (l.exams, l.next_id) s.below;
  single = rw (l.answers) s.single;
  asked = rw (l.answers, l.exams) s.asked;
  graded = rw (l.answers, l.exams) s.graded;
  default_pool = rw (l.answers) s.default_pool;
}

module _ (tier_of : ℕ → ExamType → Option AccountType) (random : List ℕ → List ℕ)
    (has_plus : ℕ → ExamType → Bool) where
  pub data Step : Desk → Desk → Type 0 where
    creates :
        {d : Desk} (user : ℕ) (dto : CreateExam) (now today : ℕ)
        → Step d (create tier_of random has_plus user dto now today d).1
    answers :
        {d : Desk} (user id : ℕ) (dto : SubmitAnswer) (now day month : ℕ)
        → Step d (record d { campus = (submit_answer user id dto now day month d.campus).1 })
    completes :
        {d : Desk} (user id now day month : ℕ)
        → Step d (record d { campus = (complete user id now day month d.campus).1 })
    abandons :
        {d : Desk} (user id : ℕ) → Step d (record d { campus = (abandon user id d.campus).1 })
    elsewhere : {d t : Desk} → LeavesExams d.campus t.campus → Step d t

  pub data Reach : Desk → Type 0 where
    start : {d : Desk} → d.campus.exams ≡ [] → d.campus.answers ≡ [] → Reach d
    later : {d t : Desk} → Reach d → Step d t → Reach t

  create-IsSound :
      (user : ℕ) (dto : CreateExam) (now today : ℕ) (d : Desk)
      → IsSound d.campus
      → IsSound (create tier_of random has_plus user dto now today d).1.campus
  create-IsSound user dto now today d s =
      elim (create-cases tier_of random has_plus user dto now today d) [
        | inl (e, threw, same) ↦
            LeavesExams-IsSound d.campus _
              (record {
                exams = ap (λ c. c.exams) same;
                answers = ap (λ c. c.answers) same;
                next_id = ap (λ c. c.next_id) same;
              })
              s
        | inr (p, (n, full, answer, campus)) ↦
            let drawn = draw_for random p dto d in
            rw (campus) (save_exam-IsSound p dto drawn.pool drawn.seconds drawn.ids now d.campus s)
      ]

  pub Reach-IsSound : {d : Desk} → Reach d → IsSound d.campus
  Reach-IsSound (start no_exams no_answers) = record {
    keyed = rw (no_exams) tt;
    below = rw (no_exams) tt;
    single = λ id q. rw (no_answers) (omega arith);
    asked = rw (no_answers) tt;
    graded = rw (no_exams) tt;
    default_pool = rw (no_answers) tt;
  }
  Reach-IsSound (later {d} r (creates user dto now today)) =
      create-IsSound user dto now today d (Reach-IsSound r)
  Reach-IsSound (later {d} r (answers user id dto now day month)) =
      submit_answer-IsSound user id dto now day month d.campus (Reach-IsSound r)
  Reach-IsSound (later {d} r (completes user id now day month)) =
      complete-IsSound user id now day month d.campus (Reach-IsSound r)
  Reach-IsSound (later {d} r (abandons user id)) =
      abandon-IsSound user id d.campus (Reach-IsSound r)
  Reach-IsSound (later {d} {t} r (elsewhere l)) =
      LeavesExams-IsSound d.campus t.campus l (Reach-IsSound r)

percent-le : (right total : ℕ) → right ≤ total → percent_hundredths right total ≤ 10000
unfolding percent_hundredths
percent-le right total h = elim (Bool-cases (total == 0)) [
  | inl empty ↦ rw (empty, percent_hundredths) (omega arith)
  | inr full ↦
      let wide : 0 < 2 * total = ground arith in
      let split = le-div_iff_mul-le {k = 2 * total} {x = 10001} {y = right * 20000 + total} wide in
      rw (full, percent_hundredths)
        (elim (Bool-cases (leb ((right * 20000 + total) / (2 * total)) 10000)) [
          | inl y ↦ leb→le _ _ y
          | inr n ↦ absurd (omega (arith, split.0 (ground arith)))
        ])
]

-- Every exam that shows as completed, in any tables that the calls lead to, has as its score the
-- number of its answers that are correct, which is at most the number of its questions, and as its
-- percentage that score out of its questions, which is at most 100.00; and every question has at
-- most one answer in it.
pub Reach-grades :
    (tier_of : ℕ → ExamType → Option AccountType) (random : List ℕ → List ℕ)
    (has_plus : ℕ → ExamType → Bool) (d : Desk) (e : Exam)
    → Reach tier_of random has_plus d
    → exam_by_id e.id d.campus.exams ≡ some e
    → is_completed e.status ≡ true
    → (right : ℕ) × (right ≡ count_if (correct_of e.id) d.campus.answers)
      × (e.score ≡ some right)
      × (right ≤ length e.question_ids)
      × (e.percent_score ≡ some (percent_hundredths right (length e.question_ids)))
      × (percent_hundredths right (length e.question_ids) ≤ 10000)
      × ((question : ℕ) → count_if (answers_to e.id question) d.campus.answers ≤ 1)
Reach-grades tier_of random has_plus d e reach found done =
    let s = Reach-IsSound tier_of random has_plus reach in
    let bound = graded-bound d.campus e s found in
    let (score, percent) =
      All-find? (IsGraded d.campus.answers) (with_id e.id) d.campus.exams e s.graded found done in
    (_, refl, score, bound, percent, percent-le _ _ bound, λ q. s.single e.id q)
