-- ===== src/Exams/Weakness/Shown.antt =====
-- Which topics are shown as weak.
use bondzi_backend.Prelude.{
  ℕ, ◌*◌, ◌≤◌, ◌≡◌, refl, Bool, true, false, Option, List, [], ◌∷◌, inl, inr, zero, suc, keep,
  length, leb, leb→le, All, All-map, Bool-cases, arith,
}
use bondzi_backend.Enums.{ExamType, AccountType}
use bondzi_backend.Exams.{Exam, ExamAnswer, Campus, is_pm_test}
use bondzi_backend.Exams.Create.{Desk}
use bondzi_backend.Exams.Create.Choice.{PmTestQuestion}
use bondzi_backend.Exams.History.{Reach, Reach-IsSound}
use bondzi_backend.Exams.Weakness.{
  weaker, insert_topic, by_accuracy, top, weakest, in_pool, syllabus_of, syllabus_weakness,
  past_paper_weakness, for_user, min_samples, top_n,
}

keep-All {ℓ} : {A : Type ℓ} (p : A → Bool) (xs : List A) → All (λ x. p x ≡ true) (keep p xs)
keep-All p [] = tt
keep-All p (x ∷ xs) = elim (Bool-cases (p x)) [
  | inl y ↦ rw (y) (y, keep-All p xs)
  | inr n ↦ rw (n) (keep-All p xs)
]

module _ {A : Type 0} (answered correct : A → ℕ) where
  -- no topic comes after a stronger one
  abbrev pub IsAhead : A → List A → Type 0
  IsAhead x [] = Unit
  IsAhead x (y ∷ ys) = correct x * answered y ≤ correct y * answered x

  abbrev pub IsRanked : List A → Type 0
  IsRanked [] = Unit
  IsRanked (x ∷ xs) = IsAhead x xs × IsRanked xs

  top-length : (n : ℕ) (xs : List A) → length (top answered correct n xs) ≤ n
  unfolding top
  top-length n [] = omega arith
  top-length zero (x ∷ xs) = omega arith
  top-length (suc n) (x ∷ xs) = omega (arith, top-length n xs)

  top-All : (P : A → Type 0) (n : ℕ) (xs : List A) → All P xs → All P (top answered correct n xs)
  unfolding top
  top-All P n [] h = tt
  top-All P zero (x ∷ xs) h = tt
  top-All P (suc n) (x ∷ xs) h = (h.0, top-All P n xs h.1)

  top-IsAhead : (x : A) (n : ℕ) (xs : List A) → IsAhead x xs → IsAhead x (top answered correct n xs)
  unfolding top
  top-IsAhead x n [] h = tt
  top-IsAhead x zero (y ∷ ys) h = tt
  top-IsAhead x (suc n) (y ∷ ys) h = h

  top-IsRanked : (n : ℕ) (xs : List A) → IsRanked xs → IsRanked (top answered correct n xs)
  unfolding top
  top-IsRanked n [] h = tt
  top-IsRanked zero (x ∷ xs) h = tt
  top-IsRanked (suc n) (x ∷ xs) h = (top-IsAhead x n xs h.0, top-IsRanked n xs h.1)

  insert-IsAhead :
      (x t : A) (xs : List A)
      → correct x * answered t ≤ correct t * answered x
      → IsAhead x xs
      → IsAhead x (insert_topic answered correct t xs)
  unfolding insert_topic
  insert-IsAhead x t [] l h = l
  insert-IsAhead x t (y ∷ ys) l h = elim (Bool-cases (weaker answered correct t y)) [
    | inl w ↦ rw (w) l
    | inr w ↦ rw (w) h
  ]

  insert-IsRanked :
      (t : A) (xs : List A) → IsRanked xs → IsRanked (insert_topic answered correct t xs)
  unfolding insert_topic
  insert-IsRanked t [] h = (tt, tt)
  insert-IsRanked t (x ∷ xs) h = elim (Bool-cases (weaker answered correct t x)) [
    | inl w ↦ rw (w) (leb→le _ _ w, h)
    | inr w ↦ rw (w) (insert-IsAhead x t xs (ground arith) h.0, insert-IsRanked t xs h.1)
  ]

  sort-IsRanked : (xs : List A) → IsRanked (by_accuracy answered correct xs)
  unfolding by_accuracy
  sort-IsRanked [] = tt
  sort-IsRanked (x ∷ xs) = insert-IsRanked x _ (sort-IsRanked xs)

  insert-All :
      (P : A → Type 0) (t : A) (xs : List A)
      → P t
      → All P xs
      → All P (insert_topic answered correct t xs)
  unfolding insert_topic
  insert-All P t [] p h = (p, tt)
  insert-All P t (x ∷ xs) p h = elim (Bool-cases (weaker answered correct t x)) [
    | inl y ↦ rw (y) (p, h)
    | inr n ↦ rw (n) (h.0, insert-All P t xs p h.1)
  ]

  sort-All : (P : A → Type 0) (xs : List A) → All P xs → All P (by_accuracy answered correct xs)
  unfolding by_accuracy
  sort-All P [] h = tt
  sort-All P (x ∷ xs) h = insert-All P x _ h.0 (sort-All P xs h.1)

  -- what is shown of the groups: those with enough answers, the weakest ones first
  abbrev pub IsShown : List A → Type 0
  IsShown rows = All (λ t. min_samples ≤ answered t) rows × IsRanked rows × (length rows ≤ top_n)

  pub weakest-IsShown : (groups : List A) → IsShown (weakest answered correct groups)
  unfolding weakest
  weakest-IsShown groups =
      let enough =
        All-map _ _ _ (λ t h. leb→le _ _ h) (keep-All (λ t. leb min_samples (answered t)) groups) in
      (
        top-All _ top_n _ (sort-All _ _ enough),
        top-IsRanked top_n _ (sort-IsRanked _),
        top-length top_n _,
      )

-- The topics that are shown as weak, of either pool, have at least three answers each, are at most
-- five, and none of them comes after one with a greater share of correct answers.
for_user-IsShown :
    (user : ℕ) (subject : Option ℕ) (pm_questions : List PmTestQuestion) (c : Campus)
    → IsShown
        (λ t. t.seen)
        (λ t. t.correct)
        (for_user user subject pm_questions c).past_paper_weak_topics
      × IsShown
          (λ t. t.answered)
          (λ t. t.correct)
          (for_user user subject pm_questions c).syllabus_weak_topics
unfolding for_user past_paper_weakness syllabus_weakness
for_user-IsShown user subject pm_questions c = (weakest-IsShown _ _ _, weakest-IsShown _ _ _)

none-kept :
    (user : ℕ) (exams : List Exam) (answers : List ExamAnswer)
    → All (λ a. is_pm_test a.question_pool ≡ false) answers
    → keep (in_pool true user exams) answers ≡ []
none-kept user exams [] h = refl
none-kept user exams (a ∷ answers) h = ground (arith, h.0, none-kept user exams answers h.1)

-- No topic of the syllabus is ever shown as weak: whatever level tests were taken, in any tables that
-- the calls lead to, the list of a user is empty.
pub Reach-no_syllabus_topic :
    (tier_of : ℕ → ExamType → Option AccountType) (random : List ℕ → List ℕ)
    (has_plus : ℕ → ExamType → Bool) (d : Desk) (user : ℕ) (subject : Option ℕ)
    → Reach tier_of random has_plus d
    → (for_user user subject d.pm_questions d.campus).syllabus_weak_topics ≡ []
unfolding for_user syllabus_weakness syllabus_of weakest by_accuracy top
Reach-no_syllabus_topic tier_of random has_plus d user subject reach =
    let s = Reach-IsSound tier_of random has_plus reach in
    rw (none-kept user d.campus.exams d.campus.answers s.default_pool) refl
