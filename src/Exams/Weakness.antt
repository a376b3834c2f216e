-- ===== src/Exams/Weakness.antt =====
-- src/modules/progress/weakness.service.ts: the weakest topics of a user, over the answers to each of
-- the two pools of questions. Titles are left out, since a topic has one, and an accuracy is the pair
-- of numbers it divides. Every answer has its time. Among equally weak topics, whose order SQL leaves
-- open, the one answered first comes first.
pub mod Shown
use bondzi_backend.Prelude.{
  ℕ, ◌+◌, ◌*◌, Bool, true, false, not, ◌&&◌, Option, none, some, List, [], ◌∷◌, zero, suc, ltb, leb,
  ◌==◌, if◌then◌else◌, find?, keep, length,
}
use bondzi_backend.Exams.{Exam, ExamAnswer, Question, TopicAccuracy, Campus, is_pm_test, is_owned}
use bondzi_backend.Exams.Create.Choice.{PmTestQuestion}
use bondzi_backend.Exams.Progress.{one_if}
use bondzi_backend.Exams.Complete.{topics_of}

pub record SyllabusWeakTopic : Type 0 where
  pub syllabus_topic_id : ℕ
  pub form_level : ℕ
  pub answered : ℕ
  pub correct : ℕ

pub record WeaknessBySource : Type 0 where
  pub past_paper_weak_topics : List TopicAccuracy
  pub syllabus_weak_topics : List SyllabusWeakTopic

-- MIN_SAMPLES
abbrev pub min_samples : ℕ
min_samples = 3

-- TOP_N
abbrev pub top_n : ℕ
top_n = 5

-- `subjectId` of the filter, if there is one
abbrev pub on_subject : Option ℕ → ℕ → Bool
on_subject none subject = true
on_subject (some wanted) subject = subject == wanted

-- the answers of the user that are kept with a pool
abbrev pub in_pool : Bool → ℕ → List Exam → ExamAnswer → Bool
in_pool true user exams a = is_owned user exams a && is_pm_test a.question_pool
in_pool false user exams a = is_owned user exams a && not (is_pm_test a.question_pool)

module _ {A : Type 0} (answered correct : A → ℕ) where
  -- `ORDER BY correct / answered ASC`
  abbrev pub weaker : A → A → Bool
  weaker x y = leb (correct x * answered y) (correct y * answered x)

  unfoldable pub insert_topic : A → List A → List A
  insert_topic t [] = t ∷ []
  insert_topic t (x ∷ xs) =
      let rest = insert_topic t xs in if weaker t x then t ∷ x ∷ xs else x ∷ rest

  unfoldable pub by_accuracy : List A → List A
  by_accuracy [] = []
  by_accuracy (x ∷ xs) = insert_topic x (by_accuracy xs)

  -- `LIMIT n`
  unfoldable pub top : ℕ → List A → List A
  top n [] = []
  top zero (x ∷ xs) = []
  top (suc n) (x ∷ xs) = x ∷ top n xs

  -- HAVING, ORDER BY and LIMIT
  unfoldable pub weakest : List A → List A
  weakest groups = top top_n (by_accuracy (keep (λ t. leb min_samples (answered t)) groups))

-- `pastPaperWeakness`
unfoldable pub past_paper_weakness : ℕ → Option ℕ → Campus → List TopicAccuracy
past_paper_weakness user subject c =
    weakest (λ t. t.seen) (λ t. t.correct)
      (topics_of (keep (λ q. on_subject subject q.subject_id) c.questions)
        (keep (in_pool false user c.exams) c.answers) [])

-- one more answer in the group of its topic and form
unfoldable pub add_syllabus : ℕ → ℕ → Bool → List SyllabusWeakTopic → List SyllabusWeakTopic
add_syllabus topic form right [] =
    record { syllabus_topic_id = topic; form_level = form; answered = 1; correct = one_if right }
    ∷ []
add_syllabus topic form right (t ∷ ts) =
    let rest = add_syllabus topic form right ts in
    if t.syllabus_topic_id == topic && t.form_level == form
    then record t { answered = t.answered + 1; correct = t.correct + one_if right } ∷ ts
    else t ∷ rest

abbrev pub syllabus_with : PmTestQuestion → Bool → List SyllabusWeakTopic → List SyllabusWeakTopic
syllabus_with q right ts = elim q.syllabus_topic_id [
  | none ↦ ts
  | some topic ↦ add_syllabus topic q.form_level right ts
]

-- JOIN and GROUP BY
unfoldable pub syllabus_of :
    List PmTestQuestion → List ExamAnswer → List SyllabusWeakTopic → List SyllabusWeakTopic
syllabus_of questions [] ts = ts
syllabus_of questions (a ∷ more) ts =
    syllabus_of questions more (elim (find? (λ q. q.id == a.question_id) questions) [
      | none ↦ ts
      | some q ↦ syllabus_with q a.is_correct ts
    ])

-- `syllabusWeakness`
unfoldable pub syllabus_weakness :
    ℕ → Option ℕ → List PmTestQuestion → Campus → List SyllabusWeakTopic
syllabus_weakness user subject pm_questions c =
    weakest (λ t. t.answered) (λ t. t.correct)
      (syllabus_of (keep (λ q. on_subject subject q.subject_id) pm_questions)
        (keep (in_pool true user c.exams) c.answers) [])

-- `forUser`
unfoldable pub for_user : ℕ → Option ℕ → List PmTestQuestion → Campus → WeaknessBySource
for_user user subject pm_questions c = record {
  past_paper_weak_topics = past_paper_weakness user subject c;
  syllabus_weak_topics = syllabus_weakness user subject pm_questions c;
}
