-- ===== src/Exams/Progress.antt =====
-- `updateSubjectProgress` of src/modules/exams/exams.service.ts: the answers of an exam, summed up by
-- subject and topic, are added to the rows of `user_subject_progress`. Only past-paper questions are
-- looked up, so answers to other questions do not count.
pub mod Counts
use bondzi_backend.Prelude.{
  ℕ, ◌+◌, Bool, true, false, ◌&&◌, Option, none, some, List, [], ◌∷◌, ◌==◌, if◌then◌else◌,
  or_default, find?, any, update_where,
}
use bondzi_backend.Exams.{ExamAnswer, Question, TopicAccuracy, UserSubjectProgress, contains}

-- an entry of the map `bySubject`
pub record Bucket : Type 0 where
  pub subject_id : ℕ
  pub seen : ℕ
  pub correct : ℕ
  pub time : ℕ
  pub topics : List TopicAccuracy

abbrev pub one_if : Bool → ℕ
one_if right = if right then 1 else 0

-- an entry of a map of topics, raised or added at the end
unfoldable pub add_topic : ℕ → ℕ → ℕ → List TopicAccuracy → List TopicAccuracy
add_topic topic seen correct [] = record { topic_id = topic; seen = seen; correct = correct } ∷ []
add_topic topic seen correct (t ∷ ts) =
    let rest = add_topic topic seen correct ts in
    if t.topic_id == topic
    then record t { seen = t.seen + seen; correct = t.correct + correct } ∷ ts
    else t ∷ rest

abbrev pub topics_with : Option ℕ → Bool → List TopicAccuracy → List TopicAccuracy
topics_with none right ts = ts
topics_with (some topic) right ts = add_topic topic 1 (one_if right) ts

-- one more answer in the bucket
unfoldable pub with_answer : Question → ExamAnswer → Bucket → Bucket
with_answer q a b = record b {
  seen = b.seen + 1;
  correct = b.correct + one_if a.is_correct;
  time = b.time + or_default a.time_spent_ms 0;
  topics = topics_with q.topic_id a.is_correct b.topics;
}

abbrev pub empty_bucket : ℕ → Bucket
empty_bucket subject = record { subject_id = subject; seen = 0; correct = 0; time = 0; topics = [] }

unfoldable pub add_answer : Question → ExamAnswer → List Bucket → List Bucket
add_answer q a [] = with_answer q a (empty_bucket q.subject_id) ∷ []
add_answer q a (b ∷ bs) =
    let rest = add_answer q a bs in
    if b.subject_id == q.subject_id then with_answer q a b ∷ bs else b ∷ rest

-- the question of the answer, among those of the exam
abbrev pub question_for : List ℕ → List Question → ExamAnswer → Option Question
question_for ids questions a = find? (λ q. q.id == a.question_id && contains q.id ids) questions

-- the loop over the answers
unfoldable pub tally : List ℕ → List Question → List ExamAnswer → List Bucket → List Bucket
tally ids questions [] bs = bs
tally ids questions (a ∷ more) bs =
    tally ids questions more
      (elim (question_for ids questions a) [ none ↦ bs | some q ↦ add_answer q a bs ])

-- `nextTopicAcc`
unfoldable pub merge_topics : List TopicAccuracy → List TopicAccuracy → List TopicAccuracy
merge_topics [] rows = rows
merge_topics (t ∷ ts) rows = merge_topics ts (add_topic t.topic_id t.seen t.correct rows)

unfoldable pub merged : Bucket → ℕ → UserSubjectProgress → UserSubjectProgress
merged b now p = record p {
  questions_seen = p.questions_seen + b.seen;
  questions_correct = p.questions_correct + b.correct;
  total_time_ms = p.total_time_ms + b.time;
  topic_accuracy = merge_topics b.topics p.topic_accuracy;
  last_studied_at = some now;
}

-- `create({ userId, subjectId })`, whose missing numbers count as 0
abbrev pub blank_progress : ℕ → ℕ → UserSubjectProgress
blank_progress user subject = record {
  user_id = user;
  subject_id = subject;
  questions_seen = 0;
  questions_correct = 0;
  total_time_ms = 0;
  topic_accuracy = [];
  last_studied_at = none;
}

abbrev pub is_progress : ℕ → ℕ → UserSubjectProgress → Bool
is_progress user subject p = p.user_id == user && p.subject_id == subject

unfoldable pub merge_bucket : ℕ → ℕ → Bucket → List UserSubjectProgress → List UserSubjectProgress
merge_bucket user now b rows =
    if any (is_progress user b.subject_id) rows
    then update_where (is_progress user b.subject_id) (merged b now) rows
    else merged b now (blank_progress user b.subject_id) ∷ rows

unfoldable pub merge_buckets :
    ℕ → ℕ → List Bucket → List UserSubjectProgress → List UserSubjectProgress
merge_buckets user now [] rows = rows
merge_buckets user now (b ∷ bs) rows = merge_buckets user now bs (merge_bucket user now b rows)

-- `updateSubjectProgress`
unfoldable pub update_subject_progress :
    ℕ
    → ℕ
    → List ℕ
    → List Question
    → List ExamAnswer
    → List UserSubjectProgress
    → List UserSubjectProgress
update_subject_progress user now ids questions answers rows =
    merge_buckets user now (tally ids questions answers []) rows
