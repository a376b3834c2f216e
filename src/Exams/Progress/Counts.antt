-- ===== src/Exams/Progress/Counts.antt =====
-- What a completed exam adds to the progress of a subject.
use mathlib.Core.Path.{subst}
use bondzi_backend.Prelude.{
  ℕ, ◌+◌, ◌≡◌, refl, ap, ◌∙◌, Bool, false, Option, none, some, List, [], ◌∷◌, inl, inr, ◌==◌,
  ==_refl, if◌then◌else◌, find?, any, update_where, Bool-cases, Option-cases, find?_of_any,
  find?-update_where, arith,
}
use bondzi_backend.Exams.{ExamAnswer, Question, UserSubjectProgress}
use bondzi_backend.Exams.Progress.{
  Bucket, one_if, with_answer, empty_bucket, add_answer, question_for, tally, merged,
  blank_progress, is_progress, merge_bucket, merge_buckets, update_subject_progress,
}

-- a number of a row of the table, with the number of a bucket that is added to it, and what one
-- answer adds to that
pub record Column : Type 0 where
  pub of_row : UserSubjectProgress → ℕ
  pub of_bucket : Bucket → ℕ
  pub of_answer : ExamAnswer → ℕ
  pub row_adds :
      (b : Bucket) (now : ℕ) (p : UserSubjectProgress)
      → of_row (merged b now p) ≡ of_row p + of_bucket b
  pub row_starts : (user subject : ℕ) → of_row (blank_progress user subject) ≡ 0
  pub bucket_adds :
      (q : Question) (a : ExamAnswer) (b : Bucket)
      → of_bucket (with_answer q a b) ≡ of_bucket b + of_answer a
  pub bucket_starts : (subject : ℕ) → of_bucket (empty_bucket subject) ≡ 0

-- what the row of a subject shows, and 0 where there is none
abbrev pub shown : Column → Option UserSubjectProgress → ℕ
shown c none = 0
shown c (some p) = c.of_row p

abbrev pub shown_on : Column → ℕ → ℕ → List UserSubjectProgress → ℕ
shown_on c user subject rows = shown c (find? (is_progress user subject) rows)

-- the independent count: the answers whose question is one of the exam and of the subject
abbrev pub lies_in : ℕ → Option Question → Bool
lies_in subject none = false
lies_in subject (some q) = q.subject_id == subject

abbrev pub count_on : Column → ℕ → List ℕ → List Question → List ExamAnswer → ℕ
count_on c subject ids questions [] = 0
count_on c subject ids questions (a ∷ more) =
    (if lies_in subject (question_for ids questions a) then c.of_answer a else 0)
    + count_on c subject ids questions more

find-none :
    (p : UserSubjectProgress → Bool) (rows : List UserSubjectProgress)
    → any p rows ≡ false
    → find? p rows ≡ none
find-none p [] h = refl
find-none p (x ∷ rows) h = ground (arith, find-none p rows)

module _ (c : Column) (user now : ℕ) where
  shown_on-own :
      (b : Bucket) (rows : List UserSubjectProgress)
      → shown_on c user b.subject_id (merge_bucket user now b rows)
        ≡ shown_on c user b.subject_id rows + c.of_bucket b
  unfolding merge_bucket merged
  shown_on-own b rows = elim (Bool-cases (any (is_progress user b.subject_id) rows)) [
    | inl old ↦
        let (p, found) = find?_of_any (is_progress user b.subject_id) rows old in
        let after =
          find?-update_where (is_progress user b.subject_id) (merged b now) (λ x. refl) rows p
            found in
        rw (old, merge_bucket) (rw (after, found) (c.row_adds b now p))
    | inr new ↦
        rw (new, merge_bucket)
          (rw (find-none _ rows new, ==_refl user, ==_refl b.subject_id)
            (c.row_adds b now (blank_progress user b.subject_id)
              ∙ ap (λ n. n + c.of_bucket b) (c.row_starts user b.subject_id)))
  ]

module _ (c : Column) (user subject now : ℕ) where
  abbrev in_buckets : List Bucket → ℕ
  in_buckets [] = 0
  in_buckets (b ∷ bs) = (if b.subject_id == subject then c.of_bucket b else 0) + in_buckets bs

  -- what the bucket counts for the subject
  abbrev here : Bucket → ℕ
  here b = if b.subject_id == subject then c.of_bucket b else 0

  count-with :
      (q : Question) (a : ExamAnswer) (b : Bucket)
      → here (with_answer q a b) ≡ here b + (if b.subject_id == subject then c.of_answer a else 0)
  unfolding with_answer
  count-with q a b = elim (Bool-cases (b.subject_id == subject)) [
    | inl hit ↦ rw (hit) (c.bucket_adds q a b)
    | inr miss ↦ rw (miss) refl
  ]

  count-empty : (k : ℕ) → here (empty_bucket k) ≡ 0
  count-empty k = elim (Bool-cases (k == subject)) [
    | inl hit ↦ rw (hit) (c.bucket_starts k)
    | inr miss ↦ rw (miss) refl
  ]

  in_buckets-add_answer :
      (q : Question) (a : ExamAnswer) (bs : List Bucket)
      → in_buckets (add_answer q a bs)
        ≡ in_buckets bs + (if q.subject_id == subject then c.of_answer a else 0)
  unfolding add_answer with_answer
  in_buckets-add_answer q a [] =
      omega
        (arith, ap (λ n. n) (count-with q a (empty_bucket q.subject_id)), count-empty q.subject_id)
  in_buckets-add_answer q a (b ∷ bs) = elim (Bool-cases (b.subject_id == q.subject_id)) [
    | inl hit ↦
        let same : b.subject_id ≡ q.subject_id = ground arith in
        rw (hit) (
          omega (arith, count-with q a b, ap (λ k. if k == subject then c.of_answer a else 0) same))
    | inr miss ↦ rw (miss) (omega (arith, in_buckets-add_answer q a bs))
  ]

  in_buckets-tally :
      (ids : List ℕ) (questions : List Question) (more : List ExamAnswer) (bs : List Bucket)
      → in_buckets (tally ids questions more bs)
        ≡ in_buckets bs + count_on c subject ids questions more
  unfolding tally
  in_buckets-tally ids questions [] bs = omega arith
  in_buckets-tally ids questions (a ∷ more) bs =
      elim (Option-cases (question_for ids questions a)) [
        | inl n ↦ rw (n, tally) (omega (arith, in_buckets-tally ids questions more bs))
        | inr (q, n) ↦
            rw (n, tally)
              (omega (
                arith,
                in_buckets-tally ids questions more (add_answer q a bs),
                in_buckets-add_answer q a bs,
              ))
      ]

  find-other :
      (b : Bucket) (rows : List UserSubjectProgress)
      → (b.subject_id == subject) ≡ false
      → find?
          (is_progress user subject)
          (update_where (is_progress user b.subject_id) (merged b now) rows)
        ≡ find? (is_progress user subject) rows
  unfolding merged
  find-other b [] h = refl
  find-other b (x ∷ rows) h = ground (arith, find-other b rows h)

  shown_on-miss :
      (b : Bucket) (rows : List UserSubjectProgress)
      → (b.subject_id == subject) ≡ false
      → shown_on c user subject (merge_bucket user now b rows) ≡ shown_on c user subject rows + 0
  unfolding merge_bucket merged
  shown_on-miss b rows apart = elim (Bool-cases (any (is_progress user b.subject_id) rows)) [
    | inl old ↦ rw (old, merge_bucket) (rw (find-other b rows apart) (omega arith))
    | inr new ↦ rw (new, merge_bucket) (rw (==_refl user, apart) (omega arith))
  ]

  shown_on-merge_bucket :
      (b : Bucket) (rows : List UserSubjectProgress)
      → shown_on c user subject (merge_bucket user now b rows)
        ≡ shown_on c user subject rows + (if b.subject_id == subject then c.of_bucket b else 0)
  shown_on-merge_bucket b rows = elim (Bool-cases (b.subject_id == subject)) [
    | inl hit ↦
        let same : b.subject_id ≡ subject = ground arith in
        rw (hit) (
          subst
            (λ k.
              shown_on c user k (merge_bucket user now b rows)
              ≡ shown_on c user k rows + c.of_bucket b)
            same (shown_on-own c user now b rows))
    | inr miss ↦ rw (miss) (shown_on-miss b rows miss)
  ]

  shown_on-merge_buckets :
      (bs : List Bucket) (rows : List UserSubjectProgress)
      → shown_on c user subject (merge_buckets user now bs rows)
        ≡ shown_on c user subject rows + in_buckets bs
  unfolding merge_buckets
  shown_on-merge_buckets [] rows = omega arith
  shown_on-merge_buckets (b ∷ bs) rows = omega (
    arith,
    shown_on-merge_buckets bs (merge_bucket user now b rows),
    shown_on-merge_bucket b rows,
  )

  -- Completing an exam adds to the row of each subject what its answers say: every column that is
  -- summed grows by the sum over the answers to questions of the exam on the subject.
  pub shown_on-update :
      (ids : List ℕ) (questions : List Question) (answers : List ExamAnswer)
      (rows : List UserSubjectProgress)
      → shown_on c user subject (update_subject_progress user now ids questions answers rows)
        ≡ shown_on c user subject rows + count_on c subject ids questions answers
  unfolding update_subject_progress
  shown_on-update ids questions answers rows = omega (
    arith,
    shown_on-merge_buckets (tally ids questions answers []) rows,
    in_buckets-tally ids questions answers [],
  )

-- `questions_seen` and `questions_correct`
unfoldable pub seen : Column
unfolding merged with_answer
seen = record {
  of_row = λ p. p.questions_seen;
  of_bucket = λ b. b.seen;
  of_answer = λ a. 1;
  row_adds = λ b now p. refl;
  row_starts = λ user subject. refl;
  bucket_adds = λ q a b. refl;
  bucket_starts = λ subject. refl;
}

unfoldable pub correct : Column
unfolding merged with_answer
correct = record {
  of_row = λ p. p.questions_correct;
  of_bucket = λ b. b.correct;
  of_answer = λ a. one_if a.is_correct;
  row_adds = λ b now p. refl;
  row_starts = λ user subject. refl;
  bucket_adds = λ q a b. refl;
  bucket_starts = λ subject. refl;
}
