-- ===== src/Community/Streak/Run.antt =====
-- The columns of the streak as a summary of the days on which a user studied.
use bondzi_backend.Prelude.{
  ℕ, ◌+◌, ◌≤◌, ◌≡◌, refl, sym, ◌∙◌, true, false, Option, none, some, List, [], ◌∷◌, inl, inr, ◌==◌,
  if◌then◌else◌, holds_id, max, any, update_where, Bool-cases, arith,
}
use bondzi_backend.Community.{Learner, Community, learner_of}
use bondzi_backend.Community.Streak.{is_behind, studied, next_streak, bump_streak, record_study_day}

-- the abstract view: the days of the calls, the latest first

abbrev pub last_day : List ℕ → Option ℕ
last_day [] = none
last_day (d ∷ days) = some d

-- how many consecutive days end with the last one
unfoldable pub run_of : List ℕ → ℕ
run_of [] = 0
run_of (d ∷ []) = 1
run_of (d ∷ e ∷ days) =
    let before = run_of (e ∷ days) in
    if d == e then before else if d == e + 1 then before + 1 else 1

-- the longest run that ever was
unfoldable pub longest_run : List ℕ → ℕ
longest_run [] = 0
longest_run (d ∷ days) = max (longest_run days) (run_of (d ∷ days))

-- the row of the user, and that it summarises the days
pub record Summarises (user : ℕ) (days : List ℕ) (c : Community) : Type 0 where
  pub row : Learner
  pub found : learner_of user c.learners ≡ some row
  pub streak : row.streak_days ≡ run_of days
  pub longest : row.longest_streak ≡ longest_run days
  pub last : row.last_study_date ≡ last_day days

-- a user who has not studied, and calls on any days after that
pub data Studies (user : ℕ) : List ℕ → Community → Type 0 where
  fresh :
      {c : Community} (u : Learner)
      → learner_of user c.learners ≡ some u
      → u.streak_days ≡ 0
      → u.longest_streak ≡ 0
      → u.last_study_date ≡ none
      → Studies user [] c
  on :
      {days : List ℕ} {c : Community} (today month : ℕ)
      → Studies user days c
      → Studies user (today ∷ days) (record_study_day user today month c).1

module _ (user today : ℕ) where
  found-studied :
      (days longest : ℕ) (u : Learner) (rows : List Learner)
      → learner_of user rows ≡ some u
      → holds_id u.last_study_date today ≡ false
      → (any (is_behind user today) rows ≡ true)
        × (learner_of user (update_where (is_behind user today) (studied days longest today) rows)
            ≡ some (studied days longest today u))
  found-studied days longest u [] e h = cc
  found-studied days longest u (x ∷ rows) e h = elim (Bool-cases (x.id == user)) [
    | inl hit ↦
        let same : x ≡ u = ground arith in
        let behind : holds_id x.last_study_date today ≡ false = rw (same) h in
        rw (hit, behind, hit) (refl, rw (same) refl)
    | inr miss ↦
        let below = found-studied days longest u rows (rw (miss) at e) h in rw (miss, miss) below
  ]

  run-le-longest : (days : List ℕ) → run_of days ≤ longest_run days
  unfolding run_of longest_run
  run-le-longest [] = omega arith
  run-le-longest (d ∷ days) = omega arith

  -- a second call on the last day
  run-same :
      (days : List ℕ) → holds_id (last_day days) today ≡ true → run_of (today ∷ days) ≡ run_of days
  unfolding run_of
  run-same [] h = cc
  run-same (d ∷ days) h = ground arith

  longest-same :
      (days : List ℕ)
      → holds_id (last_day days) today ≡ true
      → longest_run (today ∷ days) ≡ longest_run days
  unfolding longest_run
  longest-same days h = omega (arith, run-same days h, run-le-longest days)

  next-run :
      (days : List ℕ) (u : Learner)
      → u.streak_days ≡ run_of days
      → u.last_study_date ≡ last_day days
      → holds_id (last_day days) today ≡ false
      → next_streak u today ≡ run_of (today ∷ days)
  unfolding run_of next_streak
  next-run [] u streak last h = rw (last, next_streak) refl
  next-run (d ∷ days) u streak last h = rw (last, next_streak) (ground (arith, streak))

  module _ (month : ℕ) (days : List ℕ) (c : Community) (s : Summarises user days c) where
    bumped_row : Learner
    bumped_row =
        studied (next_streak s.row today) (max s.row.longest_streak (next_streak s.row today)) today
          s.row

    again-Summarises : holds_id (last_day days) today ≡ true → Summarises user (today ∷ days) c
    again-Summarises h = record {
      row = s.row;
      found = s.found;
      streak = s.streak ∙ sym (run-same days h);
      longest = s.longest ∙ sym (longest-same days h);
      last = s.last ∙ ground arith;
    }

    bump-Summarises :
        holds_id (last_day days) today ≡ false
        → Summarises user (today ∷ days) (bump_streak user s.row today month c).1
    unfolding bump_streak bumped_row longest_run
    bump-Summarises h =
        let apart : holds_id s.row.last_study_date today ≡ false = rw (s.last) h in
        let (behind, found) = found-studied _ _ s.row c.learners s.found apart in
        let next = next-run days s.row s.streak s.last h in
        rw (behind, bump_streak)
          (record {
            row = bumped_row;
            found = found;
            streak = next;
            longest = omega (arith, next, s.longest);
            last = refl;
          })

    day-Summarises : Summarises user (today ∷ days) (record_study_day user today month c).1
    unfolding record_study_day
    day-Summarises = elim (Bool-cases (holds_id s.row.last_study_date today)) [
      | inl h ↦ rw (s.found, record_study_day, h) (again-Summarises (rw (s.last) at h))
      | inr h ↦ rw (s.found, record_study_day, h) (bump-Summarises (rw (s.last) at h))
    ]

-- The streak columns summarise the days of study: after calls on any days by a user who had not
-- studied before, the row of the user shows the number of consecutive days that end with the last
-- one, the longest such run that ever was, and the last day, however often a day came again.
pub Studies-Summarises :
    (user : ℕ) {days : List ℕ} {c : Community} → Studies user days c → Summarises user days c
unfolding run_of longest_run
Studies-Summarises user {c = c} (fresh u found streak longest last) = record {
  row = u;
  found = found;
  streak = streak;
  longest = longest;
  last = last;
}
Studies-Summarises user (on {days} {c} today month r) =
    day-Summarises user today month days c (Studies-Summarises user r)
