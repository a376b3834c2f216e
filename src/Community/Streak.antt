-- ===== src/Community/Streak.antt =====
-- src/modules/gamification/streak.service.ts. A call reads the row of the user and then updates it
-- under a condition, so what it read is an argument of the second half.
pub mod Once
pub mod Run
use bondzi_backend.Prelude.{
  ℕ, ◌+◌, Bool, true, false, not, ◌&&◌, Option, none, some, ◌==◌, if◌then◌else◌, holds_id, any, max,
  update_where,
}
use bondzi_backend.Xp.{Xp}
use bondzi_backend.Community.{Learner, Community, learner_of, award_or_ignore}

pub record RecordStudyDayResult : Type 0 where
  pub streak_days : ℕ
  pub longest_streak : ℕ
  pub changed : Bool
  pub milestone_awarded : Option ℕ

-- the event keys are texts, which the code only compares
abbrev pub streak_day : ℕ
streak_day = 20

-- MILESTONES
unfoldable pub milestone : ℕ → Option ℕ
milestone days =
    if days == 7
    then some 21
    else if days == 14
    then some 22
    else if days == 30
    then some 23
    else if days == 50
    then some 24
    else if days == 100
    then some 25
    else none

-- `last && accraDaysBetween(today, last) === 1 ? user.streakDays + 1 : 1`
unfoldable pub next_streak : Learner → ℕ → ℕ
next_streak u today = elim u.last_study_date [
  | none ↦ 1
  | some last ↦ if today == last + 1 then u.streak_days + 1 else 1
]

abbrev pub unchanged : Learner → RecordStudyDayResult
unchanged u = record {
  streak_days = u.streak_days;
  longest_streak = u.longest_streak;
  changed = false;
  milestone_awarded = none;
}

-- `id = :id AND (last_study_date is null or last_study_date <> :today)`
abbrev pub is_behind : ℕ → ℕ → Learner → Bool
is_behind user today l = l.id == user && not (holds_id l.last_study_date today)

abbrev pub studied : ℕ → ℕ → ℕ → Learner → Learner
studied days longest today l = record l {
  streak_days = days;
  longest_streak = longest;
  last_study_date = some today;
}

-- the XP of the day and of the milestone; neither failure stops the call
unfoldable pub streak_xp : ℕ → ℕ → ℕ → ℕ → Xp → Xp
streak_xp user days today month s =
    let t = award_or_ignore user streak_day none today month s in
    elim (milestone days) [ none ↦ t | some event ↦ award_or_ignore user event none today month t ]

-- the half after `last === today` was refuted on the row `u` that was read
unfoldable pub bump_streak : ℕ → Learner → ℕ → ℕ → Community → RecordStudyDayResult × Community
bump_streak user u today month c =
    let days = next_streak u today in
    let longest = max u.longest_streak days in
    if any (is_behind user today) c.learners
    then (
      record {
        streak_days = days;
        longest_streak = longest;
        changed = true;
        milestone_awarded = elim (milestone days) [ none ↦ none | some event ↦ some days ];
      },
      record c {
        learners = update_where (is_behind user today) (studied days longest today) c.learners;
        xp = streak_xp user days today month c.xp;
      },
    )
    else (unchanged u, c)

-- `recordStudyDay`
unfoldable pub record_study_day : ℕ → ℕ → ℕ → Community → RecordStudyDayResult × Community
record_study_day user today month c = elim (learner_of user c.learners) [
  | none ↦
      (record { streak_days = 0; longest_streak = 0; changed = false; milestone_awarded = none }, c)
  | some u ↦
      if holds_id u.last_study_date today
      then (unchanged u, c)
      else bump_streak user u today month c
]
