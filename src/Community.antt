-- ===== src/Community.antt =====
-- The columns of `users` and the table `referral_events` that streaks and referrals read and write,
-- with the XP tables that both award from. Days are numbered from 1970-01-01.
pub mod Streak
pub mod Referrals
mod Tests
use bondzi_backend.Prelude.{ℕ, Bool, Option, List, ◌==◌, find?}
use bondzi_backend.Xp.{Xp, award_xp}

pub record Learner : Type 0 where
  pub id : ℕ
  pub streak_days : ℕ
  pub longest_streak : ℕ
  pub last_study_date : Option ℕ
  pub referral_qualified : Bool

pub record ReferralEvent : Type 0 where
  pub id : ℕ
  pub referrer_id : ℕ
  pub referred_id : ℕ
  pub signup_xp_issued : Bool
  pub qualify_xp_issued : Bool
  pub qualified_at : Option ℕ

pub record Community : Type 0 where
  pub learners : List Learner
  pub events : List ReferralEvent
  pub xp : Xp

abbrev pub is_learner : ℕ → Learner → Bool
is_learner user l = l.id == user

abbrev pub learner_of : ℕ → List Learner → Option Learner
learner_of user = find? (is_learner user)

-- `awardXp(...).catch(...)`: the tables after it, whatever it answered
abbrev pub award_or_ignore : ℕ → ℕ → Option ℕ → ℕ → ℕ → Xp → Xp
award_or_ignore user event reference day month s = (award_xp user event reference day month s).1
