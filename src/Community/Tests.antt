-- ===== src/Community/Tests.antt =====
-- The theorems of streaks and referrals at concrete tables.
use bondzi_backend.Prelude.{◌≡◌, refl, true, false, none, [], ◌∷◌}
use bondzi_backend.Community.{Learner, ReferralEvent, Community}
use bondzi_backend.Community.Streak.{record_study_day}
use bondzi_backend.Community.Streak.Run.{
  run_of, longest_run, Summarises, Studies, fresh, on, Studies-Summarises,
}

abbrev beginner : Learner
beginner = record {
  id = 1;
  streak_days = 0;
  longest_streak = 0;
  last_study_date = none;
  referral_qualified = false;
}

abbrev invitation : ReferralEvent
invitation = record {
  id = 50;
  referrer_id = 2;
  referred_id = 1;
  signup_xp_issued = true;
  qualify_xp_issued = false;
  qualified_at = none;
}

abbrev club : Community
club = record {
  learners = beginner ∷ [];
  events = invitation ∷ [];
  xp = record { users = []; transactions = []; rates = []; board = []; counts = [] };
}

-- three days in a row, the last of them twice, and one after a gap
abbrev later_club : Community
later_club =
    (record_study_day 1 9 0
      (record_study_day 1 7 0
        (record_study_day 1 7 0 (record_study_day 1 6 0 (record_study_day 1 5 0 club).1).1).1).1).1

five_days : Studies 1 (9 ∷ 7 ∷ 7 ∷ 6 ∷ 5 ∷ []) later_club
five_days = on 9 0 (on 7 0 (on 7 0 (on 6 0 (on 5 0 (fresh beginner refl refl refl refl)))))

Studies-Summarises_example : Summarises 1 (9 ∷ 7 ∷ 7 ∷ 6 ∷ 5 ∷ []) later_club
Studies-Summarises_example = Studies-Summarises 1 five_days

last_run : run_of (9 ∷ 7 ∷ 7 ∷ 6 ∷ 5 ∷ []) ≡ 1
unfolding run_of
last_run = refl

best_run : longest_run (9 ∷ 7 ∷ 7 ∷ 6 ∷ 5 ∷ []) ≡ 3
unfolding longest_run run_of
best_run = refl
