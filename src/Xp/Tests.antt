-- ===== src/Xp/Tests.antt =====
-- An award at concrete tables.
use bondzi_backend.Prelude.{◌≡◌, refl, true, none, [], ◌∷◌, ok}
use bondzi_backend.Enums.{wassce}
use bondzi_backend.Levels.{level_for_xp}
use bondzi_backend.Xp.{
  User, Xp, AwardXpResult, transaction_of, award_xp_amount, weekly_period_start,
}
use bondzi_backend.Xp.Ledger.{IsLedger, Reports}
use bondzi_backend.Xp.Award.{award_xp_amount_refines}

abbrev student : User
student = record { id = 1; exam_type = wassce; level_xp = 90; spendable_xp = 40; current_level = 1 }

abbrev club : Xp
club = record {
  users = student ∷ [];
  transactions =
      transaction_of 1 5 60 none ∷ transaction_of 2 5 7 none ∷ transaction_of 1 5 30 none ∷ [];
  rates = record { event_key = 5; xp_amount = 30; is_active = true } ∷ [];
  board = [];
  counts = [];
}

club-IsLedger : IsLedger club
unfolding level_for_xp
club-IsLedger = ((refl, refl), tt)

award_xp_amount_refines_example :
    (r : AwardXpResult) × (t : Xp) × (award_xp_amount 1 0 5 none 20000 19997 club ≡ (ok r, t))
    × IsLedger t
    × Reports 1 club t r
award_xp_amount_refines_example =
    award_xp_amount_refines 1 0 5 none 20000 19997 student club refl club-IsLedger

-- 2024-10-04 was a Friday, and its week began on the last day of September
week_of_friday : weekly_period_start 20000 ≡ 19996
week_of_friday = refl
