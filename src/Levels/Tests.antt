-- ===== src/Levels/Tests.antt =====
-- Runs of level.util.ts, and its theorems at concrete totals.
use bondzi_backend.Prelude.{◌≡◌, refl}
use bondzi_backend.Levels.{level_for_xp, xp_to_next_level, xp_into_level}
use bondzi_backend.Levels.Bounds.{IsLevelOf, level_for_xp-IsLevelOf}

level_of_1300 : (level_for_xp 1300 ≡ 6) × (xp_into_level 1300 ≡ 100) × (xp_to_next_level 6 ≡ 500)
unfolding level_for_xp xp_into_level xp_to_next_level
level_of_1300 = (refl, refl, refl)

level_for_xp-IsLevelOf_example : IsLevelOf 1300 (level_for_xp 1300)
level_for_xp-IsLevelOf_example = level_for_xp-IsLevelOf 1300
