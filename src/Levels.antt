-- ===== src/Levels.antt =====
-- src/modules/gamification/level.util.ts: the level that a total of XP reaches.
pub mod Bounds
mod Tests
use bondzi_backend.Prelude.{
  ℕ, zero, suc, ◌+◌, ◌-◌, ◌*◌, List, [], ◌∷◌, ltb, leb, if◌then◌else◌, get_or,
}

-- BASE_THRESHOLDS
abbrev pub base_thresholds : List ℕ
base_thresholds = 0 ∷ 100 ∷ 250 ∷ 500 ∷ 800 ∷ 1200 ∷ 1700 ∷ 2300 ∷ 3000 ∷ 4000 ∷ []

pub threshold_for_level : ℕ → ℕ
threshold_for_level level =
    if ltb level 1
    then 0
    else if leb level 10
    then get_or base_thresholds (level - 1) 0
    else 4000 + 1000 * (level - 10)

-- the `while` of `levelForXp`, with fuel
pub climb : ℕ → ℕ → ℕ → ℕ
unfolding threshold_for_level
climb zero level_xp lvl = lvl
climb (suc fuel) level_xp lvl =
    let next = climb fuel level_xp (lvl + 1) in
    if leb (threshold_for_level (lvl + 1)) level_xp then next else lvl

-- The thresholds grow by 100 at least, so a round for each point of XP is more than enough.
unfoldable pub level_for_xp : ℕ → ℕ
unfolding climb
level_for_xp level_xp = climb (level_xp + 1) level_xp 1

unfoldable pub xp_to_next_level : ℕ → ℕ
unfolding threshold_for_level
xp_to_next_level level = threshold_for_level (level + 1) - threshold_for_level level

unfoldable pub xp_into_level : ℕ → ℕ
unfolding threshold_for_level level_for_xp
xp_into_level level_xp = level_xp - threshold_for_level (level_for_xp level_xp)
