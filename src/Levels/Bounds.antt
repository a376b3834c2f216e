-- ===== src/Levels/Bounds.antt =====
-- The thresholds and the loop of level.util.ts.
use bondzi_backend.Prelude.{
  ℕ, zero, suc, ◌+◌, ◌-◌, ◌*◌, ◌≤◌, ◌<◌, ◌≡◌, inl, inr, leb, arith, Bool-cases, leb→le, lt_of_leb,
}
use native.Mathlib.Numerals.{add-one}
use native.Mathlib.Nat.{zero-add}
use native.Mathlib.Decide.{dec_le}
use bondzi_backend.Levels.{
  threshold_for_level, climb, level_for_xp, xp_to_next_level, xp_into_level,
}

-- Each level costs at least 100 XP more than the one below.
pub threshold_for_level-step :
    (l : ℕ) → threshold_for_level (suc l) + 100 ≤ threshold_for_level (suc (suc l))
unfolding threshold_for_level
threshold_for_level-step zero = omega arith
threshold_for_level-step (suc zero) = omega arith
threshold_for_level-step (suc (suc zero)) = omega arith
threshold_for_level-step (suc (suc (suc zero))) = omega arith
threshold_for_level-step (suc (suc (suc (suc zero)))) = omega arith
threshold_for_level-step (suc (suc (suc (suc (suc zero))))) = omega arith
threshold_for_level-step (suc (suc (suc (suc (suc (suc zero)))))) = omega arith
threshold_for_level-step (suc (suc (suc (suc (suc (suc (suc zero))))))) = omega arith
threshold_for_level-step (suc (suc (suc (suc (suc (suc (suc (suc zero)))))))) = omega arith
threshold_for_level-step (suc (suc (suc (suc (suc (suc (suc (suc (suc n))))))))) = ground arith

pub threshold_for_level-add_one :
    (l : ℕ) → 1 ≤ l → threshold_for_level l + 100 ≤ threshold_for_level (l + 1)
threshold_for_level-add_one zero h = absurd (omega arith)
threshold_for_level-add_one (suc l) h = rw add-one (threshold_for_level-step l)

threshold_for_level-add :
    (d l : ℕ) → 1 ≤ l → threshold_for_level l + 100 * d ≤ threshold_for_level (d + l)
threshold_for_level-add zero l h = rw zero-add (omega arith)
threshold_for_level-add (suc d) l h =
    let one_up : threshold_for_level (d + l) + 100 ≤ threshold_for_level ((d + l) + 1) =
      threshold_for_level-add_one (d + l) (omega arith) in
    let same : suc d + l ≡ (d + l) + 1 = omega arith in
    rw same (omega (arith, threshold_for_level-add d l h))

-- A higher level starts at a higher total.
pub threshold_for_level_mono :
    (l m : ℕ) → 1 ≤ l → l < m → threshold_for_level l < threshold_for_level m
threshold_for_level_mono l m h lt =
    let same : m ≡ (m - l) + l = omega arith in
    rw same (omega (arith, threshold_for_level-add (m - l) l h))

-- The level `l` is the one that `xp` has reached.
pub record IsLevelOf (xp l : ℕ) : Type 0 where
  pub positive : 1 ≤ l
  pub reached : threshold_for_level l ≤ xp
  pub not_next : xp < threshold_for_level (l + 1)

climb-IsLevelOf :
    (fuel xp l : ℕ)
    → 1 ≤ l
    → threshold_for_level l ≤ xp
    → xp < threshold_for_level l + fuel
    → IsLevelOf xp (climb fuel xp l)
unfolding climb
climb-IsLevelOf zero xp l p r enough = absurd (omega arith)
climb-IsLevelOf (suc fuel) xp l p r enough =
    elim (Bool-cases (leb (threshold_for_level (l + 1)) xp)) [
      | inl more ↦
          let up = threshold_for_level-add_one l p in
          let there = leb→le _ _ more in
          rw more (climb-IsLevelOf fuel xp (l + 1) (omega arith) there (omega arith))
      | inr last ↦ rw last (record { positive = p; reached = r; not_next = lt_of_leb _ _ last })
    ]

-- The loop ends by its test: the level found is reached and the next one is not.
pub level_for_xp-IsLevelOf : (xp : ℕ) → IsLevelOf xp (level_for_xp xp)
unfolding level_for_xp threshold_for_level
level_for_xp-IsLevelOf xp = climb-IsLevelOf (xp + 1) xp 1 (omega arith) (omega arith) (omega arith)

level-le : (xp yp l m : ℕ) → IsLevelOf xp l → IsLevelOf yp m → xp ≤ yp → l ≤ m
level-le xp yp l m a b h = elim (dec_le l m) [
  | yes le ↦ le
  | no gt ↦ absurd (elim (dec_le l (m + 1)) [
    | yes same ↦
        let e : l ≡ m + 1 = omega arith in
        let r : threshold_for_level (m + 1) ≤ xp = rw e at a.reached in omega (arith, b.not_next)
    | no above ↦ omega (
      arith,
      a.reached,
      b.not_next,
      threshold_for_level_mono (m + 1) l (omega arith) (omega arith),
    )
  ])
]

-- two levels that enclose the same XP
level_for_xp_unique : (xp l : ℕ) → IsLevelOf xp l → l ≡ level_for_xp xp
level_for_xp_unique xp l h =
    let found = level_for_xp-IsLevelOf xp in
    omega (
      arith,
      level-le xp xp l (level_for_xp xp) h found (omega arith),
      level-le xp xp (level_for_xp xp) l found h (omega arith),
    )

-- more XP, no lower level
pub level_for_xp_mono : (xp yp : ℕ) → xp ≤ yp → level_for_xp xp ≤ level_for_xp yp
level_for_xp_mono xp yp h =
    level-le xp yp _ _ (level_for_xp-IsLevelOf xp) (level_for_xp-IsLevelOf yp) h

-- the progress bar
xp_into_level-lt :
    (xp : ℕ)
    → (xp_into_level xp < xp_to_next_level (level_for_xp xp))
      × (threshold_for_level (level_for_xp xp) + xp_into_level xp ≡ xp)
unfolding xp_into_level xp_to_next_level
xp_into_level-lt xp =
    let open_level = level_for_xp-IsLevelOf xp in
    (omega (arith, open_level.reached, open_level.not_next), omega (arith, open_level.reached))
