-- ===== src/Community/Streak/Once.antt =====
-- Concurrent calls on one day.
use bondzi_backend.Prelude.{
  ℕ, ◌≡◌, refl, false, List, [], ◌∷◌, inl, inr, any, update_where, Bool-cases, arith,
}
use bondzi_backend.Community.{Learner, Community}
use bondzi_backend.Community.Streak.{unchanged, is_behind, studied, bump_streak}

module _ (user today : ℕ) where
  none-behind :
      (days longest : ℕ) (rows : List Learner)
      → any
          (is_behind user today)
          (update_where (is_behind user today) (studied days longest today) rows)
        ≡ false
  none-behind days longest [] = refl
  none-behind days longest (x ∷ rows) = ground (arith, none-behind days longest rows)

  -- Of two calls on one day, whatever row each of them read before, the one that updates second
  -- changes nothing: the day counts once and its XP is awarded once.
  bump_streak_again :
      (u v : Learner) (month later : ℕ) (c : Community)
      → bump_streak user v today later (bump_streak user u today month c).1
        ≡ (unchanged v, (bump_streak user u today month c).1)
  unfolding bump_streak
  bump_streak_again u v month later c = elim (Bool-cases (any (is_behind user today) c.learners)) [
    | inl behind ↦ rw (behind, bump_streak) (rw (none-behind _ _ c.learners, bump_streak) refl)
    | inr done ↦ rw (done, bump_streak) (rw (done, bump_streak) refl)
  ]
