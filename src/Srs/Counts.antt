-- ===== src/Srs/Counts.antt =====
-- The counts of `stats`.
use bondzi_backend.Prelude.{ℕ, ◌≤◌, ◌≡◌, Bool, true, List, [], ◌∷◌, ◌==◌, count_if, arith}
use bondzi_backend.Srs.{SrsCard, Store, due_by, stats}

-- A count by a weaker test is no smaller.
count_if-le :
    (p q : SrsCard → Bool) (xs : List SrsCard)
    → ((c : SrsCard) → p c ≡ true → q c ≡ true)
    → count_if p xs ≤ count_if q xs
count_if-le p q [] h = omega arith
count_if-le p q (c ∷ xs) h = ground (arith, count_if-le p q xs h, h c)

-- What is overdue is due today, and what is due today is a card of the user, as long as the day
-- does not end before it starts; so the three counts are in order.
stats_ordered :
    (user start end : ℕ) (s : Store)
    → start ≤ end
    → ((stats user start end s).overdue ≤ (stats user start end s).due_today)
      × ((stats user start end s).due_today ≤ (stats user start end s).total)
unfolding stats
stats_ordered user start end s h = (
  count_if-le (due_by user start) (due_by user end) s.cards (λ c e. ground arith),
  count_if-le (due_by user end) (λ c. c.user_id == user) s.cards (λ c e. ground arith),
)
