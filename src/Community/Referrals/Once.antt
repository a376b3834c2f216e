-- ===== src/Community/Referrals/Once.antt =====
-- Concurrent qualifications of one referral.
use bondzi_backend.Prelude.{
  ℕ, ◌≡◌, refl, true, false, List, [], ◌∷◌, inl, inr, find?, update_where, Bool-cases, arith,
}
use bondzi_backend.Community.{ReferralEvent, Community}
use bondzi_backend.Community.Referrals.{has_id, qualified, is_spent, qualify}

spent-qualified :
    (id now : ℕ) (rows : List ReferralEvent)
    → is_spent (find? (has_id id) (update_where (has_id id) (qualified now) rows)) ≡ true
spent-qualified id now [] = refl
spent-qualified id now (x ∷ rows) = ground (arith, spent-qualified id now rows)

-- Of two calls that both read the referral before it was qualified and both saw enough answers,
-- the one that locks second changes nothing and answers false: the referrer is paid once.
qualify_again :
    (user now day month now' day' month' : ℕ) (event : ReferralEvent) (c : Community)
    → qualify user event now' day' month' (qualify user event now day month c).1
      ≡ (false, (qualify user event now day month c).1)
unfolding qualify
qualify_again user now day month now' day' month' event c =
    elim (Bool-cases (is_spent (find? (has_id event.id) c.events))) [
      | inl spent ↦ rw (spent, qualify) (rw (spent, qualify) refl)
      | inr waits ↦ rw (waits, qualify) (rw (spent-qualified event.id now c.events, qualify) refl)
    ]
