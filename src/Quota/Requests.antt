-- ===== src/Quota/Requests.antt =====
-- One request at a time: who gets through, and what is left on the counter.
use bondzi_backend.Prelude.{
  ℕ, ◌+◌, ◌<◌, ◌≡◌, ◌↔◌, true, Option, none, some, List, Result, ok, err, too_many_requests, arith,
}
use bondzi_backend.Enums.{ExamType, AccountType}
use bondzi_backend.Quota.{
  Key, Usage, TierService, Student, used, increment, consume, admit, assert_and_consume,
  snapshot_entry, remaining_of,
}
use bondzi_backend.Quota.Counter.{same_key_refl, used-increment, used-decrement}

-- the cap leaves room for one more
abbrev pub RoomFor : Option ℕ → ℕ → Type 0
RoomFor none n = Unit
RoomFor (some cap) n = n < cap

consume_self : (k : Key) (rows : List Usage) → used k (increment k rows) ≡ used k rows + 1
consume_self k rows = rw (used-increment, same_key_refl k)

-- Below the cap, or without one, the request passes, is told the new count, and the counter is up
-- by one.
consume_room :
    (cap : Option ℕ) (k : Key) (rows : List Usage)
    → RoomFor cap (used k rows)
    → (consume cap k rows ≡ (ok (used k rows + 1), increment k rows))
      × (used k (consume cap k rows).1 ≡ used k rows + 1)
unfolding consume
consume_room none k rows room = (ground (arith, consume_self k rows), consume_self k rows)
consume_room (some cap) k rows room =
    (ground (arith, consume_self k rows), ground (arith, consume_self k rows))

-- At the cap the request gets 429, and every counter is as it was.
consume_full :
    (cap : Option ℕ) (j k : Key) (rows : List Usage)
    → ¬ RoomFor cap (used k rows)
    → ((consume cap k rows).0 ≡ err too_many_requests)
      × (used j (consume cap k rows).1 ≡ used j rows)
unfolding consume
consume_full none j k rows full = absurd (full tt)
consume_full (some cap) j k rows full = (
  ground (arith, consume_self k rows),
  ground
      (arith, consume_self k rows, used-increment j k rows, used-decrement j k (increment k rows)),
)

abbrev pub IsOk {ℓ} : {A : Type ℓ} → Result A → Type 0
IsOk (ok a) = Unit
IsOk (err e) = ⊥

-- a snapshot that shows no counter, or one that is not at zero
abbrev pub ShowsRoom : Option ℕ → Type 0
ShowsRoom none = Unit
ShowsRoom (some left) = 0 < left

consume-IsOk :
    (cap : Option ℕ) (k : Key) (rows : List Usage)
    → IsOk (consume cap k rows).0 ↔ ShowsRoom (remaining_of true cap (used k rows))
unfolding consume
consume-IsOk none k rows = (λ h. tt, λ h. tt)
consume-IsOk (some cap) k rows =
    (λ h. ground (arith, consume_self k rows), λ h. ground (arith, consume_self k rows))

assert_admitted :
    (tier_of : ℕ → ExamType → Option AccountType) (user service today : ℕ) (students : List Student)
    (matrix : List TierService) (rows : List Usage) (policy : TierService)
    → admit tier_of user service students matrix ≡ ok policy
    → assert_and_consume tier_of user service today students matrix rows
      ≡ consume policy.daily_cap (record { user_id = user; service = service; day = today }) rows
unfolding assert_and_consume
assert_admitted tier_of user service today students matrix rows policy admitted =
    rw (admitted, assert_and_consume)

-- For a policy that lets the student in, the snapshot's `remaining` says exactly whether the next
-- request of that service passes: it does when there is no cap or something remains.
pub snapshot_predicts :
    (tier_of : ℕ → ExamType → Option AccountType) (user today : ℕ) (students : List Student)
    (matrix : List TierService) (rows : List Usage) (policy : TierService)
    → policy.enabled ≡ true
    → admit tier_of user policy.service students matrix ≡ ok policy
    → IsOk (assert_and_consume tier_of user policy.service today students matrix rows).0
      ↔ ShowsRoom (snapshot_entry user today rows policy).remaining
unfolding snapshot_entry
snapshot_predicts tier_of user today students matrix rows policy on admitted =
    rw (assert_admitted tier_of user policy.service today students matrix rows policy admitted, on)
      (consume-IsOk policy.daily_cap _ rows)
