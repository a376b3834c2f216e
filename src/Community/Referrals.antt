-- ===== src/Community/Referrals.antt =====
-- issueSignupRewards, checkQualification and statsForUser of
-- src/modules/referrals/referrals.service.ts. A call reads its event first and works on it later, so
-- the event that was read is an argument of the second half. Pushes and e-mails are left out.
pub mod Once
use bondzi_backend.Prelude.{
  ℕ, ◌-◌, Bool, true, false, not, ◌&&◌, Option, none, some, ltb, ◌==◌, if◌then◌else◌, find?,
  count_if, update_where, Result, ok, err,
}
use bondzi_backend.Xp.{Xp, award_xp}
use bondzi_backend.Community.{Learner, ReferralEvent, Community, is_learner}

-- the event keys are texts, which the code only compares
abbrev pub referral_referred : ℕ
referral_referred = 31

abbrev pub referral_new_user : ℕ
referral_new_user = 32

abbrev pub referral_qualified_key : ℕ
referral_qualified_key = 33

-- QUALIFY_THRESHOLD
abbrev pub qualify_threshold : ℕ
qualify_threshold = 10

abbrev pub has_id : ℕ → ReferralEvent → Bool
has_id id e = e.id == id

abbrev pub awaits_signup : ℕ → ReferralEvent → Bool
awaits_signup user e = e.referred_id == user && not e.signup_xp_issued

abbrev pub awaits_qualification : ℕ → ReferralEvent → Bool
awaits_qualification user e = e.referred_id == user && not e.qualify_xp_issued

abbrev pub signed_up : ReferralEvent → ReferralEvent
signed_up e = record e { signup_xp_issued = true }

-- the two awards for the event that was read; the first that throws ends the call
unfoldable pub reward_signup : ReferralEvent → ℕ → ℕ → Community → Community
reward_signup event day month c =
    let (r, s) = award_xp event.referrer_id referral_referred (some event.id) day month c.xp in
    elim r [
      | err e ↦ record c { xp = s }
      | ok done ↦
          let (r', s') = award_xp event.referred_id referral_new_user (some event.id) day month s in
          elim r' [
            | err e ↦ record c { xp = s' }
            | ok done' ↦ record c {
              events = update_where (has_id event.id) signed_up c.events;
              xp = s';
            }
          ]
    ]

-- `issueSignupRewards`
unfoldable pub issue_signup_rewards : ℕ → ℕ → ℕ → Community → Community
issue_signup_rewards user day month c = elim (find? (awaits_signup user) c.events) [
  | none ↦ c
  | some event ↦ reward_signup event day month c
]

abbrev pub qualified : ℕ → ReferralEvent → ReferralEvent
qualified now e = record e { qualify_xp_issued = true; qualified_at = some now }

abbrev pub qualified_learner : Learner → Learner
qualified_learner l = record l { referral_qualified = true }

-- the row under the lock: gone, or already qualified
abbrev pub is_spent : Option ReferralEvent → Bool
is_spent none = true
is_spent (some e) = e.qualify_xp_issued

-- the half after the count: the transaction under the lock, then the award
unfoldable pub qualify : ℕ → ReferralEvent → ℕ → ℕ → ℕ → Community → Bool × Community
qualify user event now day month c =
    if is_spent (find? (has_id event.id) c.events)
    then (false, c)
    else let (r, s) =
        award_xp event.referrer_id referral_qualified_key (some event.id) day month c.xp in
      (
        elim r [ ok done ↦ true | err e ↦ false ],
        record {
          learners = update_where (is_learner user) qualified_learner c.learners;
          events = update_where (has_id event.id) (qualified now) c.events;
          xp = s;
        },
      )

-- `checkQualification`; `answered` is the count of the user's exam answers
unfoldable pub check_qualification : ℕ → ℕ → ℕ → ℕ → ℕ → Community → Bool × Community
check_qualification user answered now day month c =
    elim (find? (awaits_qualification user) c.events) [
      | none ↦ (false, c)
      | some event ↦
          if ltb answered qualify_threshold then (false, c) else qualify user event now day month c
    ]

pub record ReferralStats : Type 0 where
  pub referred_count : ℕ
  pub qualified_count : ℕ
  pub pending_count : ℕ

-- the counts of `statsForUser`
unfoldable pub stats_for_user : ℕ → Community → ReferralStats
stats_for_user user c =
    let referred = count_if (λ e. e.referrer_id == user) c.events in
    let done = count_if (λ e. e.referrer_id == user && e.qualify_xp_issued) c.events in
    record { referred_count = referred; qualified_count = done; pending_count = referred - done }
