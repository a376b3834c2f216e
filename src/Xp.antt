-- ===== src/Xp.antt =====
-- src/modules/gamification/gamification.service.ts: the XP ledger, the totals of a user and the
-- leaderboard. Days are numbered from 1970-01-01; the first day of the month is an argument. Pushes
-- and e-mails after a level-up are left out, and Redis is taken to answer.
pub mod Ledger
pub mod Award
pub mod Redeem
mod Tests
use bondzi_backend.Prelude.{
  ℕ, ◌+◌, ◌-◌, ◌%◌, Bool, true, false, ◌&&◌, ◌||◌, Option, none, some, List, [], ◌∷◌, ltb, ◌==◌,
  if◌then◌else◌, find?, any, update_where, internal, Result, ok, err,
}
use bondzi_backend.Enums.{ExamType, LeaderboardPeriodType, weekly, monthly, level_eq, period_eq}
use bondzi_backend.Levels.{level_for_xp, xp_to_next_level, xp_into_level}

pub record User : Type 0 where
  pub id : ℕ
  pub exam_type : ExamType
  pub level_xp : ℕ
  pub spendable_xp : ℕ
  pub current_level : ℕ

-- a signed number: an award adds, a redemption takes away
pub data XpChange : Type 0 where
  gain spend : ℕ → XpChange

pub record XpTransaction : Type 0 where
  pub user_id : ℕ
  pub event_key : ℕ
  pub level_xp : ℕ
  pub spendable_xp : XpChange
  pub reference_id : Option ℕ

pub record XpRate : Type 0 where
  pub event_key : ℕ
  pub xp_amount : ℕ
  pub is_active : Bool

pub record LeaderboardEntry : Type 0 where
  pub user_id : ℕ
  pub exam_type : ExamType
  pub period_type : LeaderboardPeriodType
  pub period_start : ℕ
  pub weekly_xp : ℕ

-- the Redis counter `xp_event_cap:user:event:day`, which outlives its day
pub record EventCount : Type 0 where
  pub user_id : ℕ
  pub event_key : ℕ
  pub day : ℕ
  pub count : ℕ

pub record Xp : Type 0 where
  pub users : List User
  pub transactions : List XpTransaction
  pub rates : List XpRate
  pub board : List LeaderboardEntry
  pub counts : List EventCount

pub record AwardXpResult : Type 0 where
  pub awarded : Bool
  pub event_key : ℕ
  pub xp_amount : ℕ
  pub level_xp : ℕ
  pub spendable_xp : ℕ
  pub current_level : ℕ
  pub into_level : ℕ
  pub to_next_level : ℕ
  pub leveled_up : Bool
  pub new_level : Option ℕ

-- EVENT_KEY_DAILY_CAP
abbrev pub event_key_daily_cap : ℕ
event_key_daily_cap = 500

-- `weeklyPeriodStart`: the Monday of the week; day 0 was a Thursday, which `getUTCDay` numbers 4
abbrev pub weekly_period_start : ℕ → ℕ
weekly_period_start day =
    let week_day = (day + 4) % 7 in day - (if week_day == 0 then 6 else week_day - 1)

abbrev pub user_of : ℕ → List User → Option User
user_of user = find? (λ u. u.id == user)

abbrev pub is_count : ℕ → ℕ → ℕ → EventCount → Bool
is_count user event day c = c.user_id == user && (c.event_key == event && c.day == day)

-- `redis.incr`
unfoldable pub incr : ℕ → ℕ → ℕ → List EventCount → ℕ × List EventCount
incr user event day rows = elim (find? (is_count user event day) rows) [
  | none ↦ (1, record { user_id = user; event_key = event; day = day; count = 1 } ∷ rows)
  | some c ↦ (
    c.count + 1,
    update_where (is_count user event day) (λ r. record r { count = r.count + 1 }) rows,
  )
]

-- `exceedsDailyEventCap`
unfoldable pub exceeds_daily_event_cap : ℕ → ℕ → ℕ → Xp → Bool × Xp
exceeds_daily_event_cap user event day s =
    let (count, counts) = incr user event day s.counts in
    (ltb event_key_daily_cap count, record s { counts = counts })

abbrev pub is_entry : ℕ → ExamType → LeaderboardPeriodType → ℕ → LeaderboardEntry → Bool
is_entry user level kind start e =
    e.user_id == user
    && (level_eq e.exam_type level && (period_eq e.period_type kind && e.period_start == start))

-- `INSERT ... ON CONFLICT DO UPDATE SET weekly_xp = weekly_xp + EXCLUDED.weekly_xp`
unfoldable pub bump_entry :
    ℕ → ExamType → ℕ → LeaderboardPeriodType → ℕ → List LeaderboardEntry → List LeaderboardEntry
bump_entry user level amount kind start rows =
    if any (is_entry user level kind start) rows
    then update_where (is_entry user level kind start)
        (λ e. record e { weekly_xp = e.weekly_xp + amount }) rows
    else record {
      user_id = user;
      exam_type = level;
      period_type = kind;
      period_start = start;
      weekly_xp = amount;
    }
      ∷ rows

-- `bumpLeaderboard`
unfoldable pub bump_leaderboard :
    ℕ → ExamType → ℕ → ℕ → ℕ → List LeaderboardEntry → List LeaderboardEntry
bump_leaderboard user level amount day month rows =
    if amount == 0
    then rows
    else bump_entry user level amount monthly month
        (bump_entry user level amount weekly (weekly_period_start day) rows)

abbrev pub bumped : ℕ → User → User
bumped amount u = record u {
  level_xp = u.level_xp + amount;
  spendable_xp = u.spendable_xp + amount;
}

abbrev pub at_level : ℕ → User → User
at_level level u = record u { current_level = level }

-- the level of the reloaded row, and the rows with it
unfoldable pub level_up : ℕ → User → List User → List User
level_up user reloaded rows =
    let new = level_for_xp reloaded.level_xp in
    if ltb reloaded.current_level new
    then update_where (λ u. u.id == user) (at_level new) rows
    else rows

unfoldable pub award_result : ℕ → ℕ → User → AwardXpResult
award_result event amount reloaded =
    let new = level_for_xp reloaded.level_xp in
    let up = ltb reloaded.current_level new in
    let level = if up then new else reloaded.current_level in
    record {
      awarded = true;
      event_key = event;
      xp_amount = amount;
      level_xp = reloaded.level_xp;
      spendable_xp = reloaded.spendable_xp;
      current_level = level;
      into_level = xp_into_level reloaded.level_xp;
      to_next_level = xp_to_next_level level;
      leveled_up = up;
      new_level = if up then some new else none;
    }

abbrev pub transaction_of : ℕ → ℕ → ℕ → Option ℕ → XpTransaction
transaction_of user event amount reference = record {
  user_id = user;
  event_key = event;
  level_xp = amount;
  spendable_xp = gain amount;
  reference_id = reference;
}

-- `applyXp`: one transaction, which a missing user rolls back
unfoldable pub apply_xp : ℕ → ℕ → ℕ → Option ℕ → ℕ → ℕ → Xp → Result AwardXpResult × Xp
apply_xp user event amount reference day month s =
    let rows = update_where (λ u. u.id == user) (bumped amount) s.users in
    elim (user_of user rows) [
      | none ↦ (err internal, s)
      | some reloaded ↦ (
        ok (award_result event amount reloaded),
        record s {
          users = level_up user reloaded rows;
          transactions = transaction_of user event amount reference ∷ s.transactions;
          board = bump_leaderboard user reloaded.exam_type amount day month s.board;
        },
      )
    ]

-- the answer of an award that was not made
unfoldable pub not_awarded : ℕ → Option User → AwardXpResult
not_awarded event user =
    let level_xp : ℕ = elim user [ none ↦ 0 | some u ↦ u.level_xp ] in
    let level : ℕ = elim user [ none ↦ 1 | some u ↦ u.current_level ] in
    record {
      awarded = false;
      event_key = event;
      xp_amount = 0;
      level_xp = level_xp;
      spendable_xp = elim user [ none ↦ 0 | some u ↦ u.spendable_xp ];
      current_level = level;
      into_level = xp_into_level level_xp;
      to_next_level = xp_to_next_level level;
      leveled_up = false;
      new_level = none;
    }

abbrev pub is_rate : ℕ → XpRate → Bool
is_rate event r = r.event_key == event && r.is_active

-- an award whose rate is not zero
unfoldable pub award_capped : ℕ → ℕ → ℕ → Option ℕ → ℕ → ℕ → Xp → Result AwardXpResult × Xp
award_capped user event amount reference day month s =
    let (over, t) = exceeds_daily_event_cap user event day s in
    if over
    then (ok (not_awarded event (user_of user t.users)), t)
    else apply_xp user event amount reference day month t

-- `awardXp`
unfoldable pub award_xp : ℕ → ℕ → Option ℕ → ℕ → ℕ → Xp → Result AwardXpResult × Xp
award_xp user event reference day month s = elim (find? (is_rate event) s.rates) [
  | none ↦ (ok (not_awarded event (user_of user s.users)), s)
  | some rate ↦
      if rate.xp_amount == 0
      then (ok (not_awarded event (user_of user s.users)), s)
      else award_capped user event rate.xp_amount reference day month s
]

-- `awardXpAmount`
unfoldable pub award_xp_amount : ℕ → ℕ → ℕ → Option ℕ → ℕ → ℕ → Xp → Result AwardXpResult × Xp
award_xp_amount user amount event reference day month s =
    if amount == 0
    then award_xp user event reference day month s
    else apply_xp user event amount reference day month s
