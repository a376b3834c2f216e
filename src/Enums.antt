-- ===== src/Enums.antt =====
-- The enums of src/common/types/enums.ts that the services branch on, with their `===` tests.
use bondzi_backend.Prelude.{◌≡◌, ◌↔◌, Bool, true, false, arith}

pub data ExamType : Type 0 where
  bece wassce novdec : ExamType

pub data AccountType : Type 0 where
  free plus pro : AccountType

pub data PaymentKind : Type 0 where
  one_time recurring : PaymentKind

pub data BillingInterval : Type 0 where
  monthly six_month annual : BillingInterval

pub data SubscriptionStatus : Type 0 where
  active expired cancelled trial past_due inactive xp_credited refunded : SubscriptionStatus

pub data PaymentAttemptStatus : Type 0 where
  pending paid failed refunded abandoned : PaymentAttemptStatus

pub data PromoDiscountType : Type 0 where
  percent fixed : PromoDiscountType

pub data LeaderboardPeriodType : Type 0 where
  weekly monthly : LeaderboardPeriodType

pub data QuestionPool : Type 0 where
  past_paper pm_test : QuestionPool

-- NOVDEC draws from the WASSCE questions
unfoldable pub question_pool_for : ExamType → ExamType
question_pool_for novdec = wassce
question_pool_for bece = bece
question_pool_for wassce = wassce

abbrev pub level_eq : ExamType → ExamType → Bool
level_eq bece bece = true
level_eq wassce wassce = true
level_eq novdec novdec = true
level_eq _ _ = false

abbrev pub account_eq : AccountType → AccountType → Bool
account_eq free free = true
account_eq plus plus = true
account_eq pro pro = true
account_eq _ _ = false

abbrev pub period_eq : LeaderboardPeriodType → LeaderboardPeriodType → Bool
period_eq weekly weekly = true
period_eq LeaderboardPeriodType.monthly LeaderboardPeriodType.monthly = true
period_eq _ _ = false

pub level_eq_iff : (a b : ExamType) → (level_eq a b ≡ true) ↔ (a ≡ b)
level_eq_iff a b = ground arith

pub account_eq_iff : (a b : AccountType) → (account_eq a b ≡ true) ↔ (a ≡ b)
account_eq_iff a b = ground arith

pub level_eq_refl : (a : ExamType) → level_eq a a ≡ true
level_eq_refl a = ground arith

pub account_eq_refl : (a : AccountType) → account_eq a a ≡ true
account_eq_refl a = ground arith
