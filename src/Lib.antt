-- ===== src/Lib.antt =====
-- Bondzi backend: the rules by which the service grants access, takes payments and schedules
-- learning, as definitions that compute, with the theorems that make them correct.
--
-- The program is a NestJS service over Postgres and Redis. A payment attempt is opened at
-- checkout, the provider confirms it, and `consumePaidAttempt` turns it into a subscription;
-- `entitlementFor` reads from the subscriptions what a user has on a level, with a cache in
-- Redis, and the paywall guard, the daily quotas and the study modules act on that answer. Promo
-- codes lower the price and are redeemed when the attempt is consumed. Reviews of questions are
-- scheduled by SM-2, and XP is shown as levels. An exam is created with the questions it asks, takes
-- one answer to each, and when it is completed the answers are added to the progress of the user on
-- each subject; answers and exams award XP, keep the streak of study days and qualify referrals.
--
-- Prelude.antt: tables as lists of rows (findOne, count, update), Boolean tests, results of calls
--   that throw. A table lists its newest row first.
-- Enums.antt: src/common/types/enums.ts.
-- Levels.antt: src/modules/gamification/level.util.ts. The loop of levelForXp runs on fuel, one
--   round more than the XP, enough as each level costs 100 XP at least.
-- Srs.antt: src/modules/srs/utils/sm2.util.ts and srs.service.ts. A JavaScript number may be
--   undefined or NaN, and the columns of the table refuse NaN. The ease factor is a double:
--   Srs/Double.antt has the rounding of IEEE 754 on units of 2^-58. Its search for the spacing of
--   the doubles runs on fuel, as many rounds as the number that is rounded, which spacing-fits
--   shows to be enough.
-- Plans.antt: the plan row and cadenceFor of src/modules/subscriptions/plans.
--   Plans/Catalogue.antt: create, update, softDelete, setDefault and rollbackTo of its plans.service.ts;
--     Plans/Catalogue/History.antt, these calls in any order.
-- Promo.antt: src/modules/promo-codes/promo-codes.service.ts (create, update, delete, quote,
--   recordRedemption, computeDiscount). The normalisation of a code is a parameter.
-- Quota.antt: src/modules/entitlements/entitlements.service.ts (assertAndConsume, resolveTier,
--   snapshotForUser); Quota/Race.antt lets the two statements of requests interleave in any order.
-- Billing.antt: the tables of src/modules/payments and src/modules/subscriptions as one store;
--   Billing/Monad.antt, a method as a function of the store that may throw, where what was written
--   before the throw stays written.
--   Billing/Attempts.antt: src/modules/payments/payment-attempts.service.ts.
--   Billing/Entitlement.antt: entitlementFor and hasEntitlement of
--     src/modules/subscriptions/subscriptions.service.ts, with the cache.
--   Billing/Guard.antt: src/common/guards/subscription.guard.ts.
--   Billing/Consume.antt: consumePaidAttempt of subscriptions.service.ts.
--   Billing/Cancel.antt and Billing/Refund.antt: cancel and applyRefund of the same file. All
--     three run under the user's lock, so they are single steps.
--   Billing/Verify.antt: verify of the same file; Billing/Activation.antt: what the webhooks ask of
--     it (applyWebhookActivation, recordPendingRenewalAttempt, applyWebhookStatus).
--   Billing/Logs.antt: src/modules/payments/billing-log.service.ts and financial-audit.service.ts.
--   Billing/Webhook.antt: src/modules/payments/webhooks/webhook-handler.service.ts, with its
--     handlers in Webhook/Renewal, Charge, Rows and Refunded, dispatch in Webhook/Dispatch and
--     process in Webhook/Process. An event arrives as its normalised fields.
--   Billing/Contract.antt: what a method keeps true; Billing/Closed.antt: the record of laws that a
--     property of the tables has to satisfy, under which verify and dispatch keep it.
--   Billing/History.antt: these calls in any order, as a step relation.
-- Auth/Tokens.antt and Auth/Otp.antt: src/modules/auth/tokens.service.ts (issuePair, rotate, logout)
--   and otp.service.ts. What is drawn at random, the hash function and whether a message could be
--   delivered are arguments. Auth/Otp/Spent.antt: runs of these calls.
--   Auth/Access.antt: src/modules/auth/strategies/jwt.strategy.ts, with the revoked tokens.
-- Xp.antt: src/modules/gamification/gamification.service.ts (awardXp, awardXpAmount) with the ledger
--   and the leaderboard rows. Xp/Redeem.antt: redeem of src/modules/xp-economy/xp-economy.service.ts,
--   over these tables and those of Billing.
-- Community.antt: the tables that streaks and referrals share with XP.
--   Community/Streak.antt: src/modules/gamification/streak.service.ts. A day is a number.
--   Community/Referrals.antt: issueSignupRewards, checkQualification and statsForUser of
--     src/modules/referrals/referrals.service.ts.
-- Exams.antt: the tables of src/modules/exams and what they share with src/modules/progress.
--   Exams/Create.antt: create of src/modules/exams/exams.service.ts with its three kinds of session,
--     and the check of the subjects and the quota before it; Exams/Create/Choice.antt, the queries
--     that choose the questions. The order that RANDOM() gives, the tier of a user and
--     hasEntitlement are arguments.
--   Exams/Submit.antt, Exams/Complete.antt, Exams/Progress.antt and Exams/Session.antt: submitAnswer,
--     complete and getResult, updateSubjectProgress, and getOne, resumeMostRecent and abandon of the
--     same file, with the pages of src/modules/exams/serializers.
--   Exams/History.antt: these calls in any order, as a step relation.
--   Exams/Weakness.antt: src/modules/progress/weakness.service.ts.
--   The event keys of XP are numbers, since they are only compared. Percentages are in hundredths.
--
-- Money is in minor units and time in milliseconds, both natural numbers. Ids, references and
-- provider codes are numbers, since the code only compares them. What the payment provider answers
-- is a parameter: a refund may be settled, on its way, rejected or throw. A duplicate charge
-- reads the answer once, and a failure to mark the attempt as refunded is dropped as in the code.
--
-- Not modelled: initiate and getMine of the subscriptions, the sync of plans with the provider, login and
-- registration, winners, the breakdown of an exam by a language model and the history list, the
-- referral reports, question editing, AI generation, mail and notifications, admin reports, jobs,
-- and the framework's controllers, DTO validation and configuration. Logging and e-mails are left
-- out of the modelled methods, and Redis is taken to answer.
pub mod Auth
pub mod Billing
pub mod Community
pub mod Enums
pub mod Exams
pub mod Levels
pub mod Plans
pub mod Prelude
pub mod Promo
pub mod Quota
pub mod Srs
pub mod Xp
