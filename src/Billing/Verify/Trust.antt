-- ===== src/Billing/Verify/Trust.antt =====
-- What stands behind a `verify` that returned a subscription.
use bondzi_backend.Prelude.{
  ℕ, ◌+◌, ◌≤◌, ◌≡◌, refl, Bool, true, false, ◌⊎◌, inl, inr, some, ◌==◌, leb, ok, if◌then◌else◌,
  HttpError, conflict, Bool-cases, Option-cases, Result-cases, arith,
}
use bondzi_backend.Billing.{
  Subscription, PaymentAttempt, Provider, VerifiedTransaction, Store, verification_failed,
}
use bondzi_backend.Billing.Monad.{Action, throw, ◌>>=◌, ◌>>◌}
use bondzi_backend.Billing.Attempts.{is_pending, is_paid, find_by_reference, mark_failed}
use bondzi_backend.Billing.Verify.{
  amount_tolerance, on_attempts, settle, verify_pending, verify_attempt, verify,
}

-- the provider confirmed the attempt's amount, give or take the tolerance
pub record IsConfirmed (provider : Provider) (a : PaymentAttempt) : Type 0 where
  pub result : VerifiedTransaction
  pub answered : provider.verify_answer a.provider_reference ≡ some result
  pub success : result.is_success ≡ true
  pub enough : a.amount_minor ≤ result.amount_minor + amount_tolerance
  pub no_more : result.amount_minor ≤ a.amount_minor + amount_tolerance

settle-IsConfirmed :
    (provider : Provider) (a : PaymentAttempt) (result : VerifiedTransaction) (now : ℕ)
    (s t : Store) (sub : Subscription)
    → provider.verify_answer a.provider_reference ≡ some result
    → result.is_success ≡ true
    → settle provider a result now s ≡ (ok sub, t)
    → IsConfirmed provider a
unfolding settle ◌>>=◌
settle-IsConfirmed provider a result now s t sub answered success h =
    let within = leb result.amount_minor (a.amount_minor + amount_tolerance) in
    let above = leb a.amount_minor (result.amount_minor + amount_tolerance) in
    elim (Bool-cases within) [
      | inr n ↦ let no = rw (n, settle) at h in absurd (cc)
      | inl n ↦ elim (Bool-cases above) [
        | inr m ↦ let no = rw (n, m, settle) at h in absurd (cc)
        | inl m ↦ record {
          result = result;
          answered = answered;
          success = success;
          enough = ground arith;
          no_more = ground arith;
        }
      ]
    ]

-- a method that ends in a throw returns nothing
never_returns :
    {A : Type 0} (m : Action (Unit {0})) (e : HttpError) (s t : Store) (a : A)
    → (m >> throw e) s ≡ (ok a, t)
    → ⊥
unfolding ◌>>=◌
never_returns m e s t a h = elim (Result-cases (m s).0) [
  | inl (u, n) ↦ let no = rw (n, ◌>>=◌) at h in cc
  | inr (x, n) ↦ let no = rw (n, ◌>>=◌) at h in cc
]

answer-IsConfirmed :
    (provider : Provider) (a : PaymentAttempt) (result : VerifiedTransaction) (now : ℕ)
    (success : Bool) (s t : Store) (sub : Subscription)
    → provider.verify_answer a.provider_reference ≡ some result
    → result.is_success ≡ success
    → (if success
          then settle provider a result now
          else on_attempts (mark_failed a.id verification_failed now) >> throw conflict)
        s
      ≡ (ok sub, t)
    → IsConfirmed provider a
answer-IsConfirmed provider a result now true s t sub n m h =
    settle-IsConfirmed provider a result now s t sub n m h
answer-IsConfirmed provider a result now false s t sub n m h =
    absurd
      (never_returns (on_attempts (mark_failed a.id verification_failed now)) conflict s t sub h)

verify_pending-IsConfirmed :
    (provider : Provider) (a : PaymentAttempt) (now : ℕ) (s t : Store) (sub : Subscription)
    → verify_pending provider a now s ≡ (ok sub, t)
    → IsConfirmed provider a
unfolding verify_pending
verify_pending-IsConfirmed provider a now s t sub h =
    elim (Option-cases (provider.verify_answer a.provider_reference)) [
      | inl n ↦ let no = rw (n, verify_pending) at h in absurd (cc)
      | inr (result, n) ↦
          answer-IsConfirmed provider a result now result.is_success s t sub n refl
            (rw (n, verify_pending) at h)
    ]

-- paid before, or pending and confirmed by the provider
abbrev pub IsTrusted : Provider → PaymentAttempt → Type 0
IsTrusted provider a =
    (is_paid a.status ≡ true) ⊎ ((is_pending a.status ≡ true) × IsConfirmed provider a)

verify_attempt-IsTrusted :
    (provider : Provider) (a : PaymentAttempt) (now : ℕ) (s t : Store) (sub : Subscription)
    → verify_attempt provider a now s ≡ (ok sub, t)
    → IsTrusted provider a
unfolding verify_attempt
verify_attempt-IsTrusted provider a now s t sub h = elim (Bool-cases (is_paid a.status)) [
  | inl n ↦ inl n
  | inr n ↦ elim (Bool-cases (is_pending a.status)) [
    | inr m ↦ let no = rw (n, m, verify_attempt) at h in absurd (cc)
    | inl m ↦
        inr (m, verify_pending-IsConfirmed provider a now s t sub (rw (n, m, verify_attempt) at h))
  ]
]

-- A `verify` that returns a subscription was asked for a payment attempt of this user under this
-- reference that was paid before, or that is pending and that the provider confirms as a success
-- for the attempt's amount, give or take 100 minor units.
pub verify_trust :
    (provider : Provider) (user reference now : ℕ) (s t : Store) (sub : Subscription)
    → verify provider user reference now s ≡ (ok sub, t)
    → (a : PaymentAttempt) × (find_by_reference reference s.attempts ≡ some a)
      × (a.user_id ≡ user)
      × IsTrusted provider a
unfolding verify ◌>>=◌
verify_trust provider user reference now s t sub h =
    elim (Option-cases (find_by_reference reference s.attempts)) [
      | inl n ↦ let no = rw (n, verify) at h in absurd (cc)
      | inr (a, n) ↦ elim (Bool-cases (a.user_id == user)) [
        | inr m ↦ let no = rw (n, m, verify) at h in absurd (cc)
        | inl m ↦ (
          a,
          n,
          ground arith,
          verify_attempt-IsTrusted provider a now s t sub (rw (n, m, verify) at h),
        )
      ]
    ]
