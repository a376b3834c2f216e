-- ===== src/Billing/Closed/Activations.antt =====
-- `applyWebhookActivation` and the `charge.success` handler keep every closed property of the
-- tables.
use bondzi_backend.Prelude.{
  ℕ, ◌≡◌, refl, Bool, false, not, Option, none, some, List, inl, inr, ◌==◌, conflict, Option-cases,
  arith,
}
use bondzi_backend.Plans.{Plan}
use bondzi_backend.Billing.{Subscription, PaymentAttempt, Provider, Store, invalidate_cache}
use bondzi_backend.Billing.Monad.{Action, pure, modify}
use bondzi_backend.Billing.Attempts.{CreatePending, mark_paid, find_by_reference}
use bondzi_backend.Billing.Contract.{
  Keeps, Triple-pure, Triple-gets, Keeps-throw_if, Keeps-if, Keeps-modify, Keeps-bind,
}
use bondzi_backend.Billing.Activation.{
  Activation, lost_race, fail_renewal, promote, activate_attempt, activate_locked,
  apply_webhook_activation, record_pending_renewal_attempt,
}
use bondzi_backend.Billing.Closed.{IsListed, IsClosed}
use bondzi_backend.Billing.Closed.Charges.{Frame-attempts, on_attempts-Keeps}

module _ (ps : List Plan) (G : Subscription → Type 0) (I : Store → Type 0)
    (c : IsClosed ps G I) where
  pub drop_cache-Keeps : (user : ℕ) → Keeps I (modify (invalidate_cache user))
  drop_cache-Keeps user = Keeps-modify I (invalidate_cache user) λ s h.
      c.same_subs s _ (record { plans = refl; events = refl; logs = λ p e l. l; ids = omega arith })
        refl h

  promoted-Keeps :
      (provider : Provider) (args : Activation) (now : ℕ)
      → IsListed ps args.plan
      → (refreshed : Option PaymentAttempt) (k : PaymentAttempt → Action Bool)
      → ((a : PaymentAttempt) → Keeps I (k a))
      → Keeps {A = Bool} I (elim refreshed [ none ↦ pure false | some a ↦ k a ])
  promoted-Keeps provider args now listed none k hk = Triple-pure I (λ _. Unit) false tt
  promoted-Keeps provider args now listed (some a) k hk = hk a

  promote-Keeps :
      (provider : Provider) (a : PaymentAttempt) (args : Activation) (now : ℕ)
      → IsListed ps args.plan
      → Keeps I (promote provider a args now)
  unfolding promote
  promote-Keeps provider a args now listed =
      Keeps-bind I _ _
        (on_attempts-Keeps ps G I c (mark_paid a.id none args.provider_customer_id now))
        λ _. Keeps-bind I _ _ (Triple-gets I (λ _. Unit) _ λ s h. tt) λ refreshed.
          promoted-Keeps provider args now listed refreshed _ λ b.
            Keeps-bind I _ _ (c.consume provider b args.plan _ now listed)
              λ done. Triple-pure I (λ _. Unit) done.1 tt

  activate_attempt-Keeps :
      (provider : Provider) (a : PaymentAttempt) (args : Activation) (now : ℕ)
      → IsListed ps args.plan
      → Keeps I (activate_attempt provider a args now)
  unfolding activate_attempt
  activate_attempt-Keeps provider a args now listed =
      Keeps-if I (not (a.user_id == args.user_id)) _ _ (Triple-pure I (λ _. Unit) false tt) (
        Keeps-bind I _ _ (Triple-gets I (λ _. Unit) (lost_race args) λ s h. tt) λ lost.
          Keeps-if I lost _ _
            (Keeps-bind I _ _
              (Keeps-modify I (fail_renewal a now)
                λ s h. c.same_subs s _ (Frame-attempts s _) refl h)
              λ _. Triple-pure I (λ _. Unit) false tt)
            (promote-Keeps provider a args now listed))

  activate_locked-Keeps :
      (provider : Provider) (args : Activation) (now : ℕ)
      → IsListed ps args.plan
      → (reference : Option ℕ) → args.provider_reference ≡ reference
      → Keeps I (activate_locked provider args now)
  unfolding activate_locked
  activate_locked-Keeps provider args now listed none e =
      rw (e) (Triple-pure I (λ _. Unit) false tt)
  activate_locked-Keeps provider args now listed (some reference) e =
      rw (e, activate_locked)
        (Keeps-bind I _ _ (Triple-gets I (λ _. Unit) _ λ s h. tt) λ found.
          promoted-Keeps provider args now listed found _
            λ a. activate_attempt-Keeps provider a args now listed)

  pub apply_webhook_activation-Keeps :
      (provider : Provider) (args : Activation) (now : ℕ)
      → IsListed ps args.plan
      → Keeps I (apply_webhook_activation provider args now)
  unfolding apply_webhook_activation
  apply_webhook_activation-Keeps provider args now listed =
      Keeps-bind I _ _ (Keeps-throw_if I _ conflict) λ _.
        Keeps-bind I _ _ (Keeps-throw_if I _ conflict) λ _.
          Keeps-bind I _ _
            (activate_locked-Keeps provider args now listed args.provider_reference refl)
            λ alarm.
              Keeps-bind I _ _ (drop_cache-Keeps args.user_id)
                λ _. Triple-pure I (λ _. Unit) alarm tt

  pub record_pending_renewal_attempt-Keeps :
      (input : CreatePending) (now : ℕ) → Keeps I (record_pending_renewal_attempt input now)
  unfolding record_pending_renewal_attempt
  record_pending_renewal_attempt-Keeps input now = record {
    run = λ s h. elim (Option-cases (find_by_reference input.provider_reference s.attempts)) [
      | inr (a, n) ↦ rw (n, record_pending_renewal_attempt) (h, tt)
      | inl n ↦
          rw (n, record_pending_renewal_attempt)
            (
              c.same_subs s _
                  (record { plans = refl; events = refl; logs = λ p e l. l; ids = omega arith })
                  refl h,
              tt,
            )
    ];
  }
