-- ===== src/Xp/Award.antt =====
-- Every award, made or not, leaves the totals of the users at those of the ledger.
use bondzi_backend.Prelude.{
  ℕ, ◌≡◌, refl, ap, ◌∙◌, Option, some, inl, inr, ◌==◌, find?, find?-passes, find?-update_where,
  All-find?, ok, Result, Bool-cases, Option-cases, arith,
}
use bondzi_backend.Xp.{
  User, Xp, AwardXpResult, user_of, bumped, award_result, apply_xp, exceeds_daily_event_cap,
  award_capped, award_xp, award_xp_amount, not_awarded, is_rate,
}
use bondzi_backend.Xp.Ledger.{earned, Shows, IsLedger, Reports, apply_xp-IsLedger, apply_xp-Reports}

-- the call answers, the totals are right after it, and so is the answer
abbrev Refines : ℕ → Xp → Result AwardXpResult × Xp → Type 0
Refines user s done =
    (r : AwardXpResult) × (t : Xp) × (done ≡ (ok r, t)) × IsLedger t × Reports user s t r

module _ (user event : ℕ) (reference : Option ℕ) (day month : ℕ) (u : User) (s : Xp)
    (there : user_of user s.users ≡ some u) (h : IsLedger s) where
  apply_xp_answers :
      (amount : ℕ) (t : Xp)
      → t.users ≡ s.users
      → (r : AwardXpResult) × ((apply_xp user event amount reference day month t).0 ≡ ok r)
  unfolding apply_xp
  apply_xp_answers amount t same =
      let found : user_of user t.users ≡ some u = rw (same) there in
      let n = find?-update_where (λ x. x.id == user) (bumped amount) (λ x. refl) t.users u found in
      (award_result event amount (bumped amount u), rw (n, apply_xp) refl)

  apply_xp-Refines :
      (amount : ℕ) (t : Xp)
      → t.users ≡ s.users
      → t.transactions ≡ s.transactions
      → Refines user s (apply_xp user event amount reference day month t)
  apply_xp-Refines amount t same ledger =
      let h' : IsLedger t = rw (same, ledger) h in
      let after = (apply_xp user event amount reference day month t).1 in
      let (r, n) = apply_xp_answers amount t same in
      let whole : apply_xp user event amount reference day month t ≡ (ok r, after) =
        ap (λ (o : Result AwardXpResult). (o, after)) n in
      let k = apply_xp-Reports user event reference day month amount t after r h' whole in
      (
        r,
        after,
        whole,
        apply_xp-IsLedger user event reference day month amount t h',
        record { grew = rw (← ledger) k.grew; total = k.total; level = k.level },
      )

  not_awarded-Refines :
      (t : Xp)
      → t.users ≡ s.users
      → t.transactions ≡ s.transactions
      → Refines user s (ok (not_awarded event (user_of user t.users)), t)
  unfolding not_awarded
  not_awarded-Refines t same ledger =
      let id : u.id ≡ user = ground (arith, find?-passes (λ x. x.id == user) s.users u there) in
      let shown = All-find? (Shows s.transactions) _ s.users u h there in
      let answer : user_of user t.users ≡ some u = rw (same) there in
      (
        not_awarded event (some u),
        t,
        rw (answer) refl,
        rw (same, ledger) h,
        record {
          grew = rw (ledger) (omega arith);
          total = rw (ledger) (shown.0 ∙ ap (λ k. earned k s.transactions) id);
          level = shown.1;
        },
      )

  capped-Refines :
      (amount : ℕ) → Refines user s (award_capped user event amount reference day month s)
  unfolding award_capped exceeds_daily_event_cap
  capped-Refines amount =
      let t = (exceeds_daily_event_cap user event day s).1 in
      elim (Bool-cases (exceeds_daily_event_cap user event day s).0) [
        | inl over ↦ rw (over, award_capped) (not_awarded-Refines t refl refl)
        | inr under ↦ rw (under, award_capped) (apply_xp-Refines amount t refl refl)
      ]

  award_xp-Refines : Refines user s (award_xp user event reference day month s)
  unfolding award_xp
  award_xp-Refines = elim (Option-cases (find? (is_rate event) s.rates)) [
    | inl n ↦ rw (n, award_xp) (not_awarded-Refines s refl refl)
    | inr (rate, n) ↦ elim (Bool-cases (rate.xp_amount == 0)) [
      | inl zero_rate ↦ rw (n, zero_rate, award_xp) (not_awarded-Refines s refl refl)
      | inr some_rate ↦ rw (n, some_rate, award_xp) (capped-Refines rate.xp_amount)
    ]
  ]

-- The ledger is what the totals stand for: for a user of the table, when every row shows the sum of
-- its ledger entries and the level of that sum, an award of any amount, also one of 0, which takes
-- the rate of the event and its daily cap, gets an answer. After it every row still does, and the
-- answer tells the user's new sum, its level, and the amount by which the sum grew.
pub award_xp_amount_refines :
    (user amount event : ℕ) (reference : Option ℕ) (day month : ℕ) (u : User) (s : Xp)
    → user_of user s.users ≡ some u
    → IsLedger s
    → (r : AwardXpResult) × (t : Xp) × (award_xp_amount user amount event reference day month s
        ≡ (ok r, t))
      × IsLedger t
      × Reports user s t r
unfolding award_xp_amount
award_xp_amount_refines user amount event reference day month u s there h =
    elim (Bool-cases (amount == 0)) [
      | inl n ↦
          rw (n, award_xp_amount) (award_xp-Refines user event reference day month u s there h)
      | inr n ↦
          rw (n, award_xp_amount)
            (apply_xp-Refines user event reference day month u s there h amount s refl refl)
    ]
