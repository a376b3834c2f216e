-- ===== src/Xp/Ledger.antt =====
-- The totals of a user are those of the ledger.
use bondzi_backend.Prelude.{
  ℕ, ◌+◌, ◌≤◌, ◌≡◌, refl, sym, ap, ◌∙◌, Bool, true, false, Option, List, [], ◌∷◌, inl, inr, ltb,
  ◌==◌, ==_refl, if◌then◌else◌, find?-passes, update_where, All, All-map, All-find?, ok, ok_inj,
  Bool-cases, Option-cases, arith,
}
use bondzi_backend.Levels.{level_for_xp}
use bondzi_backend.Levels.Bounds.{level_for_xp_mono}
use bondzi_backend.Xp.{
  User, XpTransaction, Xp, AwardXpResult, user_of, bumped, at_level, level_up, award_result,
  transaction_of, apply_xp,
}

-- the abstract view: what a user has earned is the sum of the ledger
abbrev pub earned : ℕ → List XpTransaction → ℕ
earned user [] = 0
earned user (x ∷ xs) = (if x.user_id == user then x.level_xp else 0) + earned user xs

-- the row of a user shows what the ledger says
abbrev pub Shows : List XpTransaction → User → Type 0
Shows ledger u = (u.level_xp ≡ earned u.id ledger) × (u.current_level ≡ level_for_xp u.level_xp)

abbrev pub IsLedger : Xp → Type 0
IsLedger s = All (Shows s.transactions) s.users

ltb-false : (a b : ℕ) → ltb a b ≡ false → b ≤ a
ltb-false a b h = ground arith

module _ (user event amount : ℕ) (reference : Option ℕ) (ledger : List XpTransaction) where
  abbrev grown : List XpTransaction
  grown = transaction_of user event amount reference ∷ ledger

  -- the total is right, and the level is that of before the award for the user's rows
  abbrev Halfway : User → Type 0
  Halfway u =
      (u.level_xp ≡ earned u.id grown)
      × (u.current_level ≡ level_for_xp (if u.id == user then earned user ledger else u.level_xp))

  bumped_row :
      (u : User) (hit : Bool)
      → (u.id == user) ≡ hit
      → Shows ledger u
      → Halfway (if hit then bumped amount u else u)
  bumped_row u true e h =
      let same : u.id ≡ user = ground arith in
      let total : u.level_xp ≡ earned user ledger = h.0 ∙ ap (λ k. earned k ledger) same in
      (
        rw (same, ==_refl user) (omega (arith, total)),
        rw (same, ==_refl user) (h.1 ∙ ap level_for_xp total),
      )
  bumped_row u false e h =
      let other : (user == u.id) ≡ false = ground arith in
      (rw (other) (omega (arith, h.0)), rw (e) h.1)

  bumped-Halfway :
      (rows : List User)
      → All (Shows ledger) rows
      → All Halfway (update_where (λ u. u.id == user) (bumped amount) rows)
  bumped-Halfway [] h = tt
  bumped-Halfway (u ∷ rows) h = (bumped_row u (u.id == user) refl h.0, bumped-Halfway rows h.1)

  module _ (reloaded : User) (is_user : reloaded.id ≡ user) (half : Halfway reloaded) where
    -- the level of the user after the award
    abbrev new_level : ℕ
    new_level = level_for_xp reloaded.level_xp

    total : reloaded.level_xp ≡ amount + earned user ledger
    total = half.0 ∙ (rw (is_user, ==_refl user) (ap (λ k. amount + earned k ledger) is_user))

    old_level : reloaded.current_level ≡ level_for_xp (earned user ledger)
    old_level = half.1 ∙ (rw (is_user, ==_refl user) refl)

    no_lower : level_for_xp (earned user ledger) ≤ new_level
    no_lower = level_for_xp_mono (earned user ledger) reloaded.level_xp (omega (arith, total))

    -- a row of the user shows the reloaded total
    row_total : (u : User) → Halfway u → (u.id == user) ≡ true → u.level_xp ≡ reloaded.level_xp
    row_total u h e =
        let same : u.id ≡ user = ground arith in
        h.0 ∙ (rw (same, ==_refl user) (ap (λ k. amount + earned k ledger) same)) ∙ sym total

    raised_row :
        (u : User) (hit : Bool)
        → (u.id == user) ≡ hit
        → Halfway u
        → Shows grown (if hit then at_level new_level u else u)
    raised_row u true e h = (h.0, ap level_for_xp (sym (row_total u h e)))
    raised_row u false e h = (h.0, h.1 ∙ (rw (e) refl))

    raised-Shows :
        (rows : List User)
        → All Halfway rows
        → All (Shows grown) (update_where (λ u. u.id == user) (at_level new_level) rows)
    raised-Shows [] h = tt
    raised-Shows (u ∷ rows) h = (raised_row u (u.id == user) refl h.0, raised-Shows rows h.1)

    kept_row :
        level_for_xp (earned user ledger) ≡ new_level → (u : User) → Halfway u → Shows grown u
    kept_row level u h = elim (Bool-cases (u.id == user)) [
      | inl e ↦ (h.0, h.1 ∙ (rw (e) level) ∙ ap level_for_xp (sym (row_total u h e)))
      | inr e ↦ (h.0, h.1 ∙ (rw (e) refl))
    ]

    level_up-Shows :
        (rows : List User) → All Halfway rows → All (Shows grown) (level_up user reloaded rows)
    unfolding level_up
    level_up-Shows rows h = elim (Bool-cases (ltb reloaded.current_level new_level)) [
      | inl up ↦ rw (up, level_up) (raised-Shows rows h)
      | inr stay ↦
          let level : level_for_xp (earned user ledger) ≡ new_level =
            omega (arith, no_lower, old_level, ltb-false reloaded.current_level new_level stay) in
          rw (stay, level_up) (All-map Halfway (Shows grown) rows (kept_row level) h)
    ]

    award_result-level : (award_result event amount reloaded).current_level ≡ new_level
    unfolding award_result
    award_result-level = elim (Bool-cases (ltb reloaded.current_level new_level)) [
      | inl up ↦ rw (up, award_result) refl
      | inr stay ↦
          rw (stay, award_result)
            (omega (arith, no_lower, old_level, ltb-false reloaded.current_level new_level stay))
    ]

-- what an answer tells the user: the total of the ledger, and its level
pub record Reports (user : ℕ) (before after : Xp) (r : AwardXpResult) : Type 0 where
  pub grew : earned user after.transactions ≡ earned user before.transactions + r.xp_amount
  pub total : r.level_xp ≡ earned user after.transactions
  pub level : r.current_level ≡ level_for_xp r.level_xp

module _ (user event : ℕ) (reference : Option ℕ) (day month : ℕ) where
  pub apply_xp-IsLedger :
      (amount : ℕ) (s : Xp)
      → IsLedger s
      → IsLedger (apply_xp user event amount reference day month s).1
  unfolding apply_xp
  apply_xp-IsLedger amount s h =
      let rows = update_where (λ u. u.id == user) (bumped amount) s.users in
      let half = bumped-Halfway user event amount reference s.transactions s.users h in
      elim (Option-cases (user_of user rows)) [
        | inl n ↦ rw (n, apply_xp) h
        | inr (reloaded, n) ↦
            let id : reloaded.id ≡ user =
              ground (arith, find?-passes (λ u. u.id == user) rows reloaded n) in
            rw (n, apply_xp)
              (level_up-Shows user event amount reference s.transactions reloaded id
                (All-find? _ _ rows reloaded half n) rows half)
      ]

  pub apply_xp-Reports :
      (amount : ℕ) (s t : Xp) (r : AwardXpResult)
      → IsLedger s
      → apply_xp user event amount reference day month s ≡ (ok r, t)
      → Reports user s t r
  unfolding apply_xp award_result
  apply_xp-Reports amount s t r h run =
      let rows = update_where (λ u. u.id == user) (bumped amount) s.users in
      let half = bumped-Halfway user event amount reference s.transactions s.users h in
      elim (Option-cases (user_of user rows)) [
        | inl n ↦ let no = rw (n, apply_xp) at run in absurd (cc)
        | inr (x, n) ↦
            let id : x.id ≡ user = ground (arith, find?-passes (λ u. u.id == user) rows x n) in
            let h' = All-find? _ _ rows x half n in
            let same = rw (n, apply_xp) at run in
            let answer : award_result event amount x ≡ r = ok_inj (ap (λ p. p.0) same) in
            let ledger : transaction_of user event amount reference ∷ s.transactions
                ≡ t.transactions =
              ap (λ p. p.1.transactions) same in
            let sum = total user event amount reference s.transactions x id h' in
            let level = award_result-level user event amount reference s.transactions x id h' in
            rw (← answer, ← ledger)
              (record {
                grew = rw (==_refl user) (omega arith);
                total = rw (==_refl user) sum;
                level = level;
              })
      ]
