-- ===== src/Promo/Ledger.antt =====
-- The counters of the codes and the ledger of redemptions.
use mathlib.Core.Path.{subst}
use bondzi_backend.Prelude.{
  ℕ, ◌≤◌, ◌<◌, ◌≡◌, ◌≢◌, refl, Bool, true, false, Option, none, some, List, [], ◌∷◌, inl, inr, ◌==◌,
  any, count_if, update_where, All, All-update_where, All-map, IsKeyed, update_where-IsKeyed,
  count_if_of_any, Bool-cases, ok, arith,
}
use bondzi_backend.Promo.{
  PromoCode, PromoRedemption, Store, over_percent, redeemed_by, is_redeemable, bump,
  record_redemption,
}

abbrev pub of_code : ℕ → PromoRedemption → Bool
of_code id r = r.promo_code_id == id

-- the cap of a code, if it has one
abbrev pub Within : Option ℕ → ℕ → Type 0
Within none count = Unit
Within (some cap) count = count ≤ cap

-- What holds of one code, given the ledger.
pub record IsCounted (ledger : List PromoRedemption) (c : PromoCode) : Type 0 where
  pub counted : c.redeemed_count ≡ count_if (of_code c.id) ledger
  pub capped : Within c.max_redemptions c.redeemed_count
  pub at_most_all : over_percent c.discount_type c.discount_value ≡ false

-- Every counter is the number of ledger rows of its code and within the cap, no percentage is
-- above 100, and no user is twice in the ledger for one code.
pub record IsSound (s : Store) : Type 0 where
  pub codes_ok : All (IsCounted s.redemptions) s.codes
  pub once : (code user : ℕ) → count_if (redeemed_by code user) s.redemptions ≤ 1
  pub keyed : IsKeyed (λ c. c.id) s.codes
  pub codes_below : All (λ c. c.id < s.next_id) s.codes
  pub ledger_below : All (λ r. r.promo_code_id < s.next_id) s.redemptions

pub count_if_fresh :
    (n : ℕ) (rs : List PromoRedemption)
    → All (λ r. r.promo_code_id < n) rs
    → count_if (of_code n) rs ≡ 0
count_if_fresh n [] h = refl
count_if_fresh n (r ∷ rs) h = ground (arith, count_if_fresh n rs h.1)

-- the ledger grows by a row of another code
IsCounted-other :
    (r : PromoRedemption) (rs : List PromoRedemption) (c : PromoCode)
    → c.id ≢ r.promo_code_id
    → IsCounted rs c
    → IsCounted (r ∷ rs) c
IsCounted-other r rs c ne h = ground arith

IsCounted-bump :
    (r : PromoRedemption) (rs : List PromoRedemption) (c : PromoCode)
    → is_redeemable r.promo_code_id c ≡ true
    → IsCounted rs c
    → IsCounted (r ∷ rs) (bump c)
IsCounted-bump r rs c hit h = ground arith

-- No row of the table has the key: the update leaves every code as it is.
All-others :
    (r : PromoRedemption) (rs : List PromoRedemption) (cs : List PromoCode)
    → All (λ c. c.id ≢ r.promo_code_id) cs
    → All (IsCounted rs) cs
    → All (IsCounted (r ∷ rs)) (update_where (is_redeemable r.promo_code_id) bump cs)
All-others r rs [] ne h = tt
All-others r rs (c ∷ cs) ne h =
    let miss : is_redeemable r.promo_code_id c ≡ false = ground arith in
    (rw miss (IsCounted-other r rs c ne.0 h.0), All-others r rs cs ne.1 h.1)

any-ne :
    (id n : ℕ) (cs : List PromoCode)
    → All (λ c. c.id ≢ n) cs
    → any (is_redeemable id) cs ≡ true
    → n ≢ id
any-ne id n [] ne h = cc
any-ne id n (c ∷ cs) ne h = elim (Bool-cases (is_redeemable id c)) [
  | inl hit ↦ ground arith
  | inr miss ↦ any-ne id n cs ne.1 (ground arith)
]

-- The conditional update counts the new row exactly once.
All-bumped :
    (r : PromoRedemption) (rs : List PromoRedemption) (cs : List PromoCode)
    → IsKeyed (λ c. c.id) cs
    → any (is_redeemable r.promo_code_id) cs ≡ true
    → All (IsCounted rs) cs
    → All (IsCounted (r ∷ rs)) (update_where (is_redeemable r.promo_code_id) bump cs)
All-bumped r rs [] k h all = tt
All-bumped r rs (c ∷ cs) k h all = elim (Bool-cases (is_redeemable r.promo_code_id c)) [
  | inl hit ↦
      let id : c.id ≡ r.promo_code_id = ground arith in
      let ne : All (λ d. d.id ≢ r.promo_code_id) cs =
        All-map (λ d. d.id ≢ c.id) (λ d. d.id ≢ r.promo_code_id) cs (λ d ne e. ne (omega arith))
          k.0 in
      (rw hit (IsCounted-bump r rs c hit all.0), All-others r rs cs ne all.1)
  | inr miss ↦
      let rest : any (is_redeemable r.promo_code_id) cs ≡ true = ground arith in
      let ne : c.id ≢ r.promo_code_id = any-ne r.promo_code_id c.id cs k.0 rest in
      (rw miss (IsCounted-other r rs c ne all.0), All-bumped r rs cs k.1 rest all.1)
]

once-cons :
    (r : PromoRedemption) (rs : List PromoRedemption)
    → any (redeemed_by r.promo_code_id r.user_id) rs ≡ false
    → ((code user : ℕ) → count_if (redeemed_by code user) rs ≤ 1)
    → (code user : ℕ) → count_if (redeemed_by code user) (r ∷ rs) ≤ 1
once-cons r rs fresh once code user = elim (Bool-cases (redeemed_by code user r)) [
  | inl same ↦
      let c : r.promo_code_id ≡ code = ground arith in
      let u : r.user_id ≡ user = ground arith in
      let zero_before : count_if (redeemed_by r.promo_code_id r.user_id) rs ≡ 0 =
        count_if_of_any _ rs fresh in
      let before : count_if (redeemed_by code user) rs ≡ 0 = rw (c, u) at zero_before in
      ground arith
  | inr other ↦ ground (arith, once code user)
]

redeemed_store : PromoRedemption → Store → Store
redeemed_store r s = record s {
  codes = update_where (is_redeemable r.promo_code_id) bump s.codes;
  redemptions = r ∷ s.redemptions;
}

record_redemption_ok :
    (r : PromoRedemption) (s t : Store)
    → record_redemption r s ≡ ok t
    → (any (is_redeemable r.promo_code_id) s.codes ≡ true)
      × (any (redeemed_by r.promo_code_id r.user_id) s.redemptions ≡ false)
      × (redeemed_store r s ≡ t)
unfolding record_redemption redeemed_store
record_redemption_ok r s t h = (ground arith, ground arith, ground arith)

redeemable_below :
    (id n : ℕ) (cs : List PromoCode)
    → All (λ c. c.id < n) cs
    → any (is_redeemable id) cs ≡ true
    → id < n
redeemable_below id n [] b h = cc
redeemable_below id n (c ∷ cs) b h = elim (Bool-cases (is_redeemable id c)) [
  | inl hit ↦ ground arith
  | inr miss ↦ redeemable_below id n cs b.1 (ground arith)
]

redeemed_store-IsSound :
    (r : PromoRedemption) (s : Store)
    → any (is_redeemable r.promo_code_id) s.codes ≡ true
    → any (redeemed_by r.promo_code_id r.user_id) s.redemptions ≡ false
    → IsSound s
    → IsSound (redeemed_store r s)
unfolding redeemed_store
redeemed_store-IsSound r s room fresh h = record {
  codes_ok = All-bumped r s.redemptions s.codes h.keyed room h.codes_ok;
  once = once-cons r s.redemptions fresh h.once;
  keyed = update_where-IsKeyed (λ c. c.id) _ bump s.codes (λ c hit. refl) h.keyed;
  codes_below =
      All-update_where (λ c. c.id < s.next_id) _ bump s.codes (λ c b hit. b) h.codes_below;
  ledger_below =
      (redeemable_below r.promo_code_id s.next_id s.codes h.codes_below room, h.ledger_below);
}

pub record_redemption-IsSound :
    (r : PromoRedemption) (s t : Store) → IsSound s → record_redemption r s ≡ ok t → IsSound t
record_redemption-IsSound r s t h e =
    let (room, fresh, same) = record_redemption_ok r s t e in
    subst IsSound same (redeemed_store-IsSound r s room fresh h)
