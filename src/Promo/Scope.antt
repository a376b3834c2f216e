-- ===== src/Promo/Scope.antt =====
-- When a code gives a discount, and how much.
use Prim.Native.String.{String}
use bondzi_backend.Prelude.{
  ℕ, ◌≤◌, ◌<◌, ◌≡◌, true, false, Option, none, some, any, All-find?, arith,
}
use bondzi_backend.Enums.{AccountType, ExamType}
use bondzi_backend.Plans.{Plan}
use bondzi_backend.Promo.{
  PromoCode, Store, is_unusable, redeemed_by, row_named, compute_discount, quote,
}
use bondzi_backend.Promo.Ledger.{IsCounted, IsSound}
use bondzi_backend.Promo.Discount.{compute_discount-le}

-- a bound that may be missing
abbrev pub NotAfter : Option ℕ → ℕ → Type 0
NotAfter none now = Unit
NotAfter (some from) now = from ≤ now

abbrev pub NotBefore : Option ℕ → ℕ → Type 0
NotBefore none now = Unit
NotBefore (some until) now = now ≤ until

abbrev pub RoomLeft : Option ℕ → ℕ → Type 0
RoomLeft none count = Unit
RoomLeft (some cap) count = count < cap

abbrev pub FitsAccount : Option AccountType → AccountType → Type 0
FitsAccount none a = Unit
FitsAccount (some b) a = b ≡ a

abbrev pub FitsLevel : Option ExamType → ExamType → Type 0
FitsLevel none l = Unit
FitsLevel (some m) l = m ≡ l

-- The row is usable for the plan at the moment.
pub record IsUsable (row : PromoCode) (plan : Plan) (now : ℕ) : Type 0 where
  pub active : row.is_active ≡ true
  pub started : NotAfter row.valid_from now
  pub not_ended : NotBefore row.valid_until now
  pub room : RoomLeft row.max_redemptions row.redeemed_count
  pub account : FitsAccount row.applicable_account plan.account
  pub level : FitsLevel row.applicable_level plan.level

row-IsUsable :
    (row : PromoCode) (plan : Plan) (now : ℕ)
    → is_unusable row plan now ≡ false
    → IsUsable row plan now
unfolding is_unusable
row-IsUsable row plan now h = record {
  active = ground arith;
  started = ground arith;
  not_ended = ground arith;
  room = ground arith;
  account = ground arith;
  level = ground arith;
}

quote-some :
    (normalise : String → String) (code : String) (plan : Plan) (user gross now : ℕ) (s : Store)
    (row : PromoCode) (d : ℕ)
    → quote normalise code plan user gross now s ≡ some (row, d)
    → (row_named normalise code s ≡ some row)
      × (is_unusable row plan now ≡ false)
      × (any (redeemed_by row.id user) s.redemptions ≡ false)
      × (compute_discount row gross ≡ d)
unfolding quote
quote-some normalise code plan user gross now s row d h =
    (ground arith, ground arith, ground arith, ground arith)

-- A quote on a sound store is for the row that the normalised code names, which is active, inside
-- its dates, not used up and open to the plan; the user has not redeemed it, and the discount is
-- at most the price.
quote_sound :
    (normalise : String → String) (code : String) (plan : Plan) (user gross now : ℕ) (s : Store)
    (row : PromoCode) (d : ℕ)
    → IsSound s
    → quote normalise code plan user gross now s ≡ some (row, d)
    → (row_named normalise code s ≡ some row)
      × IsUsable row plan now
      × (any (redeemed_by row.id user) s.redemptions ≡ false)
      × (d ≤ gross)
quote_sound normalise code plan user gross now s row d sound h =
    let (named, usable, fresh, amount) = quote-some normalise code plan user gross now s row d h in
    let counted = All-find? (IsCounted s.redemptions) _ s.codes row sound.codes_ok named in
    (
      named,
      row-IsUsable row plan now usable,
      fresh,
      rw (← amount) (compute_discount-le row gross counted.at_most_all),
    )
