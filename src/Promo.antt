-- ===== src/Promo.antt =====
-- src/modules/promo-codes/promo-codes.service.ts: the codes, the quote at checkout and the ledger
-- of redemptions. Money is in minor units, percentages in hundredths of a percent. The trimming and
-- lower-casing of a code belongs to the JavaScript runtime and is a parameter.
pub mod Discount
pub mod Ledger
pub mod Admin
pub mod History
pub mod Scope
mod Tests
use Prim.Native.String.{String}
use text.Mathlib.Text.{◌==◌ as str_eq}
use bondzi_backend.Prelude.{
  ℕ, suc, ◌+◌, ◌*◌, ◌/◌, min, Bool, true, false, not, ◌&&◌, ◌||◌, Option, none, some, List, [], ◌∷◌,
  ltb, leb, ◌==◌, if◌then◌else◌, is_some, or_default, find?, any, keep, update_where, HttpError,
  bad_request, conflict, not_found, internal, Result, ok, err, ◌>>=◌, ◌>>◌, throw_if,
}
use bondzi_backend.Enums.{
  ExamType, AccountType, PromoDiscountType, percent, fixed, level_eq, account_eq,
}
use bondzi_backend.Plans.{Plan}

pub record PromoCode : Type 0 where
  pub id : ℕ
  pub code : String
  pub description : Option String
  pub discount_type : PromoDiscountType
  pub discount_value : ℕ
  pub applicable_account : Option AccountType
  pub applicable_level : Option ExamType
  pub max_redemptions : Option ℕ
  pub redeemed_count : ℕ
  pub valid_from : Option ℕ
  pub valid_until : Option ℕ
  pub is_active : Bool
  pub created_by : ℕ

pub record PromoRedemption : Type 0 where
  pub promo_code_id : ℕ
  pub user_id : ℕ
  pub subscription_id : Option ℕ
  pub discount_amount : ℕ

pub record Store : Type 0 where
  pub codes : List PromoCode
  pub redemptions : List PromoRedemption
  pub next_id : ℕ

pub record CreatePromoCode : Type 0 where
  pub code : String
  pub description : Option String
  pub discount_type : PromoDiscountType
  pub discount_value : ℕ
  pub applicable_account : Option AccountType
  pub applicable_level : Option ExamType
  pub max_redemptions : Option ℕ
  pub valid_from : Option ℕ
  pub valid_until : Option ℕ
  pub is_active : Option Bool

-- a field that is `none` is absent; `some none` is `validUntil: ''`
pub record UpdatePromoCode : Type 0 where
  pub description : Option String
  pub discount_value : Option ℕ
  pub max_redemptions : Option ℕ
  pub valid_until : Option (Option ℕ)
  pub is_active : Option Bool

abbrev pub is_percent : PromoDiscountType → Bool
is_percent percent = true
is_percent fixed = false

-- `discountType === PERCENT && discountValue > 100`
abbrev pub over_percent : PromoDiscountType → ℕ → Bool
over_percent kind value = is_percent kind && ltb 10000 value

-- the right-hand side of `maxRedemptions < row.redeemedCount`, for a field that is given
abbrev pub below_count : Option ℕ → ℕ → Bool
below_count none count = false
below_count (some cap) count = ltb cap count

abbrev pub with_id : ℕ → PromoCode → Bool
with_id id c = c.id == id

abbrev pub redeemed_by : ℕ → ℕ → PromoRedemption → Bool
redeemed_by code user r = r.promo_code_id == code && r.user_id == user

-- `is_active = true AND (max_redemptions IS NULL OR redeemed_count < max_redemptions)`
abbrev pub has_room : Option ℕ → ℕ → Bool
has_room none count = true
has_room (some cap) count = ltb count cap

abbrev pub is_redeemable : ℕ → PromoCode → Bool
is_redeemable id c = c.id == id && (c.is_active && has_room c.max_redemptions c.redeemed_count)

abbrev pub bump : PromoCode → PromoCode
bump c = record c { redeemed_count = c.redeemed_count + 1 }

-- `computeDiscount`: `Math.round` takes halves up
unfoldable pub compute_discount : PromoCode → ℕ → ℕ
compute_discount row gross_amount =
    if is_percent row.discount_type
    then (gross_amount * row.discount_value + 5000) / 10000
    else min row.discount_value gross_amount

abbrev starts_later : Option ℕ → ℕ → Bool
starts_later none now = false
starts_later (some from) now = ltb now from

abbrev ended : Option ℕ → ℕ → Bool
ended none now = false
ended (some until) now = ltb until now

abbrev outside_account : Option AccountType → AccountType → Bool
outside_account none a = false
outside_account (some b) a = not (account_eq b a)

abbrev outside_level : Option ExamType → ExamType → Bool
outside_level none l = false
outside_level (some m) l = not (level_eq m l)

-- the tests of `quote` on the row that the code names, in their order
unfoldable pub is_unusable : PromoCode → Plan → ℕ → Bool
is_unusable row plan now =
    not row.is_active
    || (starts_later row.valid_from now
        || (ended row.valid_until now
            || (not (has_room row.max_redemptions row.redeemed_count)
                || (outside_account row.applicable_account plan.account
                    || outside_level row.applicable_level plan.level))))

module _ (normalise : String → String) where
  abbrev pub row_named : String → Store → Option PromoCode
  row_named code s = find? (λ c. str_eq c.code (normalise code)) s.codes

  -- `quote`
  unfoldable pub quote : String → Plan → ℕ → ℕ → ℕ → Store → Option (PromoCode × ℕ)
  quote code plan user gross_amount now s =
      if str_eq (normalise code) "" then none else elim (row_named code s) [
        | none ↦ none
        | some row ↦
            if is_unusable row plan now || any (redeemed_by row.id user) s.redemptions
            then none
            else some (row, compute_discount row gross_amount)
      ]

  -- `create`
  unfoldable pub create : ℕ → CreatePromoCode → Store → Result Store
  create admin dto s = do
    throw_if (is_some (row_named dto.code s)) conflict
    throw_if (over_percent dto.discount_type dto.discount_value) bad_request
    ok (record s {
      codes =
          record {
            id = s.next_id;
            code = normalise dto.code;
            description = dto.description;
            discount_type = dto.discount_type;
            discount_value = dto.discount_value;
            applicable_account = dto.applicable_account;
            applicable_level = dto.applicable_level;
            max_redemptions = dto.max_redemptions;
            redeemed_count = 0;
            valid_from = dto.valid_from;
            valid_until = dto.valid_until;
            is_active = or_default dto.is_active true;
            created_by = admin;
          }
          ∷ s.codes;
      next_id = s.next_id + 1;
    })

abbrev given {ℓ} : {A : Type ℓ} → Option A → A → A
given none old = old
given (some new) old = new

abbrev given_column {ℓ} : {A : Type ℓ} → Option A → Option A → Option A
given_column none old = old
given_column (some new) old = some new

-- the assignments of `update`
pub amend : UpdatePromoCode → PromoCode → PromoCode
amend dto row = record row {
  description = given_column dto.description row.description;
  discount_value = given dto.discount_value row.discount_value;
  max_redemptions = given_column dto.max_redemptions row.max_redemptions;
  valid_until = given dto.valid_until row.valid_until;
  is_active = given dto.is_active row.is_active;
}

-- `update`, its find and its save as one step: no other call comes between them
unfoldable pub update : ℕ → UpdatePromoCode → Store → Result Store
update id dto s = elim (find? (with_id id) s.codes) [
  | none ↦ err not_found
  | some row ↦ do
    throw_if (over_percent row.discount_type (or_default dto.discount_value 0)) bad_request
    throw_if (below_count dto.max_redemptions row.redeemed_count) bad_request
    ok (record s { codes = update_where (with_id id) (λ _. amend dto row) s.codes })
]

-- `delete`; the foreign key of the ledger (ON DELETE RESTRICT) keeps a code that was redeemed
unfoldable pub delete : ℕ → Store → Result Store
delete id s = do
  throw_if (not (any (with_id id) s.codes)) not_found
  throw_if (any (λ r. r.promo_code_id == id) s.redemptions) internal
  ok (record s { codes = keep (λ c. not (c.id == id)) s.codes })

-- `recordRedemption`: one transaction, which the unique index on (code, user) may roll back
unfoldable pub record_redemption : PromoRedemption → Store → Result Store
record_redemption r s = do
  throw_if (not (any (is_redeemable r.promo_code_id) s.codes)) conflict
  throw_if (any (redeemed_by r.promo_code_id r.user_id) s.redemptions) internal
  ok (record s {
    codes = update_where (is_redeemable r.promo_code_id) bump s.codes;
    redemptions = r ∷ s.redemptions;
  })
