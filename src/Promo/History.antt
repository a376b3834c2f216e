-- ===== src/Promo/History.antt =====
-- Every store that the admins and the checkouts can reach.
use Prim.Native.String.{String}
use bondzi_backend.Prelude.{ℕ, ◌≡◌, [], ok, arith}
use bondzi_backend.Promo.{
  PromoRedemption, Store, CreatePromoCode, UpdatePromoCode, create, update, delete,
  record_redemption,
}
use bondzi_backend.Promo.Ledger.{IsSound, record_redemption-IsSound}
use bondzi_backend.Promo.Admin.{create-IsSound, update-IsSound, delete-IsSound}

abbrev pub empty : Store
empty = record { codes = []; redemptions = []; next_id = 0 }

module _ (normalise : String → String) where
  -- one call of the service that returned; a call that throws changes nothing
  pub data Step : Store → Store → Type 0 where
    creates :
        {s t : Store} (admin : ℕ) (dto : CreatePromoCode)
        → create normalise admin dto s ≡ ok t
        → Step s t
    updates : {s t : Store} (id : ℕ) (dto : UpdatePromoCode) → update id dto s ≡ ok t → Step s t
    deletes : {s t : Store} (id : ℕ) → delete id s ≡ ok t → Step s t
    redeems : {s t : Store} (r : PromoRedemption) → record_redemption r s ≡ ok t → Step s t

  -- any such calls, one after another, from the empty tables
  pub data Reach : Store → Type 0 where
    start : Reach empty
    later : {s t : Store} → Reach s → Step s t → Reach t

  Step-IsSound : {s t : Store} → Step s t → IsSound s → IsSound t
  Step-IsSound {s} {t} (creates admin dto e) h = create-IsSound normalise admin dto s t h e
  Step-IsSound {s} {t} (updates id dto e) h = update-IsSound id dto s t h e
  Step-IsSound {s} {t} (deletes id e) h = delete-IsSound id s t h e
  Step-IsSound {s} {t} (redeems r e) h = record_redemption-IsSound r s t h e

  -- In every store reached by creating, updating, deleting and redeeming codes, one call after
  -- another in any order, each counter equals the number of ledger rows of its code and is within
  -- the cap, no percentage is above 100, and no user has redeemed one code twice.
  pub Reach-IsSound : {s : Store} → Reach s → IsSound s
  Reach-IsSound start = record {
    codes_ok = tt;
    once = λ code user. omega arith;
    keyed = tt;
    codes_below = tt;
    ledger_below = tt;
  }
  Reach-IsSound (later r st) = Step-IsSound st (Reach-IsSound r)
