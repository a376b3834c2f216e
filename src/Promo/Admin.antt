-- ===== src/Promo/Admin.antt =====
-- The admin operations keep the ledger and the counters in agreement.
use Prim.Native.String.{String}
use mathlib.Core.Path.{subst}
use bondzi_backend.Prelude.{
  ℕ, sym, or_default, ◌+◌, ◌<◌, ◌≡◌, ◌≢◌, refl, Bool, true, false, not, some, List, [], ◌∷◌, inl,
  inr, ◌==◌, find?, keep, update_where, All, All-find?, find?-passes, ==_iff, All-update_where,
  All-map, IsKeyed, update_where-IsKeyed, Bool-cases, Option-cases, ok, arith,
}
use bondzi_backend.Promo.{
  PromoCode, PromoRedemption, Store, CreatePromoCode, UpdatePromoCode, over_percent, below_count,
  with_id, amend, create, update, delete,
}
use bondzi_backend.Promo.Ledger.{IsCounted, IsSound, count_if_fresh}

-- the ids below the next one stay below
All-later :
    (n : ℕ) (rs : List PromoRedemption)
    → All (λ r. r.promo_code_id < n) rs
    → All (λ r. r.promo_code_id < n + 1) rs
All-later n rs h = All-map _ (λ r. r.promo_code_id < n + 1) rs (λ r b. omega arith) h

module _ (normalise : String → String) (admin : ℕ) (dto : CreatePromoCode) (s : Store) where
  created : PromoCode
  created = record {
    id = s.next_id;
    code = normalise dto.code;
    description = dto.description;
    discount_type = dto.discount_type;
    discount_value = dto.discount_value;
    applicable_account = dto.applicable_account;
    applicable_level = dto.applicable_level;
    max_redemptions = dto.max_redemptions;
    redeemed_count = 0;
    valid_from = dto.valid_from;
    valid_until = dto.valid_until;
    is_active = or_default dto.is_active true;
    created_by = admin;
  }

  created_store : Store
  created_store = record s { codes = created ∷ s.codes; next_id = s.next_id + 1 }

  create_ok :
      (t : Store)
      → create normalise admin dto s ≡ ok t
      → (over_percent dto.discount_type dto.discount_value ≡ false) × (created_store ≡ t)
  unfolding create created_store created
  create_ok t h = (ground arith, ground arith)

  created_store-IsSound :
      over_percent dto.discount_type dto.discount_value ≡ false → IsSound s → IsSound created_store
  unfolding created_store created
  created_store-IsSound p h = record {
    codes_ok = (
      record {
        counted = sym (count_if_fresh s.next_id s.redemptions h.ledger_below);
        capped = ground arith;
        at_most_all = p;
      },
      h.codes_ok,
    );
    once = h.once;
    keyed = (
      All-map (λ c. c.id < s.next_id) (λ c. c.id ≢ s.next_id) s.codes (λ c b. omega arith)
          h.codes_below,
      h.keyed,
    );
    codes_below = (
      omega arith,
      All-map _ (λ c. c.id < s.next_id + 1) s.codes (λ c b. omega arith) h.codes_below,
    );
    ledger_below = All-later s.next_id s.redemptions h.ledger_below;
  }

  pub create-IsSound : (t : Store) → IsSound s → create normalise admin dto s ≡ ok t → IsSound t
  create-IsSound t h e =
      let (p, same) = create_ok t e in subst IsSound same (created_store-IsSound p h)

abbrev amended : ℕ → UpdatePromoCode → PromoCode → List PromoCode → List PromoCode
amended id dto row = update_where (with_id id) (λ _. amend dto row)

-- What `update` lets through.
record IsAllowed (dto : UpdatePromoCode) (row : PromoCode) : Type 0 where
  percent_ok : over_percent row.discount_type (or_default dto.discount_value 0) ≡ false
  cap_ok : below_count dto.max_redemptions row.redeemed_count ≡ false

update_ok :
    (id : ℕ) (dto : UpdatePromoCode) (s t : Store)
    → update id dto s ≡ ok t
    → (row : PromoCode) × (find? (with_id id) s.codes ≡ some row)
      × IsAllowed dto row
      × (record s { codes = amended id dto row s.codes } ≡ t)
unfolding update
update_ok id dto s t h = elim (Option-cases (find? (with_id id) s.codes)) [
  | inl gone ↦ absurd (ground arith)
  | inr (row, found) ↦
      (row, found, record { percent_ok = ground arith; cap_ok = ground arith }, ground arith)
]

amend-IsCounted :
    (dto : UpdatePromoCode) (row : PromoCode) (ledger : List PromoRedemption)
    → IsAllowed dto row
    → IsCounted ledger row
    → IsCounted ledger (amend dto row)
unfolding amend
amend-IsCounted dto row ledger a h = record {
  counted = h.counted;
  capped = ground arith;
  at_most_all = ground arith;
}

amend-id : (dto : UpdatePromoCode) (row : PromoCode) → (amend dto row).id ≡ row.id
unfolding amend
amend-id dto row = refl

pub update-IsSound :
    (id : ℕ) (dto : UpdatePromoCode) (s t : Store) → IsSound s → update id dto s ≡ ok t → IsSound t
update-IsSound id dto s t h e =
    let (row, found, allowed, same) = update_ok id dto s t e in
    let hit : row.id ≡ id = (==_iff row.id id).0 (find?-passes (with_id id) s.codes row found) in
    let row_ok = All-find? (IsCounted s.redemptions) (with_id id) s.codes row h.codes_ok found in
    let below = All-find? (λ c. c.id < s.next_id) (with_id id) s.codes row h.codes_below found in
    subst IsSound same (record {
      codes_ok =
          All-update_where _ _ _ s.codes (λ c o hit'. amend-IsCounted dto row _ allowed row_ok)
            h.codes_ok;
      once = h.once;
      keyed =
          update_where-IsKeyed (λ c. c.id) (with_id id) (λ _. amend dto row) s.codes
            (λ c hit'. ground (arith, amend-id dto row, hit, (==_iff c.id id).0 hit')) h.keyed;
      codes_below =
          All-update_where (λ c. c.id < s.next_id) (with_id id) (λ _. amend dto row) s.codes
            (λ c o hit'. rw (amend-id dto row) below) h.codes_below;
      ledger_below = h.ledger_below;
    })

keep-All {κ} :
    (P : PromoCode → Type κ) (p : PromoCode → Bool) (xs : List PromoCode)
    → All P xs
    → All P (keep p xs)
keep-All P p [] h = tt
keep-All P p (x ∷ xs) h = elim (Bool-cases (p x)) [
  | inl hit ↦ rw hit (h.0, keep-All P p xs h.1)
  | inr miss ↦ rw miss (keep-All P p xs h.1)
]

keep-IsKeyed :
    (p : PromoCode → Bool) (xs : List PromoCode)
    → IsKeyed (λ c. c.id) xs
    → IsKeyed (λ c. c.id) (keep p xs)
keep-IsKeyed p [] h = tt
keep-IsKeyed p (x ∷ xs) h = elim (Bool-cases (p x)) [
  | inl hit ↦ rw hit (keep-All (λ c. c.id ≢ x.id) p xs h.0, keep-IsKeyed p xs h.1)
  | inr miss ↦ rw miss (keep-IsKeyed p xs h.1)
]

delete_ok :
    (id : ℕ) (s t : Store)
    → delete id s ≡ ok t
    → record s { codes = keep (λ c. not (c.id == id)) s.codes } ≡ t
unfolding delete
delete_ok id s t h = ground arith

pub delete-IsSound : (id : ℕ) (s t : Store) → IsSound s → delete id s ≡ ok t → IsSound t
delete-IsSound id s t h e = subst IsSound (delete_ok id s t e) (record {
  codes_ok = keep-All _ _ s.codes h.codes_ok;
  once = h.once;
  keyed = keep-IsKeyed _ s.codes h.keyed;
  codes_below = keep-All (λ c. c.id < s.next_id) _ s.codes h.codes_below;
  ledger_below = h.ledger_below;
})
