-- ===== src/Quota/Counter.antt =====
-- The daily counter of a key: one statement touches one key.
use bondzi_backend.Prelude.{
  ℕ, ◌+◌, ◌-◌, ◌≡◌, refl, true, false, List, [], ◌∷◌, if◌then◌else◌, any, update_where, arith,
  Bool-cases, inl, inr, sym,
}
use bondzi_backend.Quota.{Key, Usage, same_key, has_key, increment, decrement, used}

pub same_key_refl : (k : Key) → same_key k k ≡ true
same_key_refl k = ground arith

pub eq_of_same_key : (k j : Key) → same_key k j ≡ true → k ≡ j
eq_of_same_key k j h = ground arith

abbrev recount : (ℕ → ℕ) → Usage → Usage
recount f u = record u { used_count = f u.used_count }

used-update_ne :
    (f : ℕ → ℕ) (j k : Key) (rows : List Usage)
    → same_key k j ≡ false
    → used j (update_where (has_key k) (recount f) rows) ≡ used j rows
unfolding used
used-update_ne f j k [] ne = refl
used-update_ne f j k (u ∷ rows) ne = ground (arith, used-update_ne f j k rows ne)

used-update_self :
    (f : ℕ → ℕ) (k : Key) (rows : List Usage)
    → any (has_key k) rows ≡ true
    → used k (update_where (has_key k) (recount f) rows) ≡ f (used k rows)
unfolding used
used-update_self f k [] h = cc
used-update_self f k (u ∷ rows) h = ground (arith, used-update_self f k rows)

used-of_any : (k : Key) (rows : List Usage) → any (has_key k) rows ≡ false → used k rows ≡ 0
unfolding used
used-of_any k [] h = refl
used-of_any k (u ∷ rows) h = ground (arith, used-of_any k rows)

used-increment_self : (k : Key) (rows : List Usage) → used k (increment k rows) ≡ used k rows + 1
unfolding increment
used-increment_self k rows = elim (Bool-cases (any (has_key k) rows)) [
  | inl there ↦ rw (there, increment) (used-update_self (λ n. n + 1) k rows there)
  | inr not_yet ↦
      rw (not_yet, increment) (unfold used in ground (arith, used-of_any k rows not_yet))
]

used-increment_ne :
    (j k : Key) (rows : List Usage) → same_key k j ≡ false → used j (increment k rows) ≡ used j rows
unfolding increment
used-increment_ne j k rows ne = elim (Bool-cases (any (has_key k) rows)) [
  | inl there ↦ rw (there, increment) (used-update_ne (λ n. n + 1) j k rows ne)
  | inr not_yet ↦ rw (not_yet, increment) (unfold used in ground arith)
]

-- The upsert adds one to the counter of its key and leaves the others.
pub used-increment :
    (j k : Key) (rows : List Usage)
    → used j (increment k rows) ≡ (if same_key k j then used j rows + 1 else used j rows)
used-increment j k rows = elim (Bool-cases (same_key k j)) [
  | inl same ↦ rw (same, ← eq_of_same_key k j same) (used-increment_self k rows)
  | inr other ↦ rw other (used-increment_ne j k rows other)
]

used-update_zero :
    (f : ℕ → ℕ) (k : Key) (rows : List Usage)
    → f 0 ≡ 0
    → used k (update_where (has_key k) (recount f) rows) ≡ f (used k rows)
unfolding used
used-update_zero f k [] z = sym z
used-update_zero f k (u ∷ rows) z = ground (arith, used-update_zero f k rows z)

used-decrement_self : (k : Key) (rows : List Usage) → used k (decrement k rows) ≡ used k rows - 1
unfolding decrement
used-decrement_self k rows = used-update_zero (λ n. n - 1) k rows refl

-- The correction takes one off the counter of its key and leaves the others.
pub used-decrement :
    (j k : Key) (rows : List Usage)
    → used j (decrement k rows) ≡ (if same_key k j then used j rows - 1 else used j rows)
used-decrement j k rows = elim (Bool-cases (same_key k j)) [
  | inl same ↦ rw (same, ← eq_of_same_key k j same) (used-decrement_self k rows)
  | inr other ↦ rw other (unfold decrement in used-update_ne (λ n. n - 1) j k rows other)
]
