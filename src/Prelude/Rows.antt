-- ===== src/Prelude/Rows.antt =====
-- Tables as lists of rows: `findOne`, `count`, `update ... where`.
use Prim.Native.Nat.{ℕ, zero, suc, ◌+◌}
use mathlib.Core.Path.{◌≡◌, refl, subst}
use mathlib.Core.Bool.{Bool, true, false, not, ◌&&◌, ◌||◌}
use mathlib.Core.Logic.{◌≢◌, inl, inr}
use mathlib.Core.Option.{Option, none, some}
use mathlib.Core.List.{List, [], ◌∷◌}
use native.Mathlib.Omega.{arith}
use bondzi_backend.Prelude.Tests.{◌==◌, Bool-cases, if◌then◌else◌}

module _ {ℓ} {A : Type ℓ} where
  abbrev pub length : List A → ℕ
  length [] = 0
  length (x ∷ xs) = suc (length xs)

  abbrev pub get_or : List A → ℕ → A → A
  get_or [] i d = d
  get_or (x ∷ xs) zero d = x
  get_or (x ∷ xs) (suc i) d = get_or xs i d

  -- `findOne({ where })`: the first row that passes
  abbrev pub find? : (A → Bool) → List A → Option A
  find? p [] = none
  find? p (x ∷ xs) = if p x then some x else find? p xs

  abbrev pub any : (A → Bool) → List A → Bool
  any p [] = false
  any p (x ∷ xs) = p x || any p xs

  abbrev pub count_if : (A → Bool) → List A → ℕ
  count_if p [] = 0
  count_if p (x ∷ xs) = (if p x then 1 else 0) + count_if p xs

  abbrev pub keep : (A → Bool) → List A → List A
  keep p [] = []
  keep p (x ∷ xs) = if p x then x ∷ keep p xs else keep p xs

  -- `UPDATE ... SET f WHERE p`
  abbrev pub update_where : (A → Bool) → (A → A) → List A → List A
  update_where p f [] = []
  update_where p f (x ∷ xs) = (if p x then f x else x) ∷ update_where p f xs

  -- what a row, found or not, has in a column
  abbrev pub Found : (A → Type 0) → Option A → Type 0
  Found P none = Unit
  Found P (some a) = P a

module _ {ℓ} {A : Type ℓ} where
  pub find?-passes : (p : A → Bool) (xs : List A) (a : A) → find? p xs ≡ some a → p a ≡ true
  find?-passes p [] a e = cc
  find?-passes p (x ∷ xs) a e = ground (arith, find?-passes p xs a)

  -- every row of a table
  abbrev pub All {κ} : (A → Type κ) → List A → Type κ
  All P [] = Unit
  All P (x ∷ xs) = P x × All P xs

  pub All-find? {κ} :
      (P : A → Type κ) (p : A → Bool) (xs : List A) (a : A) → All P xs → find? p xs ≡ some a → P a
  All-find? P p [] a h e = cc
  All-find? P p (x ∷ xs) a h e = elim (Bool-cases (p x)) [
    | inl hit ↦ let same : x ≡ a = ground arith in subst P same h.0
    | inr miss ↦ All-find? P p xs a h.1 (ground arith)
  ]

  pub All-update_where {κ} :
      (P : A → Type κ) (p : A → Bool) (f : A → A) (xs : List A)
      → ((a : A) → P a → p a ≡ true → P (f a))
      → All P xs
      → All P (update_where p f xs)
  All-update_where P p f [] k h = tt
  All-update_where P p f (x ∷ xs) k h = (
    elim (Bool-cases (p x)) [ inl hit ↦ rw hit (k x h.0 hit) | inr miss ↦ rw miss h.0 ],
    All-update_where P p f xs k h.1,
  )

  pub keep-All {κ} : (P : A → Type κ) (p : A → Bool) (xs : List A) → All P xs → All P (keep p xs)
  keep-All P p [] h = tt
  keep-All P p (x ∷ xs) h = elim (Bool-cases (p x)) [
    | inl hit ↦ rw hit (h.0, keep-All P p xs h.1)
    | inr miss ↦ rw miss (keep-All P p xs h.1)
  ]

  pub any_of_find?-none : (p : A → Bool) (xs : List A) → find? p xs ≡ none → any p xs ≡ false
  any_of_find?-none p [] h = refl
  any_of_find?-none p (x ∷ xs) h = ground (arith, any_of_find?-none p xs)

  pub any_of_find?-some :
      (p : A → Bool) (xs : List A) (x : A) → find? p xs ≡ some x → any p xs ≡ true
  any_of_find?-some p [] x h = cc
  any_of_find?-some p (y ∷ xs) x h = ground (arith, any_of_find?-some p xs x)

  pub find?_of_any :
      (p : A → Bool) (xs : List A) → any p xs ≡ true → (x : A) × (find? p xs ≡ some x)
  find?_of_any p [] h = absurd (cc)
  find?_of_any p (y ∷ xs) h = elim (Bool-cases (p y)) [
    | inl hit ↦ (y, rw (hit) refl)
    | inr miss ↦ let (x, found) = find?_of_any p xs (ground arith) in (x, rw (miss) found)
  ]

  pub count_if_of_any : (p : A → Bool) (xs : List A) → any p xs ≡ false → count_if p xs ≡ 0
  count_if_of_any p [] h = refl
  count_if_of_any p (x ∷ xs) h = ground (arith, count_if_of_any p xs)

  pub any_of_count_if : (p : A → Bool) (xs : List A) → count_if p xs ≡ 0 → any p xs ≡ false
  any_of_count_if p [] h = refl
  any_of_count_if p (x ∷ xs) h = ground (arith, any_of_count_if p xs)

  -- A condition that two columns decide holds of a row that was found.
  pub All-map {κ μ} :
      (P : A → Type κ) (Q : A → Type μ) (xs : List A) → ((a : A) → P a → Q a) → All P xs → All Q xs
  All-map P Q [] k h = tt
  All-map P Q (x ∷ xs) k h = (k x h.0, All-map P Q xs k h.1)

-- No two rows have one key.
module _ {ℓ} {A : Type ℓ} (key : A → ℕ) where
  abbrev pub IsKeyed : List A → Type 0
  IsKeyed [] = Unit
  IsKeyed (x ∷ xs) = All (λ y. key y ≢ key x) xs × IsKeyed xs

  -- An update that leaves the keys alone.
  pub update_where-ne :
      (k : ℕ) (f : A → A) (xs : List A)
      → All (λ y. key y ≢ k) xs
      → update_where (λ y. key y == k) f xs ≡ xs
  update_where-ne k f [] h = refl
  update_where-ne k f (x ∷ xs) h = ground (arith, update_where-ne k f xs h.1)

  key-if :
      (p : A → Bool) (f : A → A) (x : A)
      → (p x ≡ true → key (f x) ≡ key x)
      → key (if p x then f x else x) ≡ key x
  key-if p f x k = elim (Bool-cases (p x)) [ inl hit ↦ rw hit (k hit) | inr miss ↦ rw miss refl ]

  pub All-update_ne :
      (n : ℕ) (p : A → Bool) (f : A → A) (xs : List A)
      → ((a : A) → p a ≡ true → key (f a) ≡ key a)
      → All (λ y. key y ≢ n) xs
      → All (λ y. key y ≢ n) (update_where p f xs)
  All-update_ne n p f xs k h =
      All-update_where (λ y. key y ≢ n) p f xs (λ a ne hit e. ne (omega (arith, k a hit))) h

  pub update_where-IsKeyed :
      (p : A → Bool) (f : A → A) (xs : List A)
      → ((a : A) → p a ≡ true → key (f a) ≡ key a)
      → IsKeyed xs
      → IsKeyed (update_where p f xs)
  update_where-IsKeyed p f [] k h = tt
  update_where-IsKeyed p f (x ∷ xs) k h = (
    rw (key-if p f x (k x)) (All-update_ne (key x) p f xs k h.0),
    update_where-IsKeyed p f xs k h.1,
  )

  -- A row that was found is the only one with its key.
  pub find?-ne :
      (n : ℕ) (p : A → Bool) (xs : List A) (e : A)
      → All (λ y. key y ≢ n) xs
      → find? p xs ≡ some e
      → key e ≢ n
  find?-ne n p xs e h = All-find? (λ y. key y ≢ n) p xs e h

  -- Saving a row that was found, under its key, keeps every count whose test it passes as before.
  pub count_if-save :
      (q p : A → Bool) (e new : A) (xs : List A)
      → IsKeyed xs
      → find? p xs ≡ some e
      → q new ≡ q e
      → count_if q (update_where (λ y. key y == key e) (λ _. new) xs) ≡ count_if q xs
  count_if-save q p e new [] h found same = refl
  count_if-save q p e new (x ∷ xs) h found same = elim (Bool-cases (p x)) [
    | inl hit ↦
        let top : x ≡ e = ground arith in
        let rest : All (λ y. key y ≢ key e) xs = subst (λ z. All (λ y. key y ≢ key z) xs) top h.0 in
        rw (update_where-ne (key e) (λ _. new) xs rest, top) (ground arith)
    | inr miss ↦
        let below : find? p xs ≡ some e = ground arith in
        let ne : key e ≢ key x = find?-ne (key x) p xs e h.0 below in
        ground (arith, count_if-save q p e new xs h.1 below same)
  ]

-- An update that the test does not see is found where the old row was.
module _ {ℓ} {A : Type ℓ} (p : A → Bool) (f : A → A) (same : (a : A) → p (f a) ≡ p a) where
  pub find?-update_where :
      (xs : List A) (x : A) → find? p xs ≡ some x → find? p (update_where p f xs) ≡ some (f x)
  find?-update_where [] x h = cc
  find?-update_where (y ∷ xs) x h = elim (Bool-cases (p y)) [
    | inl hit ↦ let top : y ≡ x = ground arith in rw (hit) (rw (same y, hit) (rw (top) refl))
    | inr miss ↦
        let below : find? p xs ≡ some x = ground arith in
        rw (miss) (rw (miss) (find?-update_where xs x below))
  ]

-- Rows that were dropped are not found.
pub find?-keep {ℓ} :
    {A : Type ℓ} (p q : A → Bool) (xs : List A)
    → find? (λ x. p x && q x) (keep (λ x. not (p x)) xs) ≡ none
find?-keep p q [] = refl
find?-keep p q (x ∷ xs) = elim (Bool-cases (p x)) [
  | inl hit ↦ rw (hit) (find?-keep p q xs)
  | inr miss ↦ rw (miss) (rw (miss) (find?-keep p q xs))
]
