-- ===== src/Srs/Double.antt =====
-- The IEEE doubles that sm2.util.ts computes with, as numbers of units of 2^-58. All of them are 0,
-- or differences of such, or at least 0.02, so each is a whole number of units; the ones that occur
-- are far below the largest double. An operation rounds its exact result to 53 bits, a tie to the
-- even one.
use bondzi_backend.Prelude.{
  ℕ, zero, suc, ◌+◌, ◌*◌, ◌/◌, ◌%◌, ◌^◌, ◌≤◌, ◌<◌, ◌≡◌, ◌⊎◌, inl, inr, refl, true, false, ◌&&◌,
  ◌||◌, ltb, ◌==◌, if◌then◌else◌, Bool-cases, arith,
}

-- 1.0
abbrev pub one : ℕ
one = 2 ^ 58

-- the spacing of the doubles at `n`: doubled until 53 bits are enough
unfoldable pub spacing : ℕ → ℕ → ℕ → ℕ
spacing zero n u = u
spacing (suc fuel) n u = elim (ltb n (2 ^ 53 * u)) [ true ↦ u | false ↦ spacing fuel n (2 * u) ]

-- the multiple of `u` next to `n`
unfoldable pub nearest : ℕ → ℕ → ℕ
nearest u n =
    let q = n / u in
    let r = n % u in if ltb (2 * r) u || (2 * r == u && q % 2 == 0) then q * u else (q + 1) * u

unfoldable pub round : ℕ → ℕ
unfolding spacing nearest
round n = nearest (spacing n n 1) n

-- `Math.round`: to the next whole number, halves up
abbrev pub math_round : ℕ → ℕ
math_round x = (x + 2 ^ 57) / one

-- as near as `tolerance`
abbrev pub Near : ℕ → ℕ → ℕ → Type 0
Near a b tolerance = (a ≤ b + tolerance) × (b ≤ a + tolerance)

abbrev IsFine : ℕ → ℕ → Type 0
IsFine n u = (1 ≤ u) × ((u ≡ 1) ⊎ (2 ^ 52 * u ≤ n))

spacing-IsFine : (fuel n u : ℕ) → IsFine n u → IsFine n (spacing fuel n u)
unfolding spacing
spacing-IsFine zero n u h = h
spacing-IsFine (suc fuel) n u h = elim (Bool-cases (ltb n (2 ^ 53 * u))) [
  | inl fits ↦ rw (fits, spacing) h
  | inr more ↦
      rw (more, spacing) (spacing-IsFine fuel n (2 * u) (omega (arith, h.0), inr (ground arith)))
]

-- The rounds are enough: 53 bits hold the result.
spacing-fits : (fuel n u : ℕ) → 1 ≤ u → n < fuel + u → n < 2 ^ 53 * spacing fuel n u
unfolding spacing
spacing-fits zero n u pos h = omega arith
spacing-fits (suc fuel) n u pos h = elim (Bool-cases (ltb n (2 ^ 53 * u))) [
  | inl fits ↦ rw (fits, spacing) (ground arith)
  | inr more ↦ rw (more, spacing) (spacing-fits fuel n (2 * u) (omega arith) (omega arith))
]

nearest-Near : (u n : ℕ) → 1 ≤ u → Near (2 * nearest u n) (2 * n) u
unfolding nearest
nearest-Near u n pos = (grind arith, grind arith)

-- A rounded number is off by one part in 2^53 at most.
pub round-Near : (n : ℕ) → Near (2 ^ 53 * round n) (2 ^ 53 * n) n
unfolding round
round-Near n =
    let fine = spacing-IsFine n n 1 (omega arith, inl refl) in
    let near = nearest-Near (spacing n n 1) n fine.0 in
    elim fine.1 [
      | inl unit ↦ rw (unit) (omega (arith, rw (unit) at near.0, rw (unit) at near.1))
      | inr wide ↦ (omega arith, omega arith)
    ]
