-- ===== src/Billing/Entitlement/Best.antt =====
-- The order of the query of `entitlementFor`, and the rows that it joins.
use mathlib.Core.Path.{subst}
use bondzi_backend.Prelude.{
  ◌≡◌, refl, Bool, true, false, none, some, List, [], ◌∷◌, inl, inr, keep, All, keep-All,
  Bool-cases, Option-cases, arith,
}
use bondzi_backend.Enums.{ExamType}
use bondzi_backend.Plans.{Plan}
use bondzi_backend.Billing.{Subscription}
use bondzi_backend.Billing.Entitlement.{Candidate, account_on, candidates, outranks, best}

-- no row of the list comes before this one
abbrev pub IsFirst : Candidate → List Candidate → Type 0
IsFirst d cs = All (λ x. outranks x d ≡ false) cs

outranks_irrefl : (c : Candidate) → outranks c c ≡ false
outranks_irrefl c = ground arith

outranks_asymm : (c d : Candidate) → outranks d c ≡ true → outranks c d ≡ false
outranks_asymm c d h = ground arith

outranks_trans :
    (x d c : Candidate) → outranks x d ≡ false → outranks d c ≡ false → outranks x c ≡ false
outranks_trans x d c p q = ground arith

IsFirst-trans :
    (d c : Candidate) (cs : List Candidate) → outranks d c ≡ false → IsFirst d cs → IsFirst c cs
IsFirst-trans d c [] q h = tt
IsFirst-trans d c (x ∷ cs) q h = (outranks_trans x d c h.0 q, IsFirst-trans d c cs q h.1)

pub best-none : (cs : List Candidate) → best cs ≡ none → cs ≡ []
unfolding best
best-none [] h = refl
best-none (c ∷ cs) h = elim (Option-cases (best cs)) [
  | inl e ↦ ground arith
  | inr (d, e) ↦ ground arith
]

-- a property of every candidate holds of the best
pub best-All :
    (P : Candidate → Type 0) (cs : List Candidate) (d : Candidate)
    → All P cs
    → best cs ≡ some d
    → P d
unfolding best
best-All P [] d all h = cc
best-All P (c ∷ cs) d all h = elim (Option-cases (best cs)) [
  | inl e ↦ let same : c ≡ d = ground arith in subst P same all.0
  | inr (x, e) ↦ elim (Bool-cases (outranks x c)) [
    | inl o ↦ let same : x ≡ d = ground arith in subst P same (best-All P cs x all.1 e)
    | inr o ↦ let same : c ≡ d = ground arith in subst P same all.0
  ]
]

pub best-IsFirst : (cs : List Candidate) (d : Candidate) → best cs ≡ some d → IsFirst d cs
unfolding best
best-IsFirst [] d h = tt
best-IsFirst (c ∷ cs) d h = elim (Option-cases (best cs)) [
  | inl e ↦
      let same : c ≡ d = ground arith in
      let nil : cs ≡ [] = best-none cs e in rw nil (rw (same) (outranks_irrefl d), tt)
  | inr (x, e) ↦ elim (Bool-cases (outranks x c)) [
    | inl o ↦
        let same : x ≡ d = ground arith in
        subst (λ y. IsFirst y (c ∷ cs)) same (outranks_asymm c x o, best-IsFirst cs x e)
    | inr o ↦
        let same : c ≡ d = ground arith in
        subst (λ y. IsFirst y (c ∷ cs)) same
          (outranks_irrefl c, IsFirst-trans x c cs o (best-IsFirst cs x e))
  ]
]

-- the candidate of a row of the table
abbrev pub IsJoined : (Subscription → Bool) → List Plan → ExamType → Candidate → Type 0
IsJoined test plans level c = (test c.sub ≡ true) × (account_on plans level c.sub ≡ some c.account)

pub candidates-IsJoined :
    (test : Subscription → Bool) (plans : List Plan) (level : ExamType) (P : Subscription → Type 0)
    (subs : List Subscription)
    → All P subs
    → All (λ c. P c.sub × IsJoined test plans level c) (candidates test plans level subs)
unfolding candidates
candidates-IsJoined test plans level P [] h = tt
candidates-IsJoined test plans level P (s ∷ subs) h =
    let rest = candidates-IsJoined test plans level P subs h.1 in
    elim (Option-cases (account_on plans level s)) [
      | inl e ↦ rw (e, candidates) rest
      | inr (a, e) ↦ elim (Bool-cases (test s)) [
        | inl t ↦ rw (e, t, candidates) ((h.0, (t, e)), rest)
        | inr t ↦ rw (e, t, candidates) rest
      ]
    ]

-- The best row stays the best when other rows drop out.
pub best-keep :
    (q : Candidate → Bool) (cs : List Candidate) (d : Candidate)
    → best cs ≡ some d
    → q d ≡ true
    → best (keep q cs) ≡ some d
unfolding best
best-keep q [] d h k = cc
best-keep q (c ∷ cs) d h k = elim (Option-cases (best cs)) [
  | inl e ↦
      let same : c ≡ d = ground arith in
      let nil : cs ≡ [] = best-none cs e in rw (nil, same, k) refl
  | inr (x, e) ↦ elim (Bool-cases (outranks x c)) [
    | inl o ↦
        let same : x ≡ d = ground arith in
        let below : best (keep q cs) ≡ some x = best-keep q cs x e (rw same k) in
        elim (Bool-cases (q c)) [
          | inl t ↦ rw (t, below, o, same, best) refl
          | inr f ↦ rw (f, below, same) refl
        ]
    | inr o ↦
        let same : c ≡ d = ground arith in
        let k' : q c ≡ true = rw same k in
        elim (Option-cases (best (keep q cs))) [
          | inl none_left ↦ rw (k', none_left, same, best) refl
          | inr (y, left) ↦
              let first : IsFirst x (keep q cs) =
                keep-All (λ z. outranks z x ≡ false) q cs (best-IsFirst cs x e) in
              let worse : outranks y x ≡ false =
                best-All (λ z. outranks z x ≡ false) (keep q cs) y first left in
              let last : outranks y c ≡ false = outranks_trans y x c worse o in
              rw (k', left, last, same, best) refl
        ]
  ]
]
