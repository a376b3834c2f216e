-- ===== src/Billing/Entitlement/Fresh.antt =====
-- `entitlementFor` on a cold cache: which row of the table grants, and when none does.
use mathlib.Core.Path.{subst, sym}
use mathlib.Core.List.{Memᴰ}
use mathlib.Core.List.Memᴰ.{head, tail}
use native.Mathlib.Decide.{dec_lt}
use bondzi_backend.Prelude.{
  ℕ, ◌≤◌, ◌<◌, ◌≡◌, refl, ap, ◌∙◌, ◌⊎◌, Bool, true, false, none, some, List, [], ◌∷◌, inl, inr, All,
  All-map, Bool-cases, Option-cases, arith, find?,
}
use bondzi_backend.Enums.{ExamType, AccountType}
use bondzi_backend.Plans.{Plan}
use bondzi_backend.Billing.{Subscription, Grant, not_expired}
use bondzi_backend.Billing.Entitlement.{
  Candidate, account_rank, account_on, is_granting, candidates, outranks, expires_after, best,
  free_grant, grant_of, resolve,
}
use bondzi_backend.Billing.Entitlement.Best.{
  IsJoined, best-All, best-IsFirst, best-none, candidates-IsJoined,
}

pub All-Mem : (xs : List Subscription) → All (λ s. Memᴰ s xs) xs
All-Mem [] = tt
All-Mem (x ∷ xs) =
    (head refl, All-map (λ s. Memᴰ s xs) (λ s. Memᴰ s (x ∷ xs)) xs (λ s m. tail m) (All-Mem xs))

pub Mem-find? :
    (p : Subscription → Bool) (xs : List Subscription) (s : Subscription)
    → find? p xs ≡ some s
    → Memᴰ s xs
Mem-find? p [] s h = cc
Mem-find? p (x ∷ xs) s h = elim (Bool-cases (p x)) [
  | inl hit ↦ head (ground arith)
  | inr miss ↦ tail (Mem-find? p xs s (ground arith))
]

-- A row that passes and whose plan is on the level is a candidate.
candidates-All :
    (test : Subscription → Bool) (plans : List Plan) (level : ExamType) (Q : Candidate → Type 0)
    (subs : List Subscription) (s : Subscription) (a : AccountType)
    → All Q (candidates test plans level subs)
    → Memᴰ s subs
    → test s ≡ true
    → account_on plans level s ≡ some a
    → Q (record { sub = s; account = a })
unfolding candidates
candidates-All test plans level Q [] s a all m t h = elim m [ ]
candidates-All test plans level Q (x ∷ subs) s a all (head e) t h =
    let h' : account_on plans level x ≡ some a = rw (sym e) h in
    let t' : test x ≡ true = rw (sym e) t in
    let now = rw (h', t', candidates) at all in
    subst (λ y. Q (record { sub = y; account = a })) (sym e) now.0
candidates-All test plans level Q (x ∷ subs) s a all (tail m) t h =
    elim (Option-cases (account_on plans level x)) [
      | inl e ↦ candidates-All test plans level Q subs s a (rw (e, candidates) at all) m t h
      | inr (b, e) ↦ elim (Bool-cases (test x)) [
        | inl u ↦
            let now = rw (e, u, candidates) at all in
            candidates-All test plans level Q subs s a now.1 m t h
        | inr u ↦ candidates-All test plans level Q subs s a (rw (e, u, candidates) at all) m t h
      ]
    ]

not_outranked :
    (s : Subscription) (a : AccountType) (c : Candidate)
    → outranks (record { sub = s; account = a }) c ≡ false
    → (account_rank a < account_rank c.account)
      ⊎ ((account_rank a ≡ account_rank c.account)
          × (expires_after s.expires_at c.sub.expires_at ≡ false))
not_outranked s a c h = elim (dec_lt (account_rank a) (account_rank c.account)) [
  | yes lt ↦ inl lt
  | no ge ↦
      let same : account_rank a ≡ account_rank c.account = ground arith in inr (same, ground arith)
]

module _ (plans : List Plan) (subs : List Subscription) (user : ℕ) (level : ExamType)
    (now : ℕ) where
  -- The row stands in the table, grants now, and its plan is on the level.
  abbrev pub Grants : Candidate → Type 0
  Grants c = Memᴰ c.sub subs × IsJoined (is_granting user now) plans level c

  -- no granting row comes before this one in the order of the query
  abbrev pub IsTop : Candidate → Type 0
  IsTop c =
      (s : Subscription) (a : AccountType)
      → Memᴰ s subs
      → is_granting user now s ≡ true
      → account_on plans level s ≡ some a
      → outranks (record { sub = s; account = a }) c ≡ false

  abbrev pub IsGrantOf : Candidate → Grant → Type 0
  IsGrantOf c g =
      (g.account ≡ c.account)
      × (g.expires_at ≡ c.sub.expires_at)
      × (g.subscription_id ≡ some c.sub.id)

  rows : List Candidate
  rows = candidates (is_granting user now) plans level subs

  rows-none :
      best rows ≡ none
      → (s : Subscription) → Memᴰ s subs
      → is_granting user now s ≡ true
      → account_on plans level s ≡ none
  unfolding rows
  rows-none h s m t = elim (Option-cases (account_on plans level s)) [
    | inl e ↦ e
    | inr (a, e) ↦
        let nil : rows ≡ [] = best-none rows h in
        candidates-All (is_granting user now) plans level (λ c. account_on plans level s ≡ none)
          subs s a (rw nil tt) m t e
  ]

  rows-some : (c : Candidate) → best rows ≡ some c → Grants c × IsTop c
  unfolding rows
  rows-some c h = (
    best-All Grants rows c
        (candidates-IsJoined (is_granting user now) plans level (λ s. Memᴰ s subs) subs
          (All-Mem subs))
        h,
    λ s a m t e.
        candidates-All (is_granting user now) plans level (λ x. outranks x c ≡ false) subs s a
          (best-IsFirst rows c h) m t e,
  )

  -- the first granting row, or the free grant when no row on the level grants
  pub resolve_lem :
      ((c : Candidate) × (Grants c × IsTop c × IsGrantOf c (resolve plans subs user level now)))
      ⊎ ((resolve plans subs user level now ≡ free_grant)
          × ((s : Subscription)
              → Memᴰ s subs
              → is_granting user now s ≡ true
              → account_on plans level s ≡ none))
  unfolding resolve rows grant_of
  resolve_lem = elim (Option-cases (best rows)) [
    | inl e ↦ inr (rw (e) refl, rows-none e)
    | inr (c, e) ↦
        let (g, t) = rows-some c e in inl (c, (g, t, (rw (e) refl, rw (e) refl, rw (e) refl)))
  ]

  -- On a cold cache no granting row of the table is better than the grant: it has a lower account,
  -- or the same one and no later expiry, where no expiry is the latest.
  pub resolve_top :
      (s : Subscription) (a : AccountType)
      → Memᴰ s subs
      → is_granting user now s ≡ true
      → account_on plans level s ≡ some a
      → (account_rank a < account_rank (resolve plans subs user level now).account)
        ⊎ ((account_rank a ≡ account_rank (resolve plans subs user level now).account)
            × (expires_after s.expires_at (resolve plans subs user level now).expires_at ≡ false))
  resolve_top s a m t e = elim resolve_lem [
    | inl (c, (_, top, (same, until, _))) ↦
        let o = top s a m t e in rw (same, until) (not_outranked s a c o)
    | inr (_, nothing) ↦ let no = nothing s m t in ground arith
  ]

  -- A granting row gives at least the account of its plan.
  pub resolve-le :
      (s : Subscription) (a : AccountType)
      → Memᴰ s subs
      → is_granting user now s ≡ true
      → account_on plans level s ≡ some a
      → account_rank a ≤ account_rank (resolve plans subs user level now).account
  resolve-le s a m t e = elim (resolve_top s a m t e) [
    | inl lt ↦ omega arith
    | inr (eq, _) ↦ omega arith
  ]

  -- A paid grant is that of a row of the table which grants now and whose plan is on the level: the
  -- grant has the row's id, its expiry and its plan's account.
  resolve_paid :
      1 ≤ account_rank (resolve plans subs user level now).account
      → (s : Subscription) × Memᴰ s subs
        × (is_granting user now s ≡ true)
        × (account_on plans level s ≡ some (resolve plans subs user level now).account)
        × ((resolve plans subs user level now).expires_at ≡ s.expires_at)
        × ((resolve plans subs user level now).subscription_id ≡ some s.id)
  resolve_paid paid = elim resolve_lem [
    | inl (c, ((m, (t, on)), _, (same, until, id))) ↦
        (c.sub, m, t, on ∙ ap some (sym same), until, id)
    | inr (same, _) ↦ let no = rw same at paid in absurd (omega arith)
  ]

  -- A paid grant never comes from a row that has expired.
  pub resolve_live : not_expired (resolve plans subs user level now).expires_at now ≡ true
  resolve_live = elim resolve_lem [
    | inl (c, ((_, (t, _)), _, (_, same, _))) ↦ rw same (ground arith)
    | inr (same, _) ↦ rw same refl
  ]
