-- ===== src/Billing/Entitlement/Stale.antt =====
-- The cache of `entitlementFor` while the tables do not change.
use mathlib.Core.List.{Memᴰ}
use bondzi_backend.Prelude.{
  ℕ, ◌+◌, ◌*◌, ◌≤◌, ◌≡◌, refl, ◌∙◌, ap, true, not, ◌&&◌, none, some, List, [], ◌∷◌, inl, inr,
  Bool-cases, Option-cases, arith, find?, keep, if◌then◌else◌, ltb, ==_refl,
}
use bondzi_backend.Enums.{level_eq_refl, ExamType}
use bondzi_backend.Plans.{Plan}
use bondzi_backend.Billing.{Subscription, Grant, CacheEntry, Store, not_expired}
use bondzi_backend.Billing.Entitlement.{
  account_on, is_granting, candidates, best, still_valid, has_entry, cached, store_entry, grant_of,
  resolve, fill, entitlement_for,
}
use bondzi_backend.Billing.Entitlement.Fresh.{All-Mem}
use bondzi_backend.Billing.Entitlement.Best.{
  IsJoined, best-keep, best-All, best-none, candidates-IsJoined,
}

is_granting_earlier :
    (user t now : ℕ) (s : Subscription)
    → t ≤ now
    → is_granting user now s ≡ true
    → is_granting user t s ≡ true
is_granting_earlier user t now s le h = ground arith

is_granting_while_live :
    (user t now : ℕ) (s : Subscription)
    → is_granting user t s ≡ true
    → not_expired s.expires_at now ≡ true
    → is_granting user now s ≡ true
is_granting_while_live user t now s h live = ground arith

candidates_later :
    (plans : List Plan) (level : ExamType) (user t now : ℕ) (subs : List Subscription)
    → t ≤ now
    → candidates (is_granting user now) plans level subs
      ≡ keep (λ c. is_granting user now c.sub) (candidates (is_granting user t) plans level subs)
unfolding candidates
candidates_later plans level user t now [] le = refl
candidates_later plans level user t now (s ∷ subs) le =
    let rest = candidates_later plans level user t now subs le in
    elim (Option-cases (account_on plans level s)) [
      | inl e ↦ rw (e, candidates) rest
      | inr (a, e) ↦ elim (Bool-cases (is_granting user now s)) [
        | inl g ↦
            let g' = is_granting_earlier user t now s le g in
            rw (e, g, g', g, candidates) (ap (λ cs. record { sub = s; account = a } ∷ cs) rest)
        | inr g ↦ elim (Bool-cases (is_granting user t s)) [
          | inl g' ↦ rw (e, g, g', g, candidates) rest
          | inr g' ↦ rw (e, g, g', candidates) rest
        ]
      ]
    ]

-- what a grant says of its row
abbrev pub SameRow : Grant → Grant → Type 0
SameRow g h =
    (g.account ≡ h.account)
    × (g.expires_at ≡ h.expires_at)
    × (g.subscription_id ≡ h.subscription_id)
    × (g.is_cancelled ≡ h.is_cancelled)

-- Time only takes rows away: a grant that has not expired yet still comes from the best row.
resolve_later :
    (plans : List Plan) (subs : List Subscription) (user : ℕ) (level : ExamType) (t now : ℕ)
    → t ≤ now
    → not_expired (resolve plans subs user level t).expires_at now ≡ true
    → SameRow (resolve plans subs user level t) (resolve plans subs user level now)
unfolding resolve grant_of best
resolve_later plans subs user level t now le live =
    let later = candidates_later plans level user t now subs le in
    elim (Option-cases (best (candidates (is_granting user t) plans level subs))) [
      | inl e ↦
          let nil = best-none _ e in
          let nil' : candidates (is_granting user now) plans level subs ≡ [] =
            later ∙ ap (λ cs. keep (λ c. is_granting user now c.sub) cs) nil in
          rw (nil, nil', resolve) (refl, refl, refl, refl)
      | inr (c, e) ↦
          let joined =
            best-All (λ c. Memᴰ c.sub subs × IsJoined (is_granting user t) plans level c) _ c
              (candidates-IsJoined (is_granting user t) plans level (λ s. Memᴰ s subs) subs
                (All-Mem subs))
              e in
          let live' : not_expired c.sub.expires_at now ≡ true = rw (e, resolve) at live in
          let still = is_granting_while_live user t now c.sub joined.1.0 live' in
          let e' : best (candidates (is_granting user now) plans level subs) ≡ some c =
            ap best later ∙ best-keep (λ c. is_granting user now c.sub) _ c e still in
          rw (e, e', resolve) (refl, refl, refl, refl)
    ]

find?-replaced :
    (user now : ℕ) (level : ExamType) (es : List CacheEntry)
    → find?
        (λ e. has_entry user level e && ltb now e.until)
        (keep (λ e. not (has_entry user level e)) es)
      ≡ none
find?-replaced user now level [] = refl
find?-replaced user now level (e ∷ es) = elim (Bool-cases (has_entry user level e)) [
  | inl h ↦ rw (h) (find?-replaced user now level es)
  | inr h ↦ rw (h, h) (find?-replaced user now level es)
]

pub cached-store_entry :
    (user t now : ℕ) (level : ExamType) (g : Grant) (until : ℕ) (es : List CacheEntry)
    → cached user level now (store_entry user level g until es)
      ≡ (if ltb now until then some g else none)
cached-store_entry user t now level g until es = elim (Bool-cases (ltb now until)) [
  | inl h ↦ rw (==_refl user, level_eq_refl level, h, cached) refl
  | inr h ↦ rw (==_refl user, level_eq_refl level, h, find?-replaced user now level es, cached) refl
]

valid_of_live :
    (g : Grant) (now : ℕ)
    → not_expired g.expires_at now ≡ true
    → still_valid g.account g.expires_at now ≡ true
valid_of_live g now h = ground arith

-- the tables after an answer that the cache did not have
abbrev pub filled : ℕ → ExamType → ℕ → Store → Store
filled user level t s = record s {
  cache = store_entry user level (resolve s.plans s.subs user level t) (t + 600 * 1000) s.cache;
}

pub filled_store :
    (user t : ℕ) (level : ExamType) (s : Store)
    → cached user level t s.cache ≡ none
    → (entitlement_for user level t s).1 ≡ filled user level t s
unfolding entitlement_for fill
filled_store user t level s miss = rw (miss, entitlement_for) refl

entitlement_for-filled :
    (user t now : ℕ) (level : ExamType) (s : Store)
    → t ≤ now
    → not_expired (resolve s.plans s.subs user level t).expires_at now ≡ true
    → SameRow
        (entitlement_for user level now (filled user level t s)).0
        (resolve s.plans s.subs user level now)
unfolding entitlement_for fill
entitlement_for-filled user t now level s le live =
    let g = resolve s.plans s.subs user level t in
    let found = cached-store_entry user t now level g (t + 600 * 1000) s.cache in
    elim (Bool-cases (ltb now (t + 600 * 1000))) [
      | inl h ↦
          let hit : cached user level now (store_entry user level g (t + 600 * 1000) s.cache)
              ≡ some g =
            found ∙ rw h refl in
          rw (hit, valid_of_live g now live, entitlement_for)
            (resolve_later s.plans s.subs user level t now le live)
      | inr h ↦
          let miss : cached user level now (store_entry user level g (t + 600 * 1000) s.cache)
              ≡ none =
            found ∙ rw h refl in
          rw (miss, entitlement_for) (refl, refl, refl, refl)
    ]

-- While the tables do not change, an answer that was put in the cache and has not expired is what
-- the tables would say now.
entitlement_for_again :
    (user t now : ℕ) (level : ExamType) (s : Store)
    → cached user level t s.cache ≡ none
    → t ≤ now
    → not_expired (entitlement_for user level t s).0.expires_at now ≡ true
    → SameRow
        (entitlement_for user level now (entitlement_for user level t s).1).0
        (resolve s.plans s.subs user level now)
unfolding entitlement_for fill
entitlement_for_again user t now level s miss le live =
    rw (filled_store user t level s miss)
      (entitlement_for-filled user t now level s le (rw (miss, entitlement_for) at live))
