-- ===== src/Billing/Entitlement/Cached.antt =====
-- `entitlementFor` with its cache.
use bondzi_backend.Prelude.{
  ℕ, ◌≡◌, refl, ◌⊎◌, true, not, ◌&&◌, none, List, [], ◌∷◌, inl, inr, Bool-cases, Option-cases,
  arith, find?, keep, ltb, ◌==◌,
}
use bondzi_backend.Enums.{ExamType, free}
use bondzi_backend.Billing.{Grant, CacheEntry, Store, not_expired, invalidate_cache}
use bondzi_backend.Billing.Entitlement.{
  still_valid, has_entry, cached, resolve, fill, entitlement_for,
}
use bondzi_backend.Billing.Entitlement.Fresh.{resolve_live}

find?-dropped :
    (user now : ℕ) (level : ExamType) (es : List CacheEntry)
    → find?
        (λ e. has_entry user level e && ltb now e.until)
        (keep (λ e. not (e.user_id == user)) es)
      ≡ none
find?-dropped user now level [] = refl
find?-dropped user now level (e ∷ es) = elim (Bool-cases (e.user_id == user)) [
  | inl h ↦ rw (h) (find?-dropped user now level es)
  | inr h ↦ rw (h, h) (find?-dropped user now level es)
]

-- After the user's cache is dropped, the tables answer.
pub entitlement_for-invalidate_cache :
    (user now : ℕ) (level : ExamType) (s : Store)
    → (entitlement_for user level now (invalidate_cache user s)).0
      ≡ resolve s.plans s.subs user level now
unfolding entitlement_for fill
entitlement_for-invalidate_cache user now level s =
    rw (find?-dropped user now level s.cache, entitlement_for) refl

live_of_valid :
    (g : Grant) (now : ℕ)
    → still_valid g.account g.expires_at now ≡ true
    → (g.account ≡ free) ⊎ (not_expired g.expires_at now ≡ true)
live_of_valid g now h = ground arith

-- Whatever the cache holds, the answer is the free account or a grant that has not expired.
entitlement_for_live :
    (user now : ℕ) (level : ExamType) (s : Store)
    → ((entitlement_for user level now s).0.account ≡ free)
      ⊎ (not_expired (entitlement_for user level now s).0.expires_at now ≡ true)
unfolding entitlement_for fill
entitlement_for_live user now level s = elim (Option-cases (cached user level now s.cache)) [
  | inl e ↦ rw (e, entitlement_for) (inr (resolve_live s.plans s.subs user level now))
  | inr (g, e) ↦ elim (Bool-cases (still_valid g.account g.expires_at now)) [
    | inl v ↦ rw (e, v, entitlement_for) (live_of_valid g now v)
    | inr v ↦ rw (e, v, entitlement_for) (inr (resolve_live s.plans s.subs user level now))
  ]
]
