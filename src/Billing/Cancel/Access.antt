-- ===== src/Billing/Cancel/Access.antt =====
-- `cancel` and the entitlement of the user.
use bondzi_backend.Prelude.{
  ℕ, ◌≡◌, ◌≢◌, refl, sym, ap, ◌∙◌, Bool, true, not, Option, none, some, List, [], ◌∷◌, map, inl,
  inr, if◌then◌else◌, Bool-cases, Option-cases, ◌==◌, ==_refl, arith, find?, find?-passes,
  update_where, All, All-map, IsKeyed, find?-ne, Result-cases, ok, or_else, any, ltb, ok_inj,
}
use bondzi_backend.Enums.{ExamType}
use bondzi_backend.Plans.{Plan, is_one_time}
use bondzi_backend.Billing.{
  Subscription, Store, with_id, invalidate_cache, is_access_status, is_cancelled_status, plan_of,
  plan_matches,
}
use bondzi_backend.Billing.Entitlement.{
  Candidate, account_on, is_granting, candidates, outranks, best, grant_of, resolve,
  entitlement_for,
}
use bondzi_backend.Billing.Entitlement.Best.{IsJoined, best-All, candidates-IsJoined}
use bondzi_backend.Billing.Entitlement.Cached.{entitlement_for-invalidate_cache}
use bondzi_backend.Billing.Cancel.{
  level_of, is_live_on, is_target, cancelled_row, cancel_row, cancel_target, cancel,
}

-- the row in the place of the one with its id
abbrev swap : Subscription → Subscription → Subscription
swap row x = if with_id row.id x then row else x

abbrev swap_in : Subscription → Candidate → Candidate
swap_in row c = record { sub = swap row c.sub; account = c.account }

-- A row that grants as before, when it takes the place of the one with its id.
abbrev IsAlike : (Subscription → Bool) → List Plan → ExamType → Subscription → Subscription → Type 0
IsAlike test plans level row x =
    (test (swap row x) ≡ test x) × (account_on plans level (swap row x) ≡ account_on plans level x)

candidates-swap :
    (test : Subscription → Bool) (plans : List Plan) (level : ExamType) (row : Subscription)
    (subs : List Subscription)
    → All (IsAlike test plans level row) subs
    → candidates test plans level (update_where (with_id row.id) (λ _. row) subs)
      ≡ map (swap_in row) (candidates test plans level subs)
unfolding candidates
candidates-swap test plans level row [] h = refl
candidates-swap test plans level row (s ∷ subs) h =
    let rest = candidates-swap test plans level row subs h.1 in
    elim (Option-cases (account_on plans level s)) [
      | inl e ↦ rw (h.0.1, e, candidates) rest
      | inr (a, e) ↦ elim (Bool-cases (test s)) [
        | inl t ↦
            rw (h.0.1, e, h.0.0, t, candidates)
              (ap (λ cs. record { sub = swap row s; account = a } ∷ cs) rest)
        | inr t ↦ rw (h.0.1, e, h.0.0, t, candidates) rest
      ]
    ]

-- what the order of the query reads of a row
abbrev KeepsRank : (Candidate → Candidate) → Candidate → Type 0
KeepsRank f c = ((f c).account ≡ c.account) × ((f c).sub.expires_at ≡ c.sub.expires_at)

outranks-keep :
    (f : Candidate → Candidate) (c d : Candidate)
    → KeepsRank f c
    → KeepsRank f d
    → outranks (f d) (f c) ≡ outranks d c
outranks-keep f c d k l = rw (k.0, k.1, l.0, l.1) refl

best-map :
    (f : Candidate → Candidate) (cs : List Candidate)
    → All (KeepsRank f) cs
    → best (map f cs) ≡ (elim (best cs) [ none ↦ none | some d ↦ some (f d) ])
unfolding best
best-map f [] k = refl
best-map f (c ∷ cs) k =
    let rest = best-map f cs k.1 in
    elim (Option-cases (best cs)) [
      | inl e ↦ let rest' = rw (e) at rest in rw (rest', e, best) refl
      | inr (d, e) ↦
          let rest' = rw (e) at rest in
          let same = outranks-keep f c d k.0 (best-All (KeepsRank f) cs d k.1 e) in
          elim (Bool-cases (outranks d c)) [
            | inl o ↦ rw (rest', e, same, o, best) refl
            | inr o ↦ rw (rest', e, same, o, best) refl
          ]
    ]

-- A row that is replaced by one that grants alike, under the same expiry, leaves the account.
resolve-swap :
    (plans : List Plan) (subs : List Subscription) (row : Subscription) (user : ℕ)
    (level : ExamType) (now : ℕ)
    → All (IsAlike (is_granting user now) plans level row) subs
    → All (λ x. (swap row x).expires_at ≡ x.expires_at) subs
    → (resolve plans (update_where (with_id row.id) (λ _. row) subs) user level now).account
      ≡ (resolve plans subs user level now).account
unfolding resolve grant_of
resolve-swap plans subs row user level now alike expiry =
    let joined =
      candidates-IsJoined (is_granting user now) plans level
        (λ x. (swap row x).expires_at ≡ x.expires_at) subs expiry in
    let keeps =
      All-map
        (λ c.
          ((swap row c.sub).expires_at ≡ c.sub.expires_at)
          × IsJoined (is_granting user now) plans level c)
        (KeepsRank (swap_in row)) _ (λ c h. (refl, h.0)) joined in
    let moved = candidates-swap (is_granting user now) plans level row subs alike in
    let mapped = best-map (swap_in row) _ keeps in
    elim (Option-cases (best (candidates (is_granting user now) plans level subs))) [
      | inl e ↦ let mapped' = rw (e) at mapped in rw (moved, mapped', e, resolve) refl
      | inr (c, e) ↦ let mapped' = rw (e) at mapped in rw (moved, mapped', e, resolve) refl
    ]

-- Only the row itself has its id.
same_row :
    (p : Subscription → Bool) (sub : Subscription) (subs : List Subscription)
    → IsKeyed (λ r. r.id) subs
    → find? p subs ≡ some sub
    → All (λ x. x.id ≡ sub.id → x ≡ sub) subs
same_row p sub [] k h = tt
same_row p sub (x ∷ xs) k h = elim (Bool-cases (p x)) [
  | inl hit ↦
      let same : x ≡ sub = ground arith in
      (
        (λ e. same),
        All-map (λ y. y.id ≢ x.id) (λ y. y.id ≡ sub.id → y ≡ sub) xs
            (λ y ne e. elim (ne (e ∙ ap (λ z. z.id) (sym same))) [ ]) k.0,
      )
  | inr miss ↦
      let below : find? p xs ≡ some sub = ground arith in
      let ne : sub.id ≢ x.id = find?-ne (λ y. y.id) x.id p xs sub k.0 below in
      ((λ e. elim (ne (sym e)) [ ]), same_row p sub xs k.1 below)
]

cancelled-grants :
    (user now at : ℕ) (sub : Subscription)
    → is_access_status sub.status ≡ true
    → sub.expires_at ≡ some at
    → is_granting user now (cancelled_row sub) ≡ is_granting user now sub
cancelled-grants user now at sub live e = elim (Bool-cases (ltb now at)) [
  | inl h ↦ rw (e, live, h) refl
  | inr h ↦ rw (e, live, h) refl
]

swap-IsAlike :
    (plans : List Plan) (level : ExamType) (user now at : ℕ) (sub x : Subscription)
    → is_access_status sub.status ≡ true
    → sub.expires_at ≡ some at
    → (x.id ≡ sub.id → x ≡ sub)
    → IsAlike (is_granting user now) plans level (cancelled_row sub) x
      × ((swap (cancelled_row sub) x).expires_at ≡ x.expires_at)
swap-IsAlike plans level user now at sub x live e same = elim (Bool-cases (x.id == sub.id)) [
  | inl hit ↦
      let eq : x ≡ sub = same (ground arith) in
      rw (eq, ==_refl sub.id) ((cancelled-grants user now at sub live e, refl), refl)
  | inr miss ↦ rw miss ((refl, refl), refl)
]

All-and :
    (P Q : Subscription → Type 0) (xs : List Subscription)
    → All (λ x. P x × Q x) xs
    → All P xs × All Q xs
All-and P Q [] h = (tt, tt)
All-and P Q (x ∷ xs) h = let (p, q) = All-and P Q xs h.1 in ((h.0.0, p), (h.0.1, q))

resolve-cancelled :
    (p : Subscription → Bool) (s : Store) (user : ℕ) (level : ExamType) (now at : ℕ)
    (sub : Subscription)
    → IsKeyed (λ r. r.id) s.subs
    → find? p s.subs ≡ some sub
    → is_access_status sub.status ≡ true
    → sub.expires_at ≡ some at
    → (resolve s.plans (cancel_row sub s).subs user level now).account
      ≡ (resolve s.plans s.subs user level now).account
resolve-cancelled p s user level now at sub k found live e =
    let (alike, expiry) =
      All-and (IsAlike (is_granting user now) s.plans level (cancelled_row sub))
        (λ x. (swap (cancelled_row sub) x).expires_at ≡ x.expires_at) s.subs
        (All-map (λ x. x.id ≡ sub.id → x ≡ sub)
          (λ x.
            IsAlike (is_granting user now) s.plans level (cancelled_row sub) x
            × ((swap (cancelled_row sub) x).expires_at ≡ x.expires_at))
          s.subs (λ x same. swap-IsAlike s.plans level user now at sub x live e same)
          (same_row p sub s.subs k found)) in
    resolve-swap s.plans s.subs (cancelled_row sub) user level now alike expiry

pub cancel_target_ok :
    (user now : ℕ) (caller_level : Option ExamType) (s : Store) (sub : Subscription)
    → cancel_target user caller_level now s ≡ ok sub
    → find? (is_target s.plans user (or_else (level_of user s.users) caller_level) now) s.subs
      ≡ some sub
unfolding cancel_target
cancel_target_ok user now caller_level s sub h =
    let level = or_else (level_of user s.users) caller_level in
    elim (Bool-cases (any (is_live_on s.plans user level now) s.subs)) [
      | inr n ↦ let no = rw (n, cancel_target) at h in cc
      | inl n ↦ elim (Option-cases (find? (is_target s.plans user level now) s.subs)) [
        | inl m ↦ let no = rw (n, m, cancel_target) at h in cc
        | inr (x, m) ↦ m ∙ ap some (ok_inj (rw (n, m, cancel_target) at h))
      ]
    ]

-- A cancellation that succeeds saves the row that it found as cancelled and drops the user's cache.
cancel_run :
    (user now : ℕ) (caller_level : Option ExamType) (s t : Store) (sub : Subscription)
    → cancel user caller_level now s ≡ (ok sub, t)
    → (target : Subscription) × (find?
          (is_target s.plans user (or_else (level_of user s.users) caller_level) now)
          s.subs
        ≡ some target)
      × (cancelled_row target ≡ sub)
      × (invalidate_cache user (cancel_row target s) ≡ t)
unfolding cancel
cancel_run user now caller_level s t sub h =
    elim (Result-cases (cancel_target user caller_level now s)) [
      | inr (e, n) ↦ let no = rw (n, cancel) at h in cc
      | inl (x, n) ↦
          let run = rw (n, cancel) at h in
          (
            x,
            cancel_target_ok user now caller_level s x n,
            ok_inj (ap (λ y. y.0) run),
            ap (λ y. y.1) run,
          )
    ]

pub target_live :
    (plans : List Plan) (user now : ℕ) (level : Option ExamType) (x : Subscription)
    → is_target plans user level now x ≡ true
    → (is_access_status x.status ≡ true)
      × (x.user_id ≡ user)
      × (plan_matches (λ p. not (is_one_time p.payment_kind)) (plan_of plans x) ≡ true)
target_live plans user now level x h = (ground arith, ground arith, ground arith)

-- Only a row of the user on a recurring plan is ever cancelled: a lifetime Plus never is.
cancel_recurring :
    (user now : ℕ) (caller_level : Option ExamType) (s t : Store) (sub : Subscription)
    → cancel user caller_level now s ≡ (ok sub, t)
    → (is_cancelled_status sub.status ≡ true)
      × (sub.user_id ≡ user)
      × (plan_matches (λ p. not (is_one_time p.payment_kind)) (plan_of s.plans sub) ≡ true)
cancel_recurring user now caller_level s t sub h =
    let (x, found, same, _) = cancel_run user now caller_level s t sub h in
    let level = or_else (level_of user s.users) caller_level in
    let (_, owner, kind) =
      target_live s.plans user now level x
        (find?-passes (is_target s.plans user level now) s.subs x found) in
    rw (sym same) (refl, owner, kind)

-- When ids are unique, then after a cancellation of a row with an expiry, the user has on every level the account that the
-- tables gave before it, at every later and earlier moment: the paid period runs to its end.
pub cancel_keeps_access :
    (user now at end : ℕ) (caller_level : Option ExamType) (level : ExamType) (s t : Store)
    (sub : Subscription)
    → IsKeyed (λ r. r.id) s.subs
    → cancel user caller_level now s ≡ (ok sub, t)
    → sub.expires_at ≡ some end
    → (entitlement_for user level at t).0.account ≡ (resolve s.plans s.subs user level at).account
cancel_keeps_access user now at end caller_level level s t sub k h e =
    let (x, found, same, last) = cancel_run user now caller_level s t sub h in
    let scope = or_else (level_of user s.users) caller_level in
    let (live, _, _) =
      target_live s.plans user now scope x
        (find?-passes (is_target s.plans user scope now) s.subs x found) in
    let e' : x.expires_at ≡ some end = ap (λ y. y.expires_at) same ∙ e in
    rw (sym last, entitlement_for-invalidate_cache user at level (cancel_row x s))
      (resolve-cancelled (is_target s.plans user scope now) s user level at end x k found live e')
