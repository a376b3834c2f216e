-- ===== src/Auth/Access/Agree.antt =====
-- The device that Redis holds and the session in the table.
use mathlib.Core.Path.{subst}
use bondzi_backend.Prelude.{
  ℕ, ◌≡◌, ◌↔◌, refl, ap, ◌∙◌, true, false, not, ◌&&◌, ◌||◌, Option, none, some, List, [], ◌∷◌, inl,
  inr, ltb, ◌==◌, ==_refl, any, keep, update_where, All, All-map, Bool-cases, Option-cases,
  find?-passes, All-find?, arith,
}
use bondzi_backend.Auth.Tokens.{
  DeviceSession, BoundDevice, Sessions, RefreshPayload, session_of, account_of, is_live,
  matches_current, within_grace, replaced, stamped, upsert, issue_pair, rotate_session, rotate,
  logout,
}
use bondzi_backend.Auth.Access.{cached_device, is_device_binding_valid}

-- the device of a session
abbrev pub device_in : Option DeviceSession → Option ℕ
device_in none = none
device_in (some s) = some s.device_id

abbrev pub device_of : ℕ → List DeviceSession → Option ℕ
device_of user rows = device_in (session_of user rows)

-- what Redis holds is the device of the session
abbrev pub IsBound : List DeviceSession → BoundDevice → Type 0
IsBound rows b = device_of b.user_id rows ≡ some b.device_id

abbrev pub IsAgreed : Sessions → Type 0
IsAgreed s = All (IsBound s.rows) s.bound

same_iff : (j k : ℕ) → ((j == k) ≡ true) ↔ (some j ≡ some k)
same_iff j k = ground arith

module _ (user : ℕ) where
  device_of-update :
      (device : ℕ) (ip : Option ℕ) (jti now : ℕ) (rows : List DeviceSession)
      → any (λ s. s.user_id == user) rows ≡ true
      → device_of user (update_where (λ s. s.user_id == user) (replaced device ip jti now) rows)
        ≡ some device
  device_of-update device ip jti now [] h = cc
  device_of-update device ip jti now (r ∷ rows) h = elim (Bool-cases (r.user_id == user)) [
    | inl hit ↦ rw (hit, hit) refl
    | inr miss ↦ rw (miss, miss) (device_of-update device ip jti now rows (rw (miss) at h))
  ]

  device_of-upsert :
      (device : ℕ) (ip : Option ℕ) (jti now : ℕ) (rows : List DeviceSession)
      → device_of user (upsert user device ip jti now rows) ≡ some device
  unfolding upsert
  device_of-upsert device ip jti now rows = elim (Bool-cases (any (λ s. s.user_id == user) rows)) [
    | inl h ↦ rw (h, upsert) (device_of-update device ip jti now rows h)
    | inr h ↦ rw (h, upsert) (rw (==_refl user) refl)
  ]

  other-update :
      (f : DeviceSession → DeviceSession) (k : ℕ) (rows : List DeviceSession)
      → ((s : DeviceSession) → (f s).user_id ≡ s.user_id)
      → (k == user) ≡ false
      → session_of k (update_where (λ s. s.user_id == user) f rows) ≡ session_of k rows
  other-update f k [] same other = refl
  other-update f k (r ∷ rows) same other = ground (arith, same r, other-update f k rows same other)

  other-upsert :
      (device : ℕ) (ip : Option ℕ) (jti now k : ℕ) (rows : List DeviceSession)
      → (k == user) ≡ false
      → device_of k (upsert user device ip jti now rows) ≡ device_of k rows
  unfolding upsert
  other-upsert device ip jti now k rows other =
      elim (Bool-cases (any (λ s. s.user_id == user) rows)) [
        | inl h ↦
            rw (h, upsert)
              (ap device_in (other-update (replaced device ip jti now) k rows (λ s. refl) other))
        | inr h ↦ let apart : (user == k) ≡ false = ground arith in rw (h, upsert) (rw (apart) refl)
      ]

  other-keep :
      (k : ℕ) (rows : List DeviceSession)
      → (k == user) ≡ false
      → session_of k (keep (λ s. not (s.user_id == user)) rows) ≡ session_of k rows
  other-keep k [] other = refl
  other-keep k (r ∷ rows) other = ground (arith, other-keep k rows other)

  device_of-stamped :
      (ip : Option ℕ) (now k : ℕ) (rows : List DeviceSession)
      → device_of k (update_where (λ s. s.user_id == user) (stamped ip now) rows) ≡ device_of k rows
  device_of-stamped ip now k [] = refl
  device_of-stamped ip now k (r ∷ rows) = elim (Bool-cases (r.user_id == user)) [
    | inl hit ↦ rw (hit) (elim (Bool-cases (r.user_id == k)) [
      | inl h ↦ rw (h) refl
      | inr h ↦ rw (h) (device_of-stamped ip now k rows)
    ])
    | inr miss ↦ rw (miss) (elim (Bool-cases (r.user_id == k)) [
      | inl h ↦ rw (h) refl
      | inr h ↦ rw (h) (device_of-stamped ip now k rows)
    ])
  ]

  -- the entries of the other users
  kept-IsBound :
      (rows rows' : List DeviceSession) (bound : List BoundDevice)
      → ((k : ℕ) → (k == user) ≡ false → device_of k rows' ≡ device_of k rows)
      → All (IsBound rows) bound
      → All (IsBound rows') (keep (λ b. not (b.user_id == user)) bound)
  kept-IsBound rows rows' [] same h = tt
  kept-IsBound rows rows' (b ∷ bound) same h = elim (Bool-cases (b.user_id == user)) [
    | inl hit ↦ rw (hit) (kept-IsBound rows rows' bound same h.1)
    | inr miss ↦ rw (miss) (same b.user_id miss ∙ h.0, kept-IsBound rows rows' bound same h.1)
  ]

pub issue_pair-IsAgreed :
    (user device : ℕ) (ip : Option ℕ) (jti now : ℕ) (s : Sessions)
    → IsAgreed s
    → IsAgreed (issue_pair user device ip jti now s).1
unfolding issue_pair
issue_pair-IsAgreed user device ip jti now s h = (
  device_of-upsert user device ip jti now s.rows,
  kept-IsBound user s.rows _ s.bound (λ k other. other-upsert user device ip jti now k s.rows other)
      h,
)

rotate_session-IsAgreed :
    (payload : RefreshPayload) (session : DeviceSession) (ip : Option ℕ) (jti now : ℕ)
    (s : Sessions)
    → IsAgreed s
    → IsAgreed (rotate_session payload session ip jti now s).1
unfolding rotate_session
rotate_session-IsAgreed payload session ip jti now s h =
    elim (Bool-cases
      (matches_current session payload.jti || within_grace session payload.jti now)) [
        | inr no_match ↦ rw (no_match, rotate_session) h
        | inl match ↦ elim (Bool-cases (is_live (account_of payload.sub s.accounts))) [
          | inr dead ↦ rw (match, dead, rotate_session) h
          | inl live ↦
              rw (match, live, rotate_session)
                (issue_pair-IsAgreed payload.sub session.device_id ip jti now _ (
                  All-map _ _ s.bound
                    (λ b e. device_of-stamped payload.sub ip now b.user_id s.rows ∙ e) h))
        ]
      ]

pub rotate-IsAgreed :
    (token : Option RefreshPayload) (ip : Option ℕ) (jti now : ℕ) (s : Sessions)
    → IsAgreed s
    → IsAgreed (rotate token ip jti now s).1
unfolding rotate
rotate-IsAgreed none ip jti now s h = h
rotate-IsAgreed (some payload) ip jti now s h =
    elim (Option-cases (session_of payload.sub s.rows)) [
      | inl n ↦ rw (n, rotate) h
      | inr (session, n) ↦ rw (n, rotate) (rotate_session-IsAgreed payload session ip jti now s h)
    ]

pub logout-IsAgreed : (user : ℕ) (s : Sessions) → IsAgreed s → IsAgreed (logout user s)
unfolding logout
logout-IsAgreed user s h =
    kept-IsBound user s.rows _ s.bound (λ k other. ap device_in (other-keep user k s.rows other)) h

-- the outcome of the check, which keeps the two in agreement
module _ (user did now : ℕ) (s : Sessions) (h : IsAgreed s) where
  pub check-IsAgreed : IsAgreed (is_device_binding_valid user did now s).1
  unfolding is_device_binding_valid
  check-IsAgreed = elim (Option-cases (cached_device user now s.bound)) [
    | inr (b, n) ↦ rw (n, is_device_binding_valid) h
    | inl n ↦ elim (Option-cases (session_of user s.rows)) [
      | inl m ↦ rw (n, m, is_device_binding_valid) h
      | inr (session, m) ↦
          rw (n, m, is_device_binding_valid)
            (ap device_in m, kept-IsBound user s.rows s.rows s.bound (λ k other. refl) h)
    ]
  ]

  pub check_iff :
      ((is_device_binding_valid user did now s).0 ≡ true) ↔ (device_of user s.rows ≡ some did)
  unfolding is_device_binding_valid
  check_iff = elim (Option-cases (cached_device user now s.bound)) [
    | inr (b, n) ↦
        let hit = find?-passes (λ x. x.user_id == user && ltb now x.until) s.bound b n in
        let agreed : device_of b.user_id s.rows ≡ some b.device_id =
          All-find? (IsBound s.rows) (λ x. x.user_id == user && ltb now x.until) s.bound b h n in
        let same : b.user_id ≡ user = ground arith in
        let here : device_of user s.rows ≡ some b.device_id =
          subst (λ k. device_of k s.rows ≡ some b.device_id) same agreed in
        rw (n, is_device_binding_valid) (rw (here) (same_iff b.device_id did))
    | inl n ↦ elim (Option-cases (session_of user s.rows)) [
      | inl m ↦ rw (n, m, is_device_binding_valid) (λ e. cc, λ e. cc)
      | inr (session, m) ↦ rw (n, m, is_device_binding_valid) (same_iff session.device_id did)
    ]
  ]
