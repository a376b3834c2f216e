-- ===== src/Auth/Access/History.antt =====
-- Every state of the sessions and of the keys in Redis that sign-ins, rotations, requests, logouts
-- and revocations lead to, one after another.
use bondzi_backend.Prelude.{
  ℕ, ◌≡◌, ◌↔◌, refl, Bool, true, false, Option, some, List, [], ◌∷◌, inl, inr, keep, All,
  if◌then◌else◌, ok, err, unauthorized, Bool-cases, Option-cases,
}
use bondzi_backend.Auth.Tokens.{
  DeviceSession, BoundDevice, RefreshPayload, issue_pair, rotate, logout,
}
use bondzi_backend.Auth.Access.{
  AccessTokenPayload, Gate, is_revoked, is_device_binding_valid, validate, revoke_by_access_jti,
}
use bondzi_backend.Auth.Access.Agree.{
  device_of, IsBound, IsAgreed, issue_pair-IsAgreed, rotate-IsAgreed, logout-IsAgreed,
  check-IsAgreed, check_iff,
}

pub data Step : Gate → Gate → Type 0 where
  signs_in :
      {g : Gate} (user device : ℕ) (ip : Option ℕ) (jti now : ℕ)
      → Step g (record g { sessions = (issue_pair user device ip jti now g.sessions).1 })
  rotates :
      {g : Gate} (token : Option RefreshPayload) (ip : Option ℕ) (jti now : ℕ)
      → Step g (record g { sessions = (rotate token ip jti now g.sessions).1 })
  requests : {g : Gate} (payload : AccessTokenPayload) (now : ℕ) → Step g (validate payload now g).1
  logs_out : {g : Gate} (user : ℕ) → Step g (record g { sessions = logout user g.sessions })
  revokes :
      {g : Gate} (jti expires_at_unix now : ℕ)
      → Step g (revoke_by_access_jti jti expires_at_unix now g)
  -- Redis drops keys of devices before their time
  forgets :
      {g : Gate} (stays : BoundDevice → Bool)
      → Step g (record g { sessions = record (g.sessions) { bound = keep stays g.sessions.bound } })

pub data Reach : Gate → Type 0 where
  start : {g : Gate} → g.sessions.bound ≡ [] → Reach g
  later : {g h : Gate} → Reach g → Step g h → Reach h

validate-IsAgreed :
    (payload : AccessTokenPayload) (now : ℕ) (g : Gate)
    → IsAgreed g.sessions
    → IsAgreed (validate payload now g).1.sessions
unfolding validate
validate-IsAgreed payload now g h = elim (Bool-cases (is_revoked payload.jti now g.revoked)) [
  | inl y ↦ rw (y, validate) h
  | inr n ↦ elim (Option-cases payload.did) [
    | inl m ↦ rw (n, m, validate) h
    | inr (did, m) ↦ rw (n, m, validate) (check-IsAgreed payload.sub did now g.sessions h)
  ]
]

keep-IsBound :
    (stays : BoundDevice → Bool) (rows : List DeviceSession) (bound : List BoundDevice)
    → All (IsBound rows) bound
    → All (IsBound rows) (keep stays bound)
keep-IsBound stays rows [] h = tt
keep-IsBound stays rows (b ∷ bound) h = elim (Bool-cases (stays b)) [
  | inl y ↦ rw (y) (h.0, keep-IsBound stays rows bound h.1)
  | inr n ↦ rw (n) (keep-IsBound stays rows bound h.1)
]

-- whatever Redis still holds of a user is the device of the session
pub Reach-IsAgreed : {g : Gate} → Reach g → IsAgreed g.sessions
unfolding revoke_by_access_jti
Reach-IsAgreed (start no_keys) = rw (no_keys) tt
Reach-IsAgreed (later {g} r (signs_in user device ip jti now)) =
    issue_pair-IsAgreed user device ip jti now g.sessions (Reach-IsAgreed r)
Reach-IsAgreed (later {g} r (rotates token ip jti now)) =
    rotate-IsAgreed token ip jti now g.sessions (Reach-IsAgreed r)
Reach-IsAgreed (later {g} r (requests payload now)) =
    validate-IsAgreed payload now g (Reach-IsAgreed r)
Reach-IsAgreed (later {g} r (logs_out user)) = logout-IsAgreed user g.sessions (Reach-IsAgreed r)
Reach-IsAgreed (later r (revokes jti expires_at_unix now)) = Reach-IsAgreed r
Reach-IsAgreed (later {g} r (forgets stays)) =
    keep-IsBound stays g.sessions.rows g.sessions.bound (Reach-IsAgreed r)

accepts_iff :
    (valid : Bool) (user : ℕ)
    → ((if valid then ok user else err unauthorized) ≡ ok user) ↔ (valid ≡ true)
accepts_iff true user = (λ e. refl, λ e. refl)
accepts_iff false user = (λ e. cc, λ e. cc)

-- The cached device never misleads: after any calls, one after another, and whatever Redis has
-- dropped by then, an access token that is bound to a device lets a request in exactly when its jti
-- is not revoked at that time and the session in the table is on that device.
pub Reach-validate :
    (g : Gate) (user jti did now : ℕ)
    → Reach g
    → ((validate (record { sub = user; jti = jti; did = some did }) now g).0 ≡ ok user)
      ↔ ((is_revoked jti now g.revoked ≡ false) × (device_of user g.sessions.rows ≡ some did))
unfolding validate
Reach-validate g user jti did now reach =
    let agreed = Reach-IsAgreed reach in
    let check = check_iff user did now g.sessions agreed in
    let accepts = accepts_iff (is_device_binding_valid user did now g.sessions).0 user in
    elim (Bool-cases (is_revoked jti now g.revoked)) [
      | inl y ↦ rw (y, validate) (λ e. absurd (cc), λ (h, e). absurd (cc))
      | inr n ↦
          rw (n, validate) (λ e. (refl, check.0 (accepts.0 e)), λ (h, e). accepts.1 (check.1 e))
    ]
