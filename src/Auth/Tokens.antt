-- ===== src/Auth/Tokens.antt =====
-- src/modules/auth/tokens.service.ts: one session to a user, and the rotation of its refresh token.
-- The signing of tokens is not this code's: a refresh token is its claims, and `none` is one that
-- does not verify. The new jti, which the source draws at random, is an argument.
pub mod Grace
pub mod Taken
use bondzi_backend.Prelude.{
  ℕ, ◌+◌, ◌*◌, Bool, true, false, not, ◌&&◌, ◌||◌, Option, none, some, List, [], ◌∷◌, ltb, ◌==◌,
  if◌then◌else◌, or_else, holds_id, find?, any, keep, update_where, unauthorized, Result, ok, err,
}

pub record DeviceSession : Type 0 where
  pub user_id : ℕ
  pub device_id : ℕ
  pub refresh_token_jti : ℕ
  pub ip_address : Option ℕ
  pub rotation_count : ℕ
  pub last_rotated_at : Option ℕ
  pub last_rotation_ip : Option ℕ
  pub previous_refresh_jti : Option ℕ
  pub previous_jti_expires_at : Option ℕ

pub record Account : Type 0 where
  pub id : ℕ
  pub is_active : Bool
  pub last_active_at : Option ℕ

-- the device that Redis holds for a user
pub record BoundDevice : Type 0 where
  pub user_id : ℕ
  pub device_id : ℕ
  pub until : ℕ

pub record Sessions : Type 0 where
  pub rows : List DeviceSession
  pub accounts : List Account
  pub bound : List BoundDevice

-- `RefreshPayload`
pub record RefreshPayload : Type 0 where
  pub sub : ℕ
  pub jti : ℕ
  pub did : ℕ

-- REFRESH_TOKEN_GRACE_MS
abbrev pub grace_ms : ℕ
grace_ms = 60 * 1000

-- the default of `jwt.accessExpiry`
abbrev pub access_expiry_ms : ℕ
access_expiry_ms = 15 * 60 * 1000

abbrev pub session_of : ℕ → List DeviceSession → Option DeviceSession
session_of user = find? (λ s. s.user_id == user)

abbrev pub account_of : ℕ → List Account → Option Account
account_of user = find? (λ a. a.id == user)

abbrev pub new_session : ℕ → ℕ → Option ℕ → ℕ → DeviceSession
new_session user device ip jti = record {
  user_id = user;
  device_id = device;
  refresh_token_jti = jti;
  ip_address = ip;
  rotation_count = 0;
  last_rotated_at = none;
  last_rotation_ip = none;
  previous_refresh_jti = none;
  previous_jti_expires_at = none;
}

-- the `DO UPDATE SET`: the outgoing jti stays valid for the grace
abbrev pub replaced : ℕ → Option ℕ → ℕ → ℕ → DeviceSession → DeviceSession
replaced device ip jti now s = record s {
  previous_refresh_jti = some s.refresh_token_jti;
  previous_jti_expires_at = some (now + grace_ms);
  device_id = device;
  refresh_token_jti = jti;
  ip_address = ip;
}

-- `INSERT ... ON CONFLICT (user_id) DO UPDATE`
unfoldable pub upsert : ℕ → ℕ → Option ℕ → ℕ → ℕ → List DeviceSession → List DeviceSession
upsert user device ip jti now rows =
    if any (λ s. s.user_id == user) rows
    then update_where (λ s. s.user_id == user) (replaced device ip jti now) rows
    else new_session user device ip jti ∷ rows

abbrev pub bind_device : ℕ → ℕ → ℕ → List BoundDevice → List BoundDevice
bind_device user device now bound =
    record { user_id = user; device_id = device; until = now + access_expiry_ms }
    ∷ keep (λ b. not (b.user_id == user)) bound

abbrev pub touched : ℕ → Account → Account
touched now a = record a { last_active_at = some now }

-- `issuePair`: the claims of the new refresh token
unfoldable pub issue_pair : ℕ → ℕ → Option ℕ → ℕ → ℕ → Sessions → RefreshPayload × Sessions
issue_pair user device ip jti now s = (
  record { sub = user; jti = jti; did = device },
  record {
    rows = upsert user device ip jti now s.rows;
    accounts = update_where (λ a. a.id == user) (touched now) s.accounts;
    bound = bind_device user device now s.bound;
  },
)

abbrev pub matches_current : DeviceSession → ℕ → Bool
matches_current s jti = s.refresh_token_jti == jti

abbrev after : Option ℕ → ℕ → Bool
after none now = false
after (some until) now = ltb now until

abbrev pub within_grace : DeviceSession → ℕ → ℕ → Bool
within_grace s jti now = holds_id s.previous_refresh_jti jti && after s.previous_jti_expires_at now

-- the forensics of a rotation
abbrev pub stamped : Option ℕ → ℕ → DeviceSession → DeviceSession
stamped ip now s = record s {
  rotation_count = s.rotation_count + 1;
  last_rotated_at = some now;
  last_rotation_ip = ip;
}

abbrev pub is_live : Option Account → Bool
is_live none = false
is_live (some a) = a.is_active

-- a rotation whose session was found
unfoldable pub rotate_session :
    RefreshPayload → DeviceSession → Option ℕ → ℕ → ℕ → Sessions → Result RefreshPayload × Sessions
rotate_session payload session ip jti now s =
    if not (matches_current session payload.jti || within_grace session payload.jti now)
    then (err unauthorized, s)
    else if not (is_live (account_of payload.sub s.accounts))
    then (err unauthorized, s)
    else let stamp = update_where (λ r. r.user_id == payload.sub) (stamped ip now) s.rows in
      let (pair, t) =
        issue_pair payload.sub session.device_id ip jti now (record s { rows = stamp }) in
      (ok pair, t)

-- `rotate`
unfoldable pub rotate :
    Option RefreshPayload → Option ℕ → ℕ → ℕ → Sessions → Result RefreshPayload × Sessions
rotate none ip jti now s = (err unauthorized, s)
rotate (some payload) ip jti now s = elim (session_of payload.sub s.rows) [
  | none ↦ (err unauthorized, s)
  | some session ↦ rotate_session payload session ip jti now s
]

-- `logoutUser` and `logoutAll`
unfoldable pub logout : ℕ → Sessions → Sessions
logout user s = record s {
  rows = keep (λ r. not (r.user_id == user)) s.rows;
  bound = keep (λ b. not (b.user_id == user)) s.bound;
}
