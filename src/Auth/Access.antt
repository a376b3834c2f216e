-- ===== src/Auth/Access.antt =====
-- src/modules/auth/strategies/jwt.strategy.ts: which requests an access token lets in, and
-- revokeByAccessJti of tokens.service.ts. A token whose signature or expiry fails never arrives here.
pub mod Agree
pub mod History
use bondzi_backend.Prelude.{
  ℕ, ◌+◌, ◌-◌, ◌*◌, ◌/◌, Bool, true, false, not, ◌&&◌, Option, none, some, List, [], ◌∷◌, ltb, ◌==◌,
  if◌then◌else◌, find?, any, keep, max, unauthorized, Result, ok, err,
}
use bondzi_backend.Auth.Tokens.{BoundDevice, Sessions, session_of, bind_device}

-- `AccessTokenPayload`, as far as a request is decided by it
pub record AccessTokenPayload : Type 0 where
  pub sub : ℕ
  pub jti : ℕ
  pub did : Option ℕ

-- a `revoked_jti` key of Redis
pub record RevokedJti : Type 0 where
  pub jti : ℕ
  pub until : ℕ

pub record Gate : Type 0 where
  pub sessions : Sessions
  pub revoked : List RevokedJti

abbrev pub is_revoked : ℕ → ℕ → List RevokedJti → Bool
is_revoked jti now = any (λ r. r.jti == jti && ltb now r.until)

-- the cached device, as long as it lives
abbrev pub cached_device : ℕ → ℕ → List BoundDevice → Option BoundDevice
cached_device user now = find? (λ b. b.user_id == user && ltb now b.until)

-- `isDeviceBindingValid`: a miss puts the device of the row back into the cache
unfoldable pub is_device_binding_valid : ℕ → ℕ → ℕ → Sessions → Bool × Sessions
is_device_binding_valid user did now s = elim (cached_device user now s.bound) [
  | some b ↦ (b.device_id == did, s)
  | none ↦ elim (session_of user s.rows) [
    | none ↦ (false, s)
    | some session ↦ (
      session.device_id == did,
      record s { bound = bind_device user session.device_id now s.bound },
    )
  ]
]

-- `validate`: the id of the user
unfoldable pub validate : AccessTokenPayload → ℕ → Gate → Result ℕ × Gate
validate payload now g =
    if is_revoked payload.jti now g.revoked then (err unauthorized, g) else elim payload.did [
      | none ↦ (ok payload.sub, g)
      | some did ↦
          let (valid, s) = is_device_binding_valid payload.sub did now g.sessions in
          (if valid then ok payload.sub else err unauthorized, record g { sessions = s })
    ]

-- `revokeByAccessJti`: `SET` of the key with its time to live, over an older one; the expiry of the
-- token is in seconds
unfoldable pub revoke_by_access_jti : ℕ → ℕ → ℕ → Gate → Gate
revoke_by_access_jti jti expires_at_unix now g =
    let ttl = max 1 (expires_at_unix - now / 1000) in
    record g {
      revoked =
          record { jti = jti; until = now + ttl * 1000 } ∷ keep (λ r. not (r.jti == jti)) g.revoked;
    }
