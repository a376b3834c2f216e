-- ===== src/Auth/Tokens/Taken.antt =====
-- A session that another device has taken over.
use bondzi_backend.Prelude.{
  ℕ, ◌+◌, ◌<◌, ◌≤◌, ◌≡◌, ◌≢◌, refl, true, false, ltb, Option, some, ◌==◌, ==_refl, unauthorized, ok,
  err, arith,
}
use bondzi_backend.Auth.Tokens.{
  DeviceSession, Sessions, RefreshPayload, grace_ms, session_of, account_of, replaced, issue_pair,
  is_live, rotate_session, rotate,
}
use bondzi_backend.Auth.Tokens.Grace.{live_touched, upsert_found, rotate_fits}

-- A device that was signed out by a sign-in on another device comes back: within 60 seconds of that
-- sign-in its old token, which was the current one of an active account, is accepted and gives a
-- pair that is bound to the other device; and from 60 seconds after that on, the token that the
-- other device got at the sign-in is refused, when the jtis that were drawn differ.
pub rotate_taken :
    (payload : RefreshPayload) (session : DeviceSession) (device : ℕ) (ip ip' : Option ℕ)
    (jti jti' now later : ℕ) (s : Sessions)
    → session_of payload.sub s.rows ≡ some session
    → session.refresh_token_jti ≡ payload.jti
    → is_live (account_of payload.sub s.accounts) ≡ true
    → later < now + grace_ms
    → jti' ≢ jti
    → (u : Sessions) × (rotate
          (some payload)
          ip'
          jti'
          later
          (issue_pair payload.sub device ip jti now s).1
        ≡ (ok (record { sub = payload.sub; jti = jti'; did = device }), u))
      × ((ip'' : Option ℕ) (jti'' last : ℕ)
          → later + grace_ms ≤ last
          → rotate (some (issue_pair payload.sub device ip jti now s).0) ip'' jti'' last u
            ≡ (err unauthorized, u))
unfolding issue_pair rotate rotate_session
rotate_taken payload session device ip ip' jti jti' now later s found fits live soon new =
    let t = (issue_pair payload.sub device ip jti now s).1 in
    let there = upsert_found payload.sub device ip jti now s.rows session found in
    let active = live_touched payload.sub now s.accounts live in
    let (u, k) =
      rotate_fits payload (replaced device ip jti now session) ip' jti' later t there active
        (rw (fits, ==_refl payload.jti) (ground arith)) in
    (
      u,
      k.pair,
      λ ip'' jti'' last late.
          let stale : (jti' == jti) ≡ false = ground arith in
          let over : ltb last (later + grace_ms) ≡ false = ground arith in
          rw (k.session, rotate, stale, ==_refl jti, over, rotate_session) refl,
    )
