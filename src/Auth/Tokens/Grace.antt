-- ===== src/Auth/Tokens/Grace.antt =====
-- What a client that lost the answer of a rotation can still do.
use bondzi_backend.Prelude.{
  ℕ, ◌+◌, ◌<◌, ◌≡◌, ◌≢◌, refl, true, false, ◌||◌, Option, some, List, ◌==◌, ==_refl,
  find?-update_where, any_of_find?-some, update_where, unauthorized, ok, err, inl, inr,
  Option-cases, arith,
}
use bondzi_backend.Auth.Tokens.{
  DeviceSession, Account, Sessions, RefreshPayload, grace_ms, session_of, account_of, replaced,
  upsert, touched, issue_pair, matches_current, within_grace, stamped, is_live, rotate_session,
  rotate,
}

-- the session after a rotation
abbrev pub turned : ℕ → Option ℕ → ℕ → ℕ → DeviceSession → DeviceSession
turned device ip jti now s = replaced device ip jti now (stamped ip now s)

-- A rotation by a token that fits the session, of an active account: the new pair, and what the
-- tables hold of the user then.
pub record IsTurned (payload : RefreshPayload) (x : DeviceSession) (ip : Option ℕ) (jti now : ℕ)
    (s t : Sessions) : Type 0 where
  pub pair :
      rotate (some payload) ip jti now s
      ≡ (ok (record { sub = payload.sub; jti = jti; did = x.device_id }), t)
  pub session : session_of payload.sub t.rows ≡ some (turned x.device_id ip jti now x)
  pub account : is_live (account_of payload.sub t.accounts) ≡ true

pub live_touched :
    (user now : ℕ) (rows : List Account)
    → is_live (account_of user rows) ≡ true
    → is_live (account_of user (update_where (λ a. a.id == user) (touched now) rows)) ≡ true
live_touched user now rows h = elim (Option-cases (account_of user rows)) [
  | inl n ↦ let no = rw (n) at h in absurd (cc)
  | inr (a, n) ↦
      let live : a.is_active ≡ true = rw (n) at h in
      rw (find?-update_where (λ a. a.id == user) (touched now) (λ a. refl) rows a n) live
]

pub upsert_found :
    (user device : ℕ) (ip : Option ℕ) (jti now : ℕ) (rows : List DeviceSession) (x : DeviceSession)
    → session_of user rows ≡ some x
    → session_of user (upsert user device ip jti now rows) ≡ some (replaced device ip jti now x)
unfolding upsert
upsert_found user device ip jti now rows x n =
    let there = any_of_find?-some (λ s. s.user_id == user) rows x n in
    rw (there, upsert)
      (find?-update_where (λ s. s.user_id == user) (replaced device ip jti now) (λ s. refl) rows x
        n)

pub rotate_fits :
    (payload : RefreshPayload) (session : DeviceSession) (ip : Option ℕ) (jti now : ℕ)
    (s : Sessions)
    → session_of payload.sub s.rows ≡ some session
    → is_live (account_of payload.sub s.accounts) ≡ true
    → (matches_current session payload.jti || within_grace session payload.jti now) ≡ true
    → (t : Sessions) × IsTurned payload session ip jti now s t
unfolding rotate rotate_session issue_pair
rotate_fits payload session ip jti now s n live fits = (
  (issue_pair payload.sub session.device_id ip jti now
      (record s { rows = update_where (λ r. r.user_id == payload.sub) (stamped ip now) s.rows })).1,
  record {
    pair = rw (n, rotate, fits, live, rotate_session) refl;
    session = upsert_found payload.sub session.device_id ip jti now _ (stamped ip now session) (
        find?-update_where (λ r. r.user_id == payload.sub) (stamped ip now) (λ r. refl) s.rows
          session n);
    account = live_touched payload.sub now s.accounts live;
  },
)

module _ (payload : RefreshPayload) (session : DeviceSession) (ip : Option ℕ)
    (jti jti' now later : ℕ) (s : Sessions) (found : session_of payload.sub s.rows ≡ some session)
    (fits : session.refresh_token_jti ≡ payload.jti)
    (live : is_live (account_of payload.sub s.accounts) ≡ true)
    (soon : later < now + grace_ms) where
  first_turn : (t : Sessions) × IsTurned payload session ip jti now s t
  first_turn =
      rotate_fits payload session ip jti now s found live (rw (fits, ==_refl payload.jti) refl)

  second_turn :
      (t : Sessions)
      → IsTurned payload session ip jti now s t
      → (u : Sessions) × IsTurned payload
          (turned session.device_id ip jti now session)
          ip
          jti'
          later
          t
          u
  second_turn t h =
      rotate_fits payload (turned session.device_id ip jti now session) ip jti' later t h.session
        h.account (rw (fits, ==_refl payload.jti) (ground arith))

  -- A client that never got the answer of its rotation can rotate by its old token once more: for
  -- the current token of an active account, the first rotation succeeds, and within 60 seconds of
  -- it the same token is accepted again and gives a pair for the same device.
  pub rotate_retry :
      (t u : Sessions) × (rotate (some payload) ip jti now s
        ≡ (ok (record { sub = payload.sub; jti = jti; did = session.device_id }), t))
      × (rotate (some payload) ip jti' later t
          ≡ (ok (record { sub = payload.sub; jti = jti'; did = session.device_id }), u))
  rotate_retry = let (t, h) = first_turn in let (u, k) = second_turn t h in (t, u, h.pair, k.pair)

  -- A client that loses two answers in a row is locked out: after the retry the old token is refused
  -- at every time, also within 60 seconds of the first rotation, when the two new jtis differ from
  -- the old one.
  pub rotate_lost_twice :
      (jti'' last : ℕ)
      → jti ≢ payload.jti
      → jti' ≢ payload.jti
      → (t u : Sessions) × (rotate (some payload) ip jti now s
          ≡ (ok (record { sub = payload.sub; jti = jti; did = session.device_id }), t))
        × (rotate (some payload) ip jti' later t
            ≡ (ok (record { sub = payload.sub; jti = jti'; did = session.device_id }), u))
        × (rotate (some payload) ip jti'' last u ≡ (err unauthorized, u))
  unfolding rotate rotate_session
  rotate_lost_twice jti'' last new newer =
      let (t, h) = first_turn in
      let (u, k) = second_turn t h in
      let stale : (jti == payload.jti) ≡ false = ground arith in
      let stale' : (jti' == payload.jti) ≡ false = ground arith in
      (t, u, h.pair, k.pair, rw (k.session, rotate, stale, stale', rotate_session) refl)
