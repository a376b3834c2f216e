-- ===== src/Auth/Tests.antt =====
-- One-time codes and rotations at concrete tables.
use bondzi_backend.Prelude.{
  ℕ, ◌+◌, ◌≤◌, ◌≡◌, ◌≢◌, ◌↔◌, refl, Option, true, false, none, some, List, [], ◌∷◌, ok, err,
  unauthorized, arith,
}
use bondzi_backend.Auth.Tokens.{
  DeviceSession, Sessions, RefreshPayload, grace_ms, upsert, issue_pair, rotate,
}
use bondzi_backend.Auth.Tokens.Taken.{rotate_taken}
use bondzi_backend.Auth.Access.{Gate, is_revoked, validate, revoke_by_access_jti}
use bondzi_backend.Auth.Access.Agree.{device_of}
use bondzi_backend.Auth.Access.History.{Reach, start, later, signs_in, revokes, Reach-validate}
use bondzi_backend.Auth.Tokens.Grace.{rotate_retry, rotate_lost_twice}
use bondzi_backend.Auth.Otp.{Address, sms, email_verify, Codes, sent_answer, send, verify}
use bondzi_backend.Auth.Otp.Spent.{Call, sends, verifies, run}
use bondzi_backend.Auth.Otp.Once.{send-verify}

abbrev session : DeviceSession
session = record {
  user_id = 1;
  device_id = 8;
  refresh_token_jti = 500;
  ip_address = none;
  rotation_count = 0;
  last_rotated_at = none;
  last_rotation_ip = none;
  previous_refresh_jti = none;
  previous_jti_expires_at = none;
}

abbrev sessions : Sessions
sessions = record {
  rows = session ∷ [];
  accounts = record { id = 1; is_active = true; last_active_at = none } ∷ [];
  bound = [];
}

abbrev token : RefreshPayload
token = record { sub = 1; jti = 500; did = 8 }

rotate_retry_example :
    (t u : Sessions) × (rotate (some token) none 501 1000 sessions
      ≡ (ok (record { sub = 1; jti = 501; did = 8 }), t))
    × (rotate (some token) none 502 31000 t ≡ (ok (record { sub = 1; jti = 502; did = 8 }), u))
rotate_retry_example =
    rotate_retry token session none 501 502 1000 31000 sessions refl refl refl (omega arith)

rotate_lost_twice_example :
    (t u : Sessions) × (rotate (some token) none 501 1000 sessions
      ≡ (ok (record { sub = 1; jti = 501; did = 8 }), t))
    × (rotate (some token) none 502 31000 t ≡ (ok (record { sub = 1; jti = 502; did = 8 }), u))
    × (rotate (some token) none 503 41000 u ≡ (err unauthorized, u))
rotate_lost_twice_example =
    rotate_lost_twice token session none 501 502 1000 31000 sessions refl refl refl (omega arith)
      503 41000 (λ e. omega arith) (λ e. omega arith)

rotate_taken_example :
    (u : Sessions) × (rotate (some token) none 502 31000 (issue_pair 1 9 none 501 1000 sessions).1
      ≡ (ok (record { sub = 1; jti = 502; did = 9 }), u))
    × ((ip : Option ℕ) (jti last : ℕ)
        → 31000 + grace_ms ≤ last
        → rotate (some (issue_pair 1 9 none 501 1000 sessions).0) ip jti last u
          ≡ (err unauthorized, u))
rotate_taken_example =
    rotate_taken token session 9 none none 501 502 1000 31000 sessions refl refl refl (omega arith)
      (λ e. omega arith)

-- the user signs in on device 9, and a token of device 8 is used after that
abbrev gate : Gate
gate = record {
  sessions = (issue_pair 1 9 none 501 1000 sessions).1;
  revoked = record { jti = 70; until = 5000 } ∷ [];
}

gate-Reach : Reach gate
unfolding revoke_by_access_jti
gate-Reach =
    later
      (later (start {g = record { sessions = sessions; revoked = [] }} refl)
        (signs_in 1 9 none 501 1000))
      (revokes 70 5 1000)

Reach-validate_example :
    ((validate (record { sub = 1; jti = 71; did = some 8 }) 2000 gate).0 ≡ ok 1)
    ↔ ((is_revoked 71 2000 gate.revoked ≡ false) × (device_of 1 gate.sessions.rows ≡ some 8))
Reach-validate_example = Reach-validate gate 1 71 8 2000 gate-Reach

kicked : device_of 1 gate.sessions.rows ≡ some 9
unfolding issue_pair upsert
kicked = refl

abbrev address : Address
address = record { channel = email_verify; name = 77 }

abbrev no_codes : Codes
no_codes = record { sends = []; verifies = []; stored = [] }

-- a hash function for the code
abbrev hash_code : ℕ → ℕ
hash_code n = n + 1

-- a wrong guess, a code to another address, and the code once more
abbrev later_calls : List Call
later_calls =
    verifies address 999999 31500
    ∷ sends (record { channel = sms; name = 77 }) 654321 false 31600
    ∷ verifies address 123456 31700
    ∷ []

send-verify_example :
    (t u : Codes) × (send hash_code address 123456 true 1000 no_codes ≡ (ok 600, t))
    × (verify hash_code address 123456 31000 t ≡ (ok tt, u))
    × ((verify hash_code address 123456 32000 (run hash_code later_calls u)).0 ≢ ok tt)
unfolding sent_answer
send-verify_example =
    send-verify hash_code address 123456 true 1000 31000 32000 123456 later_calls no_codes
      (omega arith) (omega arith) (omega arith) refl
