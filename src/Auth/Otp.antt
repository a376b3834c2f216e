-- ===== src/Auth/Otp.antt =====
-- src/modules/auth/otp.service.ts: one-time codes by text message and by e-mail, over the counters
-- and the values of a Redis that answers. SHA-256 is the argument `hash_code`; the code, which the
-- source draws at random, is an argument of `send`, and so is whether the message could be delivered.
pub mod Spent
pub mod Once
use bondzi_backend.Prelude.{
  ℕ, ◌+◌, ◌*◌, Bool, true, false, not, ◌&&◌, Option, none, some, List, [], ◌∷◌, ltb, ◌==◌,
  if◌then◌else◌, find?, keep, bad_request, internal, too_many_requests, HttpError, Result, ok, err,
}

-- the text message, and the purposes of an e-mail
pub data Channel : Type 0 where
  sms signup email_verify password_reset : Channel

abbrev pub channel_eq : Channel → Channel → Bool
channel_eq sms sms = true
channel_eq signup signup = true
channel_eq email_verify email_verify = true
channel_eq password_reset password_reset = true
channel_eq _ _ = false

-- a phone number or an e-mail address in lower case, with its channel: what a key is made of
pub record Address : Type 0 where
  pub channel : Channel
  pub name : ℕ

abbrev pub same_address : Address → Address → Bool
same_address a b = channel_eq a.channel b.channel && a.name == b.name

pub record Counter : Type 0 where
  pub address : Address
  pub count : ℕ
  pub until : ℕ

pub record StoredCode : Type 0 where
  pub address : Address
  pub hash : ℕ
  pub until : ℕ

-- the keys `otp_rate:…`, `otp_rate:…:verify` and `otp:…`
pub record Codes : Type 0 where
  pub sends : List Counter
  pub verifies : List Counter
  pub stored : List StoredCode

-- SEND_MAX_ATTEMPTS, VERIFY_MAX_ATTEMPTS
abbrev pub send_max : ℕ
send_max = 3

abbrev pub verify_max : ℕ
verify_max = 5

-- SEND_RATE_TTL_SECONDS, VERIFY_RATE_TTL_SECONDS and OTP_TTL_SECONDS, in milliseconds
abbrev pub ttl_ms : ℕ
ttl_ms = 10 * 60 * 1000

abbrev pub live_counter : Address → ℕ → Counter → Bool
live_counter a now c = same_address c.address a && ltb now c.until

abbrev pub drop_counter : Address → List Counter → List Counter
drop_counter a = keep (λ c. not (same_address c.address a))

abbrev pub count_of : Address → ℕ → List Counter → ℕ
count_of a now rows = elim (find? (live_counter a now) rows) [ none ↦ 0 | some c ↦ c.count ]

-- `redis.incr` with a time to live, which only the first increment sets
unfoldable pub incr : Address → ℕ → List Counter → ℕ × List Counter
incr a now rows = elim (find? (live_counter a now) rows) [
  | none ↦ (1, record { address = a; count = 1; until = now + ttl_ms } ∷ drop_counter a rows)
  | some c ↦ (c.count + 1, record c { count = c.count + 1 } ∷ drop_counter a rows)
]

abbrev pub drop_code : Address → List StoredCode → List StoredCode
drop_code a = keep (λ c. not (same_address c.address a))

abbrev pub live_code : Address → ℕ → StoredCode → Bool
live_code a now c = same_address c.address a && ltb now c.until

-- `consumeStoredAtKey`: `GETDEL`
unfoldable pub consume_stored : Address → ℕ → List StoredCode → Option StoredCode × List StoredCode
consume_stored a now rows = (find? (live_code a now) rows, drop_code a rows)

-- `send` of sms.service.ts throws when the provider failed twice, and `send` of this file does not
-- catch that; `sendEmail` drops what the mail throws. The answer is the seconds the code lives.
unfoldable pub sent_answer : Channel → Bool → Result ℕ
sent_answer sms false = err internal
sent_answer _ delivered = ok 600

-- `send` and `sendEmail`; the code is stored before the message goes out
unfoldable pub send : (ℕ → ℕ) → Address → ℕ → Bool → ℕ → Codes → Result ℕ × Codes
send hash_code a code delivered now s =
    let (attempts, sends) = incr a now s.sends in
    if ltb send_max attempts then (err too_many_requests, record s { sends = sends }) else (
      sent_answer a.channel delivered,
      record s {
        sends = sends;
        stored =
            record { address = a; hash = hash_code code; until = now + ttl_ms }
            ∷ drop_code a s.stored;
      },
    )

-- the comparison with the stored hash
unfoldable pub check_code :
    (ℕ → ℕ) → Address → ℕ → Option StoredCode → Codes → Result (Unit {0}) × Codes
check_code hash_code a code none s = (err bad_request, s)
check_code hash_code a code (some c) s =
    if c.hash == hash_code code
    then (ok tt, record s { verifies = drop_counter a s.verifies })
    else (err bad_request, s)

-- `verify` and `verifyEmail`
unfoldable pub verify : (ℕ → ℕ) → Address → ℕ → ℕ → Codes → Result (Unit {0}) × Codes
verify hash_code a code now s =
    let (attempts, verifies) = incr a now s.verifies in
    let t = record s { verifies = verifies } in
    if ltb verify_max attempts
    then (err too_many_requests, t)
    else let (found, rest) = consume_stored a now s.stored in
      check_code hash_code a code found (record t { stored = rest })
