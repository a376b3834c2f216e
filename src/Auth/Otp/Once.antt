-- ===== src/Auth/Otp/Once.antt =====
-- A code that was sent can be used once.
use bondzi_backend.Prelude.{
  ℕ, ◌+◌, ◌<◌, ◌≡◌, ◌≢◌, refl, Bool, true, false, not, some, List, [], ◌∷◌, any, keep, ltb, ==_refl,
  find?, ok, inl, inr, Option-cases, arith,
}
use bondzi_backend.Auth.Otp.{
  Channel, channel_eq, Address, same_address, sent_answer, Counter, StoredCode, Codes, send_max,
  verify_max, ttl_ms, live_counter, count_of, incr, drop_code, drop_counter, live_code,
  consume_stored, send, check_code, verify,
}
use bondzi_backend.Auth.Otp.Spent.{Call, sends_to, has_code, run, run-has_code, verify-refused}

channel_refl : (c : Channel) → channel_eq c c ≡ true
channel_refl c = ground arith

same_address_refl : (a : Address) → same_address a a ≡ true
same_address_refl a = rw (channel_refl a.channel, ==_refl a.name) refl

incr-count :
    (a : Address) (now : ℕ) (rows : List Counter) → (incr a now rows).0 ≡ count_of a now rows + 1
unfolding incr
incr-count a now rows = elim (Option-cases (find? (live_counter a now) rows)) [
  | inl n ↦ rw (n, incr, count_of) refl
  | inr (c, n) ↦ rw (n, incr, count_of) refl
]

any-dropped :
    (p : StoredCode → Bool) (xs : List StoredCode) → any p (keep (λ x. not (p x)) xs) ≡ false
any-dropped p [] = refl
any-dropped p (x ∷ xs) = ground (arith, any-dropped p xs)

module _ (hash_code : ℕ → ℕ) (a : Address) (code : ℕ) (delivered : Bool) where
  send_allowed :
      (now : ℕ) (s : Codes)
      → count_of a now s.sends < send_max
      → (rows : List Counter) × (send hash_code a code delivered now s ≡ (
        sent_answer a.channel delivered,
        record s {
          sends = rows;
          stored =
              record { address = a; hash = hash_code code; until = now + ttl_ms }
              ∷ drop_code a s.stored;
        },
      ))
  unfolding send
  send_allowed now s few =
      let n = incr-count a now s.sends in
      let allowed : ltb send_max (incr a now s.sends).0 ≡ false = ground arith in
      ((incr a now s.sends).1, rw (allowed, send) refl)

  -- a verification that the counter allows
  verify_allowed :
      (c now : ℕ) (s : Codes)
      → count_of a now s.verifies < verify_max
      → (rows : List Counter) × (verify hash_code a c now s
          ≡ check_code hash_code a c
              (find? (live_code a now) s.stored)
              (record s { verifies = rows; stored = drop_code a s.stored }))
  unfolding verify consume_stored
  verify_allowed c now s few =
      let n = incr-count a now s.verifies in
      let allowed : ltb verify_max (incr a now s.verifies).0 ≡ false = ground arith in
      ((incr a now s.verifies).1, rw (allowed, verify) refl)

  -- A code round trip: when fewer than 3 codes were sent to the address and fewer than 5 were tried
  -- in their windows, sending answers by what came of the message, the code verifies within ten
  -- minutes, also when the message failed and whatever the hash function is, and after that no code
  -- verifies at the address, at any time and after any calls that do not send one to it.
  pub send-verify :
      (now later again other : ℕ) (calls : List Call) (s : Codes)
      → count_of a now s.sends < send_max
      → count_of a later s.verifies < verify_max
      → later < now + ttl_ms
      → any (sends_to a) calls ≡ false
      → (t u : Codes) × (send hash_code a code delivered now s
          ≡ (sent_answer a.channel delivered, t))
        × (verify hash_code a code later t ≡ (ok tt, u))
        × ((verify hash_code a other again (run hash_code calls u)).0 ≢ ok tt)
  unfolding check_code
  send-verify now later again other calls s few tries soon quiet =
      let (sends, run_send) = send_allowed now s few in
      let entry : StoredCode = record {
        address = a;
        hash = hash_code code;
        until = now + ttl_ms;
      } in
      let t : Codes = record s { sends = sends; stored = entry ∷ drop_code a s.stored } in
      let (verifies, checked) = verify_allowed code later t tries in
      let live : ltb later (now + ttl_ms) ≡ true = ground arith in
      let found : find? (live_code a later) t.stored ≡ some entry =
        rw (same_address_refl a, live) refl in
      let u : Codes = record t {
        verifies = drop_counter a verifies;
        stored = drop_code a t.stored;
      } in
      let gone : has_code a u ≡ false = any-dropped (λ c. same_address c.address a) t.stored in
      (
        t,
        u,
        run_send,
        rw (checked, found, ==_refl (hash_code code), check_code) refl,
        verify-refused hash_code a other again _ (run-has_code hash_code a calls u quiet gone),
      )
