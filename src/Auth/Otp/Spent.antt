-- ===== src/Auth/Otp/Spent.antt =====
-- An address that has no code left, until one is sent to it.
use bondzi_backend.Prelude.{
  ℕ, ◌≡◌, ◌≢◌, refl, Bool, false, Option, none, some, List, [], ◌∷◌, inl, inr, ltb, ok, find?, any,
  keep, Bool-cases, arith,
}
use bondzi_backend.Auth.Otp.{
  Address, same_address, StoredCode, Codes, send_max, verify_max, incr, live_code, consume_stored,
  send, check_code, verify,
}

-- a call of one of the four methods
pub data Call : Type 0 where
  sends : (a : Address) (code : ℕ) (delivered : Bool) (now : ℕ) → Call
  verifies : (a : Address) (code now : ℕ) → Call

abbrev pub sends_to : Address → Call → Bool
sends_to a (sends b code delivered now) = same_address b a
sends_to a (verifies b code now) = false

abbrev pub has_code : Address → Codes → Bool
has_code a s = any (λ c. same_address c.address a) s.stored

any-keep :
    (p q : StoredCode → Bool) (xs : List StoredCode) → any p xs ≡ false → any p (keep q xs) ≡ false
any-keep p q [] h = refl
any-keep p q (x ∷ xs) h = ground (arith, any-keep p q xs)

module _ (hash_code : ℕ → ℕ) where
  pub run_call : Call → Codes → Codes
  run_call (sends a code delivered now) s = (send hash_code a code delivered now s).1
  run_call (verifies a code now) s = (verify hash_code a code now s).1

  pub run : List Call → Codes → Codes
  run [] s = s
  run (c ∷ calls) s = run calls (run_call c s)

  module _ (a : Address) where
    send-has_code :
        (b : Address) (code : ℕ) (delivered : Bool) (now : ℕ) (s : Codes)
        → same_address b a ≡ false
        → has_code a s ≡ false
        → has_code a (send hash_code b code delivered now s).1 ≡ false
    unfolding send
    send-has_code b code delivered now s other h =
        elim (Bool-cases (ltb send_max (incr b now s.sends).0)) [
          | inl many ↦ rw (many, send) h
          | inr few ↦ rw (few, send, other) (any-keep _ _ s.stored h)
        ]

    check_code-stored :
        (b : Address) (code : ℕ) (found : Option StoredCode) (s : Codes)
        → (check_code hash_code b code found s).1.stored ≡ s.stored
    unfolding check_code
    check_code-stored b code none s = refl
    check_code-stored b code (some c) s = ground arith

    verify-has_code :
        (b : Address) (code now : ℕ) (s : Codes)
        → has_code a s ≡ false
        → has_code a (verify hash_code b code now s).1 ≡ false
    unfolding verify consume_stored
    verify-has_code b code now s h = elim (Bool-cases (ltb verify_max (incr b now s.verifies).0)) [
      | inl many ↦ rw (many, verify) h
      | inr few ↦ rw (few, verify, check_code-stored) (any-keep _ _ s.stored h)
    ]

    pub run-has_code :
        (calls : List Call) (s : Codes)
        → any (sends_to a) calls ≡ false
        → has_code a s ≡ false
        → has_code a (run calls s) ≡ false
    unfolding run run_call
    run-has_code [] s none_sent h = h
    run-has_code (sends b code delivered now ∷ calls) s none_sent h =
        run-has_code calls _ (ground arith) (send-has_code b code delivered now s (ground arith) h)
    run-has_code (verifies b code now ∷ calls) s none_sent h =
        run-has_code calls _ none_sent (verify-has_code b code now s h)

    find?-live :
        (now : ℕ) (xs : List StoredCode)
        → any (λ c. same_address c.address a) xs ≡ false
        → find? (live_code a now) xs ≡ none
    find?-live now [] h = refl
    find?-live now (x ∷ xs) h = ground (arith, find?-live now xs)

    pub verify-refused :
        (code now : ℕ) (s : Codes)
        → has_code a s ≡ false
        → (verify hash_code a code now s).0 ≢ ok tt
    unfolding verify consume_stored check_code
    verify-refused code now s h = elim (Bool-cases (ltb verify_max (incr a now s.verifies).0)) [
      | inl many ↦ rw (many, verify) (λ e. cc)
      | inr few ↦ rw (few, verify, find?-live now s.stored h) (λ e. cc)
    ]
