-- ===== src/Quota/Race.antt =====
-- Requests that run at the same time: `claim` and `finish_claim` are the two halves of `consume`,
-- one statement each, and those of other requests, on any keys, may come between them in any order.
-- The caps are the policies' and stay as they are meanwhile.
use mathlib.Core.Path.{subst}
use mathlib.Core.List.{◌++◌}
use bondzi_backend.Prelude.{
  ℕ, ◌+◌, ◌-◌, ◌≤◌, ◌≡◌, refl, Bool, true, false, ◌&&◌, Option, some, List, [], ◌∷◌, inl, inr,
  count_if, if◌then◌else◌, Result, ok, err, arith, Bool-cases,
}
use bondzi_backend.Quota.{Key, Usage, same_key, used, claim, finish_claim}
use bondzi_backend.Quota.Counter.{same_key_refl, eq_of_same_key, used-increment, used-decrement}

-- a request, by its key and what it answers
abbrev pub Request : Type 0
Request = Key × Result ℕ

-- The rows, the requests that have run their first statement only, and those that are through.
pub record System : Type 0 where
  pub rows : List Usage
  pub claimed : List Request
  pub answered : List Request

abbrev pub is_passed : Request → Bool
is_passed (k, ok n) = true
is_passed (k, err e) = false

abbrev pub is_of : Key → Request → Bool
is_of k r = same_key r.0 k

abbrev pub passed_of : Key → List Request → ℕ
passed_of k = count_if (λ r. is_passed r && is_of k r)

count_if-middle :
    (p : Request → Bool) (xs : List Request) (r : Request) (ys : List Request)
    → count_if p (xs ++ r ∷ ys) ≡ (if p r then 1 else 0) + count_if p (xs ++ ys)
count_if-middle p [] r ys = refl
count_if-middle p (x ∷ xs) r ys = omega (arith, count_if-middle p xs r ys)

passed_of-le : (k : Key) (rs : List Request) → passed_of k rs ≤ count_if (is_of k) rs
passed_of-le k [] = omega arith
passed_of-le k (r ∷ rs) = elim (Bool-cases (is_passed r)) [
  | inl passed ↦ rw passed (omega (arith, passed_of-le k rs))
  | inr refused ↦ rw refused (ground (arith, passed_of-le k rs))
]

-- The first statement adds one to the counter of its key, and passes within the cap only.
used-claim :
    (cap : Option ℕ) (j k : Key) (rows : List Usage)
    → used j (claim cap k rows).1 ≡ (if same_key k j then used j rows + 1 else used j rows)
unfolding claim
used-claim cap j k rows = used-increment j k rows

claim-le :
    (k : Key) (cap : ℕ) (rows : List Usage)
    → is_passed (k, (claim (some cap) k rows).0) ≡ true
    → used k rows + 1 ≤ cap
unfolding claim
claim-le k cap rows h = ground (arith, used-increment k k rows, same_key_refl k)

-- The second statement takes a refused request off the counter of its key.
used-finish_claim :
    (j k : Key) (answer : Result ℕ) (rows : List Usage)
    → used j (finish_claim k answer rows).1 ≡ (
        if is_passed (k, answer)
        then used j rows
        else if same_key k j
        then used j rows - 1
        else used j rows)
unfolding finish_claim
used-finish_claim j k (ok n) rows = refl
used-finish_claim j k (err e) rows = used-decrement j k rows

finish_claim-answer :
    (k : Key) (answer : Result ℕ) (rows : List Usage) → (finish_claim k answer rows).0 ≡ answer
unfolding finish_claim
finish_claim-answer k (ok n) rows = refl
finish_claim-answer k (err e) rows = refl

module _ (cap_of : Key → Option ℕ) where
  -- one statement of one request; which of the pending ones goes on is open
  pub data Step : System → System → Type 0 where
    claims :
        (s : System) (k : Key)
        → Step s (record s {
          rows = (claim (cap_of k) k s.rows).1;
          claimed = (k, (claim (cap_of k) k s.rows).0) ∷ s.claimed;
        })
    finishes :
        (s : System) (k : Key) (answer : Result ℕ) (before after : List Request)
        → s.claimed ≡ before ++ (k, answer) ∷ after
        → Step s (record s {
          rows = (finish_claim k answer s.rows).1;
          claimed = before ++ after;
          answered = (k, (finish_claim k answer s.rows).0) ∷ s.answered;
        })

  pub data Reach : System → Type 0 where
    start : Reach (record { rows = []; claimed = []; answered = [] })
    later : {s t : System} → Reach s → Step s t → Reach t

  -- the count never lags behind the requests
  record Inv (s : System) : Type 0 where
    exact : (k : Key) → used k s.rows ≡ passed_of k s.answered + count_if (is_of k) s.claimed
    within :
        (k : Key) (cap : ℕ)
        → cap_of k ≡ some cap
        → passed_of k s.answered + passed_of k s.claimed ≤ cap

  start-Inv : Inv (record { rows = []; claimed = []; answered = [] })
  start-Inv = record { exact = λ k. unfold used in refl; within = λ k cap e. omega arith }

  claims_within :
      (s : System) (k : Key) (cap : ℕ)
      → Inv s
      → cap_of k ≡ some cap
      → passed_of k s.answered + passed_of k ((k, (claim (cap_of k) k s.rows).0) ∷ s.claimed) ≤ cap
  claims_within s k cap h e = elim (Bool-cases (is_passed (k, (claim (cap_of k) k s.rows).0))) [
    | inl passed ↦
        let room = claim-le k cap s.rows (rw e at passed) in
        rw (passed, same_key_refl k) (omega (arith, h.exact k, passed_of-le k s.claimed))
    | inr refused ↦ rw refused (omega (arith, h.within k cap e))
  ]

  claims-Inv :
      (s : System) (k : Key)
      → Inv s
      → Inv (record s {
        rows = (claim (cap_of k) k s.rows).1;
        claimed = (k, (claim (cap_of k) k s.rows).0) ∷ s.claimed;
      })
  claims-Inv s k h = record {
    exact = λ j. ground (arith, used-claim (cap_of k) j k s.rows, h.exact j);
    within = λ j cap e. elim (Bool-cases (same_key k j)) [
      | inl same ↦
          subst
            (λ i.
              cap_of i ≡ some cap
              → passed_of i s.answered
                  + passed_of i ((k, (claim (cap_of k) k s.rows).0) ∷ s.claimed)
                ≤ cap)
            (eq_of_same_key k j same) (claims_within s k cap h) e
      | inr other ↦ elim (Bool-cases (is_passed (k, (claim (cap_of k) k s.rows).0))) [
        | inl passed ↦ rw (passed, other) (omega (arith, h.within j cap e))
        | inr refused ↦ rw refused (omega (arith, h.within j cap e))
      ]
    ];
  }

  finishes-Inv :
      (s : System) (k : Key) (answer : Result ℕ) (before after : List Request)
      → s.claimed ≡ before ++ (k, answer) ∷ after
      → Inv s
      → Inv (record s {
        rows = (finish_claim k answer s.rows).1;
        claimed = before ++ after;
        answered = (k, (finish_claim k answer s.rows).0) ∷ s.answered;
      })
  finishes-Inv s k answer before after e h = rw (finish_claim-answer k answer s.rows) record {
    exact = λ j.
        let old = rw (e, count_if-middle (is_of j) before (k, answer) after) at (h.exact j) in
        elim (Bool-cases (is_passed (k, answer))) [
          | inl passed ↦ rw (passed) (ground (arith, used-finish_claim j k answer s.rows))
          | inr refused ↦ rw (refused) (ground (arith, used-finish_claim j k answer s.rows))
        ];
    within = λ j cap c.
        let old =
          rw (e, count_if-middle (λ r. is_passed r && is_of j r) before (k, answer) after) at
            (h.within j cap c) in
        omega (arith, old);
  }

  Reach-Inv : {s : System} → Reach s → Inv s
  Reach-Inv start = start-Inv
  Reach-Inv (later r (claims s k)) = claims-Inv s k (Reach-Inv r)
  Reach-Inv (later r (finishes s k answer before after e)) =
      finishes-Inv s k answer before after e (Reach-Inv r)

  -- However the statements of concurrent requests on any keys interleave, at most as many requests
  -- of a key pass as its daily cap allows.
  pub Reach-capped :
      {s : System} (k : Key) (cap : ℕ)
      → Reach s
      → cap_of k ≡ some cap
      → passed_of k s.answered ≤ cap
  Reach-capped k cap r e = omega (arith, (Reach-Inv r).within k cap e)

  -- However the statements interleave, the counter of a key is the number of its requests that
  -- passed and of those whose second statement is still to come: exactly the number that passed,
  -- once none of its requests is half done.
  pub Reach-exact :
      {s : System} (k : Key)
      → Reach s
      → used k s.rows ≡ passed_of k s.answered + count_if (is_of k) s.claimed
  Reach-exact k r = (Reach-Inv r).exact k
