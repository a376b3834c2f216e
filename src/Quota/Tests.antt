-- ===== src/Quota/Tests.antt =====
-- The theorems of the counters at concrete requests.
use bondzi_backend.Prelude.{
  ℕ, ◌+◌, ◌≤◌, ◌≡◌, ◌↔◌, refl, Option, none, some, List, [], ◌∷◌, true, false, ok, err,
  too_many_requests, count_if,
}
use bondzi_backend.Enums.{ExamType, wassce, AccountType, plus}
use bondzi_backend.Quota.{
  TierService, Key, Usage, Student, increment, decrement, claim, finish_claim, used, resolve_tier,
  admit, assert_and_consume, snapshot_entry,
}
use bondzi_backend.Quota.Requests.{IsOk, ShowsRoom, snapshot_predicts}
use bondzi_backend.Quota.Race.{
  System, Reach, start, later, claims, finishes, is_of, passed_of, Reach-capped, Reach-exact,
}

abbrev key : Key
key = record { user_id = 1; service = 5; day = 20 }

abbrev rows : List Usage
rows = record { key = key; used_count = 3 } ∷ []

abbrev policy : TierService
policy = record {
  account_type = plus;
  service = 5;
  enabled = true;
  daily_cap = some 10;
  requires_form_level = false;
  updated_by = none;
}

abbrev students : List Student
students = record { id = 1; exam_type = some wassce; form_level = none } ∷ []

-- every student has Plus
abbrev tier_of : ℕ → ExamType → Option AccountType
tier_of user level = some plus

abbrev cap_of : Key → Option ℕ
cap_of k = some 1

policy_admitted : admit tier_of 1 5 students (policy ∷ []) ≡ ok policy
unfolding admit resolve_tier
policy_admitted = refl

snapshot_predicts_example :
    IsOk (assert_and_consume tier_of 1 5 20 students (policy ∷ []) rows).0
    ↔ ShowsRoom (snapshot_entry 1 20 rows policy).remaining
snapshot_predicts_example =
    snapshot_predicts tier_of 1 20 students (policy ∷ []) rows policy refl policy_admitted

-- two requests under a cap of one; the first one is the first to finish
abbrev both_claimed : System
both_claimed = record {
  rows = increment key (increment key []);
  claimed = (key, err too_many_requests) ∷ (key, ok 1) ∷ [];
  answered = [];
}

abbrev one_answered : System
one_answered = record {
  rows = both_claimed.rows;
  claimed = (key, err too_many_requests) ∷ [];
  answered = (key, ok 1) ∷ [];
}

abbrev both_answered : System
both_answered = record {
  rows = decrement key both_claimed.rows;
  claimed = [];
  answered = (key, err too_many_requests) ∷ (key, ok 1) ∷ [];
}

both_claimed-Reach : Reach cap_of both_claimed
unfolding claim increment used
both_claimed-Reach = later (later start (claims _ key)) (claims _ key)

one_answered-Reach : Reach cap_of one_answered
unfolding finish_claim
one_answered-Reach =
    later both_claimed-Reach
      (finishes both_claimed key (ok 1) ((key, err too_many_requests) ∷ []) [] refl)

both_answered-Reach : Reach cap_of both_answered
unfolding finish_claim
both_answered-Reach =
    later one_answered-Reach (finishes one_answered key (err too_many_requests) [] [] refl)

Reach-capped_example : passed_of key both_answered.answered ≤ 1
Reach-capped_example = Reach-capped cap_of key 1 both_answered-Reach refl

Reach-exact_example :
    used key one_answered.rows
    ≡ passed_of key one_answered.answered + count_if (is_of key) one_answered.claimed
Reach-exact_example = Reach-exact cap_of key one_answered-Reach
