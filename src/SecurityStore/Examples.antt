-- ===== src/SecurityStore/Examples.antt =====
-- Tests of the security store, and its theorems at concrete requests.
use self_agent_id.Base.{
  if◌then◌else◌, ltb, ℕ, ◌+◌, ◌≡◌, refl, false, none, some, List, [], ◌∷◌, codes, arith, get, set,
  retain, eq_text, print_nat,
}
use self_agent_id.Base.Int.{pos}
use self_agent_id.SecurityStore.{
  Fetched, Store, number, not_ok, data_of, set_if_absent_with_ttl, set_in_memory,
  increment_in_memory, cleanup_memory, increment_with_window, increment_upstash, start_window,
  read_ttl, run_upstash_command, reply_of, fall_back, check_rate_limit,
}
use self_agent_id.SecurityStore.Once.{Call, claim, count, perform, perform_all, inserted_once}
use self_agent_id.SecurityStore.Limit.{Request, let_through, let_through_limit}

program : Unit {0}
unfolding set_if_absent_with_ttl set_in_memory increment_in_memory cleanup_memory
    increment_with_window increment_upstash start_window read_ttl run_upstash_command reply_of
    fall_back check_rate_limit perform perform_all let_through get set retain eq_text print_nat
program = tt

abbrev in_memory : Store (Unit {0})
in_memory = record {
  upstash = none;
  remote = tt;
  memory = record { memory_set = []; memory_counters = [] };
}

-- A remote store that counts the commands, answers each of them with that number, and fails from
-- the third command on.
abbrev answer : ℕ → Fetched
answer n = if ltb n 3 then data_of none (number (pos n)) else not_ok 503

abbrev remote : Store ℕ
remote = record {
  upstash = some (record { fetch = λ command n. (answer (n + 1), n + 1); to_number = λ t. none });
  remote = 0;
  memory = record { memory_set = []; memory_counters = [] };
}

-- The third command fails, so the counter in memory is used.
falls_back :
    (increment_with_window 1000 (codes "k") 500 remote).0
    ≡ record { count = some (pos 1); ttl_ms = 500 }
unfolding program
falls_back = refl

abbrev between : List Call
between = claim 1200 (codes "other") 10 ∷ count 1300 (codes "k") 10 ∷ []

inserted_once_example :
    (set_if_absent_with_ttl 1400
      (codes "k")
      5
      (perform_all between (set_if_absent_with_ttl 1000 (codes "k") 500 in_memory).1)).0
    ≡ false
unfolding program
inserted_once_example =
    inserted_once 1000 1400 (codes "k") 500 5 between in_memory refl
      (record { set_distinct = tt; counters_distinct = tt }) refl (omega arith) (omega arith)

abbrev request_at : ℕ → Request
request_at now = record { now = now; key = codes "k"; limit = 2; window_ms = 500 }

let_through_limit_example :
    let_through (codes "k") (request_at 1000 ∷ request_at 1001 ∷ request_at 1002 ∷ []) in_memory ≡ 2
unfolding program
let_through_limit_example =
    let_through_limit (request_at 1000) (request_at 1001 ∷ request_at 1002 ∷ []) in_memory refl
      (record { set_distinct = tt; counters_distinct = tt }) refl
      (omega arith, λ e. refl, (omega arith, λ e. refl, tt))
