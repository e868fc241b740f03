-- ===== src/Replay/Examples.antt =====
-- Tests of the replay cache, and its theorems at concrete requests.
use self_agent_id.Base.{
  ◌≡◌, refl, true, [], ◌∷◌, codes, arith, get, set, delete, retain, to_lower, eq_text,
}
use self_agent_id.Base.Int.{pos, add_ℕ, abs_diff}
use self_agent_id.Replay.{
  ReplayCache, prune_replay_cache, check_and_record_replay, replay_key, sort_by_expiry, evict,
}
use self_agent_id.Replay.Evict.{IsValid, check_and_record_replay-IsValid}
use self_agent_id.Replay.Window.{Attempt, attempt, attempts, replay_refused}

abbrev first : Attempt
first = record { now = 1000; signature = codes "0xAB"; message = codes "0x01"; ts = pos 900 }

abbrev again : Attempt
again = record { now = 1300; signature = codes "0xab"; message = codes "0x01"; ts = pos 900 }

abbrev other : Attempt
other = record { now = 1100; signature = codes "0xcd"; message = codes "0x02"; ts = pos 1100 }

abbrev old_entry : ReplayCache
old_entry = (codes "old", record { expires_at = 5000 }) ∷ []

program : Unit {0}
unfolding check_and_record_replay prune_replay_cache replay_key sort_by_expiry evict get set delete
    retain to_lower eq_text add_ℕ abs_diff
program = tt

-- With room for one entry, the entry that expires first makes room.
evicts_first :
    (attempt 1 500 other (attempt 1 500 first old_entry).1).1
    ≡ (codes "old", record { expires_at = 5000 })
      ∷ (codes "0xcd:0x02", record { expires_at = 1600 })
      ∷ []
unfolding program
evicts_first = refl

check_and_record_replay-IsValid_example :
    IsValid 1
      (check_and_record_replay 1 500 1000 (codes "0xAB") (codes "0x01") (pos 900) old_entry).1
check_and_record_replay-IsValid_example =
    check_and_record_replay-IsValid 1 500 1000 (codes "0xAB") (codes "0x01") (pos 900) old_entry
      (record { distinct = (tt, tt); bounded = omega arith })

replay_refused_example :
    (attempt 10 500 again (attempts 10 500 (other ∷ []) (attempt 10 500 first old_entry).1)).0
    ≡ true
unfolding program
replay_refused_example =
    replay_refused 10 500 first again (other ∷ []) old_entry (tt, tt) (omega arith) refl
      (omega arith, tt) (omega arith) refl refl
