-- ===== src/ReplayGuard/Examples.antt =====
-- Tests of the replay guard, and its theorems at concrete requests.
use self_agent_id.Base.{
  inl, ◌≡◌, refl, none, some, [], ◌∷◌, codes, arith, get, set, retain, eq_text, to_lower, to_upper,
  starts_with, trim_start, is_white,
}
use self_agent_id.Base.Int.{pos, add_ℕ}
use self_agent_id.Signing.{parse_int, compute_signing_message}
use self_agent_id.Signing.Samples.{sample_ethers, sample_parser}
use self_agent_id.SecurityStore.{
  Store, set_if_absent_with_ttl, set_in_memory, cleanup_memory, fall_back,
}
use self_agent_id.SecurityStore.Once.{claim, perform, perform_all}
use self_agent_id.ReplayGuard.{
  GuardParams, ok, replay_detected, check_and_record_replay, guard_key, compute_message,
  canonicalize_url,
}
use self_agent_id.Verifier.Auth.{VerifyParams, Signed, message_for}
use self_agent_id.Verifier.Samples.{world_at}
use self_agent_id.Base.Int.{abs_diff}
use self_agent_id.Signing.Samples.{verify_sample}
use self_agent_id.Verifier.Auth.{authenticate, authenticate_secp256k1, recover}
use self_agent_id.Signing.Samples.{sample_parser_rooted}
use self_agent_id.ReplayGuard.Agrees.{compute_message-signed}
use self_agent_id.ReplayGuard.Window.{guard_refuses}

program : Unit {0}
unfolding check_and_record_replay guard_key compute_message canonicalize_url parse_int
    set_if_absent_with_ttl set_in_memory cleanup_memory fall_back perform perform_all get set retain
    eq_text to_lower to_upper starts_with trim_start is_white add_ℕ
program = tt

abbrev in_memory : Store (Unit {0})
in_memory = record {
  upstash = none;
  remote = tt;
  memory = record { memory_set = []; memory_counters = [] };
}

abbrev request : GuardParams
request = record {
  signature = codes "0xAB";
  timestamp = codes "1000";
  method = codes "post";
  url = codes "/a";
  body = some (codes "{}");
  max_age_ms = some 500;
  scope = none;
}

abbrev sent : VerifyParams
sent = record {
  signature = codes "0xAB";
  timestamp = codes "1000";
  method = codes "post";
  url = codes "/a";
  body = some (codes "{}");
  keytype = none;
  agent_key = none;
}

abbrev signer : Signed
signer = record {
  address = codes "0xAB";
  key = codes "0x000xAB";
  message = message_for (world_at 1200) sent;
  ts = pos 1000;
}

compute_message-signed_example :
    (compute_message sample_ethers sample_parser sent.timestamp sent.method sent.url sent.body
      ≡ signer.message)
    × (signer.message
        ≡ compute_signing_message sample_ethers sample_parser sent.timestamp sent.method sent.url
            sent.body)
unfolding program authenticate abs_diff authenticate_secp256k1 recover verify_sample
compute_message-signed_example =
    compute_message-signed (world_at 1200) 500 sent signer sample_parser_rooted (inl refl) refl

guard_refuses_example :
    (check_and_record_replay sample_ethers sample_parser 1400 1401
      (record request { signature = codes "0xab" })
      (perform_all
        (claim 1300 (codes "k") 5 ∷ [])
        (check_and_record_replay sample_ethers sample_parser 1100 1101 request in_memory).1)).0
    ≡ replay_detected
unfolding program
guard_refuses_example =
    guard_refuses sample_ethers sample_parser 1100 1101 1400 1401 request (codes "0xab") (pos 1000)
      (claim 1300 (codes "k") 5 ∷ []) in_memory refl
      (record { set_distinct = tt; counters_distinct = tt }) refl refl (omega arith) refl
      (omega arith) (omega arith)

-- At its timestamp plus the maximum age the request is let through again.
again_at_expiry :
    (check_and_record_replay sample_ethers sample_parser 1500 1500 request
      (check_and_record_replay sample_ethers sample_parser 1100 1100 request in_memory).1).0
    ≡ ok
unfolding program
again_at_expiry = refl
