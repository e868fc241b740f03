-- ===== src/Verifier/Examples.antt =====
-- Tests of `verify`, and its theorems at a concrete request.
use self_agent_id.Base.{inr, ◌≤◌, ◌≡◌, refl, true, false, none, some, codes, arith, get_or_else}
use self_agent_id.Base.Int.{pos, abs_diff}
use self_agent_id.Signing.{parse_int}
use self_agent_id.Verifier.{Verifier, VerificationResult, new_verifier, timestamp_invalid}
use self_agent_id.Verifier.Auth.{Signed, World, message_for, empty, fail}
use self_agent_id.Verifier.Verify.{verify}
use self_agent_id.Verifier.Verify.Facts.{IsAccepted}
use self_agent_id.Verifier.Verify.Accepts.{verify-IsAccepted}
use self_agent_id.Verifier.Signer.{IsRecovered, authenticate-signed}
use self_agent_id.Verifier.Flaws.{untimely, verify_refuses-Flaw}
use self_agent_id.Verifier.Replays.{verify_refuses_replay}
use self_agent_id.Verifier.Credentials.{without_requirements, verify_without_credentials}
use self_agent_id.Verifier.Samples.{
  program, default_verifier, accepted, world_at, signed_request, default_config, sample_registry,
}
use self_agent_id.Verifier.Flow.{next, ◌>>=◌}
use self_agent_id.Verifier.Chain.{guard_replay}
use self_agent_id.Verifier.Auth.{identify}
use self_agent_id.Verifier.Auth.{authenticate, signed}
use self_agent_id.Verifier.Expiry.{world_later, replay_at_expiry}

abbrev signer : Signed
signer = record {
  address = codes "0xSIG";
  key = codes "0x000xSIG";
  message = message_for (world_at 1000) signed_request;
  ts = pos 1000;
}

accepted_valid : accepted.valid ≡ true
unfolding program
accepted_valid = refl

verify-IsAccepted_example : IsAccepted (world_at 1000) signed_request default_verifier accepted
unfolding program
verify-IsAccepted_example =
    verify-IsAccepted (world_at 1000) signed_request default_verifier accepted refl refl

authenticate-signed_example :
    (parse_int signed_request.timestamp ≡ some (pos 1000))
    × (abs_diff 1000 (pos 1000) ≤ 300000)
    × (signer.message ≡ message_for (world_at 1000) signed_request)
    × IsRecovered (world_at 1000) signed_request signer
unfolding program
authenticate-signed_example = authenticate-signed (world_at 1000) 300000 signed_request signer refl

verify_refuses-Flaw_example :
    verify (world_at 301001) signed_request default_verifier
    ≡ (some (fail timestamp_invalid empty), default_verifier)
unfolding program
verify_refuses-Flaw_example =
    verify_refuses-Flaw (world_at 301001) signed_request default_verifier timestamp_invalid
      (untimely (inr (pos 1000, refl, omega arith)))

abbrev again : VerificationResult
again =
    get_or_else
      (verify (world_at 2000) signed_request
        (verify (world_at 1000) signed_request default_verifier).1).0
      empty

verify_refuses_replay_example : again.valid ≡ false
unfolding program
verify_refuses_replay_example =
    verify_refuses_replay (world_at 1000) (world_at 2000) signed_request signed_request
      default_verifier accepted again signer signer tt (omega arith) refl refl refl refl refl refl
      refl (omega arith) refl

-- A world in which the credentials cannot be read.
abbrev blind : World
blind = record (world_at 1000) {
  registry = record sample_registry { get_agent_credentials = λ id. none };
}

abbrev adults_only : Verifier
adults_only =
    new_verifier (record default_config { minimum_age = some 18; include_credentials = some true })

-- No age is known there, and the request is accepted all the same.
blind_accepts : (get_or_else (verify blind signed_request adults_only).0 empty).valid ≡ true
unfolding program
blind_accepts = refl

verify_without_credentials_example :
    (verify blind signed_request adults_only).0
    ≡ (verify blind signed_request (without_requirements adults_only)).0
verify_without_credentials_example =
    verify_without_credentials blind (λ id. refl) signed_request adults_only

replay_at_expiry_example :
    (authenticate (world_later (world_at 1000) 301000) 300000 signed_request ≡ signed signer)
    × (left : Verifier) × ((identify (world_later (world_at 1000) 301000) signed_request >>= λ s.
            guard_replay 301000 signed_request.signature s)
          (verify (world_at 1000) signed_request default_verifier).1
        ≡ next tt left)
unfolding program
replay_at_expiry_example =
    replay_at_expiry (world_at 1000) signed_request default_verifier accepted signer 1000 tt
      (omega arith) refl refl refl refl refl
