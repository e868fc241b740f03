-- ===== src/Verifier/Verify/Accepts.antt =====
-- What a valid result of `verify` stands for.
use self_agent_id.Base.{◌≡◌, refl, ◌⊎◌, inl, inr, true, false, some, arith}
use self_agent_id.Verifier.{Verifier, VerificationResult}
use self_agent_id.Verifier.Flow.{Flow, next, reply, raise, >>=-eq-next, >>=-eq-reply}
use self_agent_id.Verifier.Auth.{World, VerifyParams, identify}
use self_agent_id.Verifier.Chain.{guard_replay, stop_if, report, status_failure}
use self_agent_id.Verifier.Verify.{verify, result_of, verify_steps, check_on_chain, check_provider}
use self_agent_id.Verifier.Verify.Shape
use self_agent_id.Verifier.Verify.Judged.{judge-next, judge-reply}
use self_agent_id.Verifier.Verify.Facts.{IsAccepted, assemble}

module _ (w : World) (params : VerifyParams) (v : Verifier) where
  pub verify_steps-reply :
      {r : VerificationResult} {u : Verifier}
      → verify_steps w params v ≡ reply r u
      → r.valid ≡ false
  unfolding verify_steps
  verify_steps-reply {r} {u} h = elim (>>=-eq-reply (identify w params) _ v h) [
    | inl early ↦ Shape.identify-reply w params v early
    | inr (s, v1, e1, h1) ↦
        elim (>>=-eq-reply (guard_replay w.clock.replay params.signature s) _ v1 h1) [
          | inl early ↦ Shape.guard_replay-reply w.clock.replay params.signature s v1 early
          | inr (t1, v2, e2, h2) ↦ elim (>>=-eq-reply (check_on_chain w s.key) _ v2 h2) [
            | inl early ↦ Shape.check_on_chain-reply w s.key v2 early
            | inr (status, v3, e3, h3) ↦
                elim (>>=-eq-reply
                  (stop_if (status_failure status) (report w.clock.expiry s status)) _ v3 h3) [
                    | inl early ↦
                        Shape.stop_if-reply (status_failure status) (report w.clock.expiry s status)
                          v3 refl early
                    | inr (t2, v4, e4, h4) ↦
                        elim (>>=-eq-reply
                          (check_provider w (report w.clock.expiry s status) status) _ v4 h4) [
                            | inl early ↦
                                Shape.check_provider-reply w (report w.clock.expiry s status) status
                                  v4 refl early
                            | inr (t3, v5, e5, h5) ↦ judge-reply w s status v5 h5
                          ]
                  ]
          ]
        ]
  ]

verify_steps-next :
    (w : World) (params : VerifyParams) (v : Verifier) {r : VerificationResult} {u : Verifier}
    → verify_steps w params v ≡ next r u
    → IsAccepted w params v r
unfolding verify_steps
verify_steps-next w params v h =
    let (s, v1, e1, h1) = >>=-eq-next (identify w params) _ v h in
    let (auth, same1) = Shape.identify-next w params v e1 in
    let (t1, v2, e2, h2) = >>=-eq-next (guard_replay w.clock.replay params.signature s) _ v1 h1 in
    let (unseen, caches, same2) = Shape.guard_replay-next w.clock.replay params.signature s v1 e2 in
    let (status, v3, e3, h3) = >>=-eq-next (check_on_chain w s.key) _ v2 h2 in
    let (known, same3) = Shape.check_on_chain-next w s.key v2 e3 in
    let base = report w.clock.expiry s status in
    let (t2, v4, e4, h4) = >>=-eq-next (stop_if (status_failure status) base) _ v3 h3 in
    let (good, same4) = Shape.stop_if-next (status_failure status) base v3 e4 in
    let (t3, v5, e5, h5) = >>=-eq-next (check_provider w base status) _ v4 h4 in
    let (provider, same5) = Shape.check_provider-next w base status v4 e5 in
    assemble w params s status v v1 v2 v3 v4 v5 auth same1 unseen caches same2 known same3 good
      same4 provider same5 (judge-next w s status v5 h5)

pub result_of_valid :
    (w : World) (flow : Flow VerificationResult) (r : VerificationResult)
    → (result_of w flow).0 ≡ some r
    → ((u : Verifier) × (flow ≡ next r u)) ⊎ ((u : Verifier) × (flow ≡ reply r u))
result_of_valid w (next q u) r h = inl (u, cc)
result_of_valid w (reply q u) r h = inr (u, cc)
result_of_valid w (raise u) r h = cc

-- A valid result of `verify` stands for these facts. The timestamp is a number within the maximum age;
-- the signature is one of this timestamp, method, URL and body and proves the reported address and key:
-- recovered from it, or checked under the Ed25519 key of the header; where replay protection is on, no
-- entry of a well-formed replay cache holds the request's fingerprint any longer; the status that the
-- chain or the unexpired cache gives for this key is verified, with a fresh proof; its provider is
-- the one that the registry or the unexpired cache names as Self's, where that is required; the human
-- has at most the allowed number of agents; credentials that were fetched meet the age, OFAC and
-- nationality requirements; and the rate limiter lets the address through.
pub verify-IsAccepted :
    (w : World) (params : VerifyParams) (v : Verifier) (r : VerificationResult)
    → (verify w params v).0 ≡ some r
    → r.valid ≡ true
    → IsAccepted w params v r
unfolding verify
verify-IsAccepted w params v r h valid = elim (result_of_valid w (verify_steps w params v) r h) [
  | inl (u, went_on) ↦ verify_steps-next w params v went_on
  | inr (u, replied) ↦ absurd (ground (arith, verify_steps-reply w params v replied))
]
