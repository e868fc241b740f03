-- ===== src/Verifier/Expiry.antt =====
-- Two calls of `verify` with one request, the second at the end of the validity window.
use self_agent_id.Verifier.Replays.{attempt_of, record_at, signed_injective, verify_steps-recorded}
use self_agent_id.Base.{
  ℕ, ◌+◌, ◌≤◌, ◌≡◌, refl, sym, ◌∙◌, ap, inl, inr, true, false, some, arith, Distinct, length,
  le→ltb,
}
use mathlib.Core.Path.{subst}
use self_agent_id.Base.Int.{pos, abs_diff}
use self_agent_id.Replay.{check_and_record_replay}
use self_agent_id.Replay.Window.{attempt_at_expiry}
use self_agent_id.Verifier.{Verifier, VerificationResult}
use self_agent_id.Verifier.Auth.{
  World, VerifyParams, Signed, signed, authenticate, authenticate_ed25519, authenticate_secp256k1,
  ed25519_valid, derive_address, recover, message_for, identify,
}
use self_agent_id.Verifier.Flow.{next, ◌>>=◌}
use self_agent_id.Verifier.Chain.{guard_replay}
use self_agent_id.Verifier.Signer.{authenticate-signed}
use self_agent_id.Verifier.Verify.{verify, result_of, verify_steps}
use self_agent_id.Verifier.Verify.Accepts.{result_of_valid, verify-IsAccepted, verify_steps-reply}

-- The same world at another time of the two readings before the chain is asked.
abbrev pub world_later : World → ℕ → World
world_later w now = record w { clock = record w.clock { fresh = now; replay = now } }

-- The clock matters for the age of the timestamp only.
authenticate_later :
    (w : World) (now max_age : ℕ) (params : VerifyParams) (s : Signed)
    → authenticate w max_age params ≡ signed s
    → abs_diff now s.ts ≤ max_age
    → authenticate (world_later w now) max_age params ≡ signed s
unfolding authenticate authenticate_ed25519 authenticate_secp256k1 ed25519_valid derive_address
    recover message_for
authenticate_later w now max_age params s h recent =
    let (parsed, before, message, proof) = authenticate-signed w max_age params s h in
    let was = le→ltb max_age (abs_diff w.clock.fresh s.ts) before in
    rw (parsed, le→ltb max_age (abs_diff now s.ts) recent, authenticate)
      (rw (parsed, was, authenticate) at h)

guard_replay_unseen :
    (w : World) (params : VerifyParams) (s : Signed) (now : ℕ) (v u : Verifier)
    → v.settings.enable_replay_protection ≡ true
    → u.settings ≡ v.settings
    → (record_at v (record (attempt_of w params s) { now = now }) u.replay_cache).0 ≡ false
    → (left : Verifier) × (guard_replay now params.signature s u ≡ next tt left)
unfolding guard_replay
guard_replay_unseen w params s now v u on settings unseen =
    let recorded =
      check_and_record_replay u.settings.replay_cache_max_entries u.settings.max_age_ms now
        params.signature s.message s.ts u.replay_cache in
    let on_still = ap (λ x. x.enable_replay_protection) settings ∙ on in
    let unseen_still : recorded.0 ≡ false =
      subst
        (λ x.
          (check_and_record_replay x.replay_cache_max_entries x.max_age_ms now params.signature
            s.message s.ts u.replay_cache).0
          ≡ false)
        (sym settings) unseen in
    (record u { replay_cache = recorded.1 }, rw (on_still, unseen_still, guard_replay) refl)

signed_and_unseen :
    (w : World) (params : VerifyParams) (s : Signed) (now : ℕ) (u left : Verifier)
    → authenticate w u.settings.max_age_ms params ≡ signed s
    → guard_replay now params.signature s u ≡ next tt left
    → (identify w params >>= λ s. guard_replay now params.signature s) u ≡ next tt left
unfolding identify
signed_and_unseen w params s now u left auth passed = rw (auth, ◌>>=◌) passed

-- The last millisecond of the validity window: after a call of `verify` with a valid result, for a
-- timestamp that is not negative, a second call with the very same request that reads the clock at this
-- timestamp plus the maximum age gets through steps 1 to 5 and the replay check: the timestamp still
-- counts as fresh, the same signer is proved, and the request's fingerprint is already forgotten.
-- Replay protection must be on and the replay cache must have room for one more entry.
pub replay_at_expiry :
    (w : World) (params : VerifyParams) (v : Verifier) (r : VerificationResult) (s : Signed) (t : ℕ)
    → Distinct v.replay_cache
    → length v.replay_cache + 1 ≤ v.settings.replay_cache_max_entries
    → v.settings.enable_replay_protection ≡ true
    → (verify w params v).0 ≡ some r
    → r.valid ≡ true
    → authenticate w v.settings.max_age_ms params ≡ signed s
    → s.ts ≡ pos t
    → (authenticate (world_later w (t + v.settings.max_age_ms)) v.settings.max_age_ms params
        ≡ signed s)
      × (left : Verifier) × ((identify (world_later w (t + v.settings.max_age_ms)) params >>= λ s.
              guard_replay (t + v.settings.max_age_ms) params.signature s)
            (verify w params v).1
          ≡ next tt left)
unfolding verify abs_diff
replay_at_expiry w params v r s t d room on first valid auth at =
    elim (result_of_valid w (verify_steps w params v) r first) [
      | inr (u, replied) ↦ absurd (ground (arith, verify_steps-reply w params v replied))
      | inl (u, went_on) ↦
          let now = t + v.settings.max_age_ms in
          let (s0, auth0, settings, recorded) = verify_steps-recorded w params v on went_on in
          let same = signed_injective s0 s (sym auth0 ∙ auth) in
          let cache : u.replay_cache ≡ (record_at v (attempt_of w params s) v.replay_cache).1 =
            recorded ∙ ap (λ x. (record_at v (attempt_of w params x) v.replay_cache).1) same in
          let left : (verify w params v).1 ≡ u = ap (λ x. (result_of w x).1) went_on in
          let before = verify-IsAccepted w params v r first valid in
          let same' : before.signer ≡ s =
            signed_injective before.signer s (sym before.authentic ∙ auth) in
          let fresh =
            subst (λ x. (record_at v (attempt_of w params x) v.replay_cache).0 ≡ false) same'
              (before.not_replayed on) in
          let forgotten =
            attempt_at_expiry v.settings.replay_cache_max_entries v.settings.max_age_ms t
              (attempt_of w params s) v.replay_cache d room at fresh in
          let again =
            authenticate_later w now v.settings.max_age_ms params s auth (rw at (ground arith)) in
          let (after, passed) = guard_replay_unseen w params s now v u on settings (
            subst (λ x. (record_at v (record (attempt_of w params s) { now = now }) x).0 ≡ false)
              (sym cache) forgotten) in
          let later = world_later w now in
          (
            again,
            after,
            subst
                (λ x.
                  (identify later params >>= λ s. guard_replay now params.signature s) x
                  ≡ next tt after)
                (sym left)
                (signed_and_unseen later params s now u after
                  (subst (λ x. authenticate later x.max_age_ms params ≡ signed s) (sym settings)
                    again)
                  passed),
          )
    ]
