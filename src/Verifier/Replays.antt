-- ===== src/Verifier/Replays.antt =====
-- Two calls of `verify` with one signature.
use self_agent_id.Base.{
  ℕ, ◌+◌, ◌≤◌, ◌<◌, ◌≡◌, sym, ◌∙◌, ap, inl, inr, Bool, true, false, some, Text, arith, Bool-cases,
  Distinct, length, [], to_lower,
}
use mathlib.Core.Path.{subst}
use mathlib.Core.Bool.{false≢true}
use self_agent_id.Base.Int.{add_ℕ}
use self_agent_id.Replay.{check_and_record_replay, ReplayCache}
use self_agent_id.Replay.Window.{Attempt, attempt, attempts, replay_refused}
use self_agent_id.Verifier.{Verifier, VerificationResult, ChainStatus}
use self_agent_id.Verifier.Auth.{World, VerifyParams, Signed, signed, authenticate, identify}
use self_agent_id.Verifier.Flow.{next, >>=-eq-next}
use self_agent_id.Verifier.Chain.{guard_replay, report, stop_if, status_failure}
use self_agent_id.Verifier.Verify.{
  verify, result_of, verify_steps, judge, check_on_chain, check_provider, check_sybil,
  load_credentials, check_credentials, limit_rate, with_credentials,
}
use self_agent_id.Verifier.Verify.Shape
use self_agent_id.Verifier.Verify.Facts.{IsAccepted}
use self_agent_id.Verifier.Verify.Accepts.{result_of_valid, verify-IsAccepted, verify_steps-reply}

-- A step leaves the settings and the replay cache alone.
abbrev Keeps : Verifier → Verifier → Type 0
Keeps v u = (u.settings ≡ v.settings) × (u.replay_cache ≡ v.replay_cache)

check_on_chain-Keeps :
    (w : World) (key : Text) (v : Verifier) {status : ChainStatus} {u : Verifier}
    → check_on_chain w key v ≡ next status u
    → Keeps v u
unfolding check_on_chain
check_on_chain-Keeps w key v h = ground arith

check_provider-Keeps :
    (w : World) (base : VerificationResult) (status : ChainStatus) (v : Verifier) {a : Unit {0}}
    {u : Verifier}
    → check_provider w base status v ≡ next a u
    → Keeps v u
unfolding check_provider
check_provider-Keeps w base status v h = ground arith

limit_rate-Keeps :
    (now : ℕ) (address : Text) (base : VerificationResult) (v : Verifier) {a : Unit {0}}
    {u : Verifier}
    → limit_rate now address base v ≡ next a u
    → Keeps v u
unfolding limit_rate
limit_rate-Keeps now address base v h = ground arith

guard_replay-recorded :
    (now : ℕ) (signature : Text) (s : Signed) (v : Verifier) {a : Unit {0}} {u : Verifier}
    → v.settings.enable_replay_protection ≡ true
    → guard_replay now signature s v ≡ next a u
    → (u.settings ≡ v.settings)
      × (u.replay_cache
          ≡ (check_and_record_replay v.settings.replay_cache_max_entries v.settings.max_age_ms now
              signature s.message s.ts v.replay_cache).1)
unfolding guard_replay
guard_replay-recorded now signature s v on h = ground arith

Keeps-chain :
    {r q : VerificationResult} (v v1 v2 v3 v4 u : Verifier)
    → v1 ≡ v
    → v2 ≡ v1
    → v3 ≡ v2
    → Keeps v3 v4
    → next r v4 ≡ next q u
    → Keeps v u
Keeps-chain v v1 v2 v3 v4 u p q o (k, l) e = (cc, cc)

judge-Keeps :
    (w : World) (s : Signed) (status : ChainStatus) (v : Verifier) {r : VerificationResult}
    {u : Verifier}
    → judge w s status v ≡ next r u
    → Keeps v u
unfolding judge
judge-Keeps w s status v h =
    let base = report w.clock.expiry s status in
    let (t1, v1, e1, h1) = >>=-eq-next (check_sybil w base status) _ v h in
    let (few, same1) = Shape.check_sybil-next w base status v e1 in
    let (credentials, v2, e2, h2) = >>=-eq-next (load_credentials w status) _ v1 h1 in
    let (loaded, same2) = Shape.load_credentials-next w status v1 e2 in
    let full = with_credentials w credentials base in
    let (t2, v3, e3, h3) = >>=-eq-next (check_credentials w full) _ v2 h2 in
    let (checked, same3) = Shape.check_credentials-next w full v2 e3 in
    let (t3, v4, e4, h4) = >>=-eq-next (limit_rate w.clock.limited s.address full) _ v3 h3 in
    Keeps-chain v v1 v2 v3 v4 _ same1 same2 same3
      (limit_rate-Keeps w.clock.limited s.address full v3 e4) h4

recorded_chain :
    (w : World) (params : VerifyParams) (s : Signed) (v v1 v2 v3 v4 v5 u : Verifier)
    → authenticate w v.settings.max_age_ms params ≡ signed s
    → v1 ≡ v
    → v2.settings ≡ v1.settings
    → (v2.replay_cache
        ≡ (check_and_record_replay v1.settings.replay_cache_max_entries v1.settings.max_age_ms
            w.clock.replay params.signature s.message s.ts v1.replay_cache).1)
    → Keeps v2 v3
    → v4 ≡ v3
    → Keeps v4 v5
    → Keeps v5 u
    → (s : Signed) × (authenticate w v.settings.max_age_ms params ≡ signed s)
      × (u.settings ≡ v.settings)
      × (u.replay_cache
          ≡ (check_and_record_replay v.settings.replay_cache_max_entries v.settings.max_age_ms
              w.clock.replay params.signature s.message s.ts v.replay_cache).1)
recorded_chain w params s v v1 v2 v3 v4 v5 u auth same1 settings2 recorded (a3, b3) same4 (a5, b5)
      (a6, b6) =
    let settings : u.settings ≡ v.settings = cc in
    let cache : u.replay_cache ≡ v2.replay_cache = cc in
    (
      s,
      auth,
      settings,
      cache
          ∙ subst
              (λ x.
                v2.replay_cache
                ≡ (check_and_record_replay x.settings.replay_cache_max_entries x.settings.max_age_ms
                    w.clock.replay params.signature s.message s.ts x.replay_cache).1)
              same1 recorded,
    )

-- What an accepted call leaves in the replay cache: the fingerprint that it recorded.
pub verify_steps-recorded :
    (w : World) (params : VerifyParams) (v : Verifier) {r : VerificationResult} {u : Verifier}
    → v.settings.enable_replay_protection ≡ true
    → verify_steps w params v ≡ next r u
    → (s : Signed) × (authenticate w v.settings.max_age_ms params ≡ signed s)
      × (u.settings ≡ v.settings)
      × (u.replay_cache
          ≡ (check_and_record_replay v.settings.replay_cache_max_entries v.settings.max_age_ms
              w.clock.replay params.signature s.message s.ts v.replay_cache).1)
unfolding verify_steps
verify_steps-recorded w params v {r} {u} on h =
    let (s, v1, e1, h1) = >>=-eq-next (identify w params) _ v h in
    let (auth, same1) = Shape.identify-next w params v e1 in
    let (t1, v2, e2, h2) = >>=-eq-next (guard_replay w.clock.replay params.signature s) _ v1 h1 in
    let (settings2, recorded) =
      guard_replay-recorded w.clock.replay params.signature s v1
        (ap (λ x. x.settings.enable_replay_protection) same1 ∙ on) e2 in
    let (status, v3, e3, h3) = >>=-eq-next (check_on_chain w s.key) _ v2 h2 in
    let base = report w.clock.expiry s status in
    let (t2, v4, e4, h4) = >>=-eq-next (stop_if (status_failure status) base) _ v3 h3 in
    let (t3, v5, e5, h5) = >>=-eq-next (check_provider w base status) _ v4 h4 in
    recorded_chain w params s v v1 v2 v3 v4 v5 u auth same1 settings2 recorded
      (check_on_chain-Keeps w s.key v2 e3) (Shape.stop_if-next (status_failure status) base v3 e4).1
      (check_provider-Keeps w base status v4 e5) (judge-Keeps w s status v5 h5)

pub signed_injective : (a b : Signed) → signed a ≡ signed b → a ≡ b
signed_injective a b e = cc

abbrev pub attempt_of : World → VerifyParams → Signed → Attempt
attempt_of w params s = record {
  now = w.clock.replay;
  signature = params.signature;
  message = s.message;
  ts = s.ts;
}

abbrev pub record_at : Verifier → Attempt → ReplayCache → Bool × ReplayCache
record_at v = attempt v.settings.replay_cache_max_entries v.settings.max_age_ms

-- An accepted call on a verifier whose replay cache refuses the request is impossible.
no_second :
    (w : World) (params : VerifyParams) (s : Signed) (v u : Verifier) (r : VerificationResult)
    → authenticate w v.settings.max_age_ms params ≡ signed s
    → v.settings.enable_replay_protection ≡ true
    → u.settings ≡ v.settings
    → (record_at v (attempt_of w params s) u.replay_cache).0 ≡ true
    → IsAccepted w params u r
    → ⊥
no_second w params s v u r auth on settings seen accepted =
    let auth' =
      subst (λ x. authenticate w x.max_age_ms params ≡ signed accepted.signer) settings
        accepted.authentic in
    let same : accepted.signer ≡ s = cc in
    let unseen = accepted.not_replayed (ap (λ x. x.enable_replay_protection) settings ∙ on) in
    let unseen' =
      subst
        (λ x.
          (check_and_record_replay x.replay_cache_max_entries x.max_age_ms w.clock.replay
            params.signature accepted.signer.message accepted.signer.ts u.replay_cache).0
          ≡ false)
        settings unseen in
    let unseen2 =
      subst (λ x. (record_at v (attempt_of w params x) u.replay_cache).0 ≡ false) same unseen' in
    false≢true (sym unseen2 ∙ seen)

-- A valid request cannot be used a second time: after a call of `verify` with a valid result, the
-- next call with a signature and a message that are the same up to letter case has no valid
-- result, if it reads the clock for the replay cache before the timestamp plus the maximum age.
-- Replay protection must be on and the replay cache must have room for one more entry; libraries,
-- chain and clock may answer the second call differently.
pub verify_refuses_replay :
    (w w' : World) (params params' : VerifyParams) (v : Verifier) (r r' : VerificationResult)
    (s s' : Signed)
    → Distinct v.replay_cache
    → length v.replay_cache + 1 ≤ v.settings.replay_cache_max_entries
    → v.settings.enable_replay_protection ≡ true
    → (verify w params v).0 ≡ some r
    → r.valid ≡ true
    → authenticate w v.settings.max_age_ms params ≡ signed s
    → authenticate w' v.settings.max_age_ms params' ≡ signed s'
    → to_lower params'.signature ≡ to_lower params.signature
    → to_lower s'.message ≡ to_lower s.message
    → w'.clock.replay < add_ℕ s.ts v.settings.max_age_ms
    → (verify w' params' (verify w params v).1).0 ≡ some r'
    → r'.valid ≡ false
unfolding verify attempts
verify_refuses_replay w w' params params' v r r' s s' d room on first valid auth auth' signature
      message early second =
    elim (result_of_valid w (verify_steps w params v) r first) [
      | inr (u, replied) ↦ absurd (ground (arith, verify_steps-reply w params v replied))
      | inl (u, went_on) ↦
          let (s0, auth0, settings, recorded) = verify_steps-recorded w params v on went_on in
          let same : s0 ≡ s = cc in
          let cache : u.replay_cache ≡ (record_at v (attempt_of w params s) v.replay_cache).1 =
            recorded ∙ ap (λ x. (record_at v (attempt_of w params x) v.replay_cache).1) same in
          let left : (verify w params v).1 ≡ u = ap (λ x. (result_of w x).1) went_on in
          let before = verify-IsAccepted w params v r first valid in
          let same' : before.signer ≡ s =
            signed_injective before.signer s (sym before.authentic ∙ auth) in
          let fresh =
            subst (λ x. (record_at v (attempt_of w params x) v.replay_cache).0 ≡ false) same'
              (before.not_replayed on) in
          let seen =
            replay_refused v.settings.replay_cache_max_entries v.settings.max_age_ms
              (attempt_of w params s) (attempt_of w' params' s') [] v.replay_cache d (omega arith)
              fresh tt early signature message in
          elim (Bool-cases r'.valid) [
            | inr invalid ↦ invalid
            | inl again ↦ absurd (
                no_second w' params' s' v u r' auth' on settings
                  (subst (λ x. (record_at v (attempt_of w' params' s') x).0 ≡ true) (sym cache)
                    seen)
                  (verify-IsAccepted w' params' u r'
                    (subst (λ x. (verify w' params' x).0 ≡ some r') left second) again))
          ]
    ]
