-- ===== src/RegistrationFlow/Tokens.antt =====
-- The tokens that a wait asks with: each is that of the answer before.
use self_agent_id.Base.{
  refl, false, none, codes, zero, suc, ℕ, ◌≡◌, ap, sym, ◌∙◌, Option, Text, ltb, arith, Bool-cases,
  inl, inr,
}
use mathlib.Core.Path.{subst}
use self_agent_id.A2aTypes.{Json, null, boolean, number, string, array, object}
use self_agent_id.A2aServer.{property}
use self_agent_id.ApiResponses.{is_text}
use self_agent_id.RegistrationFlow.{
  api_fetch, Result, fetched, registration_error, other_error, Host,
}
use self_agent_id.RegistrationFlow.Sessions.{
  goes_on, status_url, judge_stage, read_status, round, Flow, timed_out, poll,
}
use self_agent_id.RegistrationFlow.Polls.{
  poll_of, round_of, poll-late, poll-ends, poll-goes_on, Verdict-cases,
}

-- A session that is neither completed nor failed nor expired.
abbrev pub IsPending : Json → Type 0
IsPending status =
    (is_text (codes "completed") (property (codes "stage") status) ≡ false)
    × (is_text (codes "failed") (property (codes "stage") status) ≡ false)
    × (is_text (codes "expired") (property (codes "stage") status) ≡ false)

-- Rounds of questions: each asks with the token that the answer before it gave, after a sleep of
-- `interval`, and hears of a pending session.
pub data Asked {S : Type 0} (host : Host S) (url : Option Json → Text) (interval : ℕ)
    : Option Json → S → Option Json → S → Type 0 where
  not_asked : {token : Option Json} {s : S} → Asked host url interval token s token s
  asked :
      {token rolled : Option Json} {s after : S} (status : Json) (next : S)
      → api_fetch host (url token) none (host.sleep interval s) ≡ (fetched status, next)
      → IsPending status
      → Asked host url interval (property (codes "sessionToken") status) next rolled after
      → Asked host url interval token s rolled after

module _ {R : Type 0} (flow : Flow R) where
  judge-IsPending :
      (now : ℕ) (status : Json) → judge_stage flow now status ≡ goes_on → IsPending status
  unfolding judge_stage
  judge-IsPending now status h = ground arith

  -- An answer after which the wait goes on.
  abbrev Rolls : ℕ → Option Json → Result Json → Type 0
  Rolls now token answer =
      (status : Json) × (answer ≡ fetched status)
      × ((read_status flow now token answer).1 ≡ property (codes "sessionToken") status)
      × IsPending status

  read-Rolls :
      (now : ℕ) (token : Option Json) (answer : Result Json)
      → (read_status flow now token answer).0 ≡ goes_on
      → Rolls now token answer
  unfolding read_status
  read-Rolls now token (registration_error message) h = cc
  read-Rolls now token (other_error message) h = cc
  read-Rolls now token (fetched null) h = cc
  read-Rolls now token (fetched (boolean b)) h =
      (boolean b, refl, refl, judge-IsPending now (boolean b) h)
  read-Rolls now token (fetched (number n)) h =
      (number n, refl, refl, judge-IsPending now (number n) h)
  read-Rolls now token (fetched (string t)) h =
      (string t, refl, refl, judge-IsPending now (string t) h)
  read-Rolls now token (fetched (array items)) h =
      (array items, refl, refl, judge-IsPending now (array items) h)
  read-Rolls now token (fetched (object fields)) h =
      (object fields, refl, refl, judge-IsPending now (object fields) h)

module _ {S : Type 0} {R : Type 0} (flow : Flow R) (host : Host S) (api_base : Text) where
  abbrev pub Asks : (interval : ℕ) → (token : Option Json) → S → (rolled : Option Json) → S → Type 0
  Asks interval = Asked host (status_url flow host api_base) interval

  round-asked :
      (interval : ℕ) (token rolled : Option Json) (s after : S)
      → (round_of flow host api_base interval token s).0 ≡ goes_on
      → Asks interval
          (round_of flow host api_base interval token s).1.0
          (round_of flow host api_base interval token s).1.1
          rolled
          after
      → Asks interval token s rolled after
  unfolding round
  round-asked interval token rolled s after more rest =
      let answer =
        api_fetch host (status_url flow host api_base token) none (host.sleep interval s) in
      let (status, said, roll, pending) = read-Rolls flow (host.now answer.1) token answer.0 more in
      asked status answer.1 (ap (λ r. (r, answer.1)) said) pending
        (subst (λ t. Asks interval t answer.1 rolled after) roll rest)

  pub poll-Asks :
      (fuel interval deadline : ℕ) (token rolled : Option Json) (s after : S)
      → poll_of flow host api_base fuel interval deadline token s ≡ (timed_out, (rolled, after))
      → Asks interval token s rolled after
  unfolding poll
  poll-Asks zero interval deadline token rolled s after h =
      let out = ap (λ r. r.0) h in absurd (ground arith)
  poll-Asks (suc fuel) interval deadline token rolled s after h =
      elim (Bool-cases (ltb (host.now s) deadline)) [
        | inr late ↦
            let e = sym (poll-late flow host api_base fuel interval deadline token s late) ∙ h in
            subst (λ t. Asks interval token s t after) (ap (λ r. r.1.0) e)
              (subst (λ t. Asks interval token s token t) (ap (λ r. r.1.1) e) not_asked)
        | inl early ↦ elim (Verdict-cases (round_of flow host api_base interval token s).0) [
          | inl (waited, ended_so) ↦
              let e =
                ap (λ r. r.0)
                  (sym (
                      poll-ends flow host api_base fuel interval deadline token s waited early
                        ended_so)
                    ∙ h) in
              absurd (ground arith)
          | inr more ↦
              let next = (round_of flow host api_base interval token s).1 in
              round-asked interval token rolled s after more (
                poll-Asks fuel interval deadline next.0 rolled next.1 after (
                  sym (poll-goes_on flow host api_base fuel interval deadline token s early more)
                  ∙ h))
        ]
      ]
