-- ===== src/RegistrationFlow/Resume.antt =====
-- A wait that timed out is taken up again by the next one.
use self_agent_id.Base.{
  zero, suc, ℕ, ◌+◌, ◌-◌, ◌≤◌, ◌≡◌, ap, sym, ◌∙◌, true, Option, some, Text, ltb, arith, Bool-cases,
  inl, inr, get_or_else,
}
use mathlib.Core.Path.{subst}
use self_agent_id.A2aTypes.{Json}
use self_agent_id.RegistrationFlow.{Host, default_timeout_ms, default_poll_interval_ms}
use self_agent_id.RegistrationFlow.Sessions.{Flow, timed_out, wait_for_completion, poll}
use self_agent_id.RegistrationFlow.Polls.{
  poll_of, round_of, poll-late, poll-ends, poll-goes_on, Verdict-cases,
}
use self_agent_id.RegistrationFlow.Tokens.{Asks, poll-Asks}

module _ {S : Type 0} {R : Type 0} (flow : Flow R) (host : Host S) (api_base : Text) where
  -- The rest of a wait with a later deadline.
  abbrev Resumes : (interval deadline : ℕ) → (token rolled : Option Json) → (s after : S) → Type 0
  Resumes interval deadline token rolled s after =
      (used : ℕ) × ((fuel : ℕ)
        → poll_of flow host api_base (used + fuel) interval deadline token s
          ≡ poll_of flow host api_base fuel interval deadline rolled after)

  Resumes-at_once :
      (interval deadline : ℕ) (token : Option Json) (s : S)
      → Resumes interval deadline token token s s
  Resumes-at_once interval deadline token s = (
    0,
    λ fuel.
        let count : 0 + fuel ≡ fuel = omega arith in
        ap (λ n. poll_of flow host api_base n interval deadline token s) count,
  )

  poll-Resumes :
      (fuel interval deadline later : ℕ) (token rolled : Option Json) (s after : S)
      → poll_of flow host api_base fuel interval deadline token s ≡ (timed_out, (rolled, after))
      → deadline ≤ later
      → (deadline ≤ host.now after) × Resumes interval later token rolled s after
  unfolding poll
  poll-Resumes zero interval deadline later token rolled s after h k =
      let out = ap (λ r. r.0) h in absurd (ground arith)
  poll-Resumes (suc fuel) interval deadline later token rolled s after h k =
      elim (Bool-cases (ltb (host.now s) deadline)) [
        | inr late ↦
            let e = sym (poll-late flow host api_base fuel interval deadline token s late) ∙ h in
            let same_token : token ≡ rolled = ap (λ r. r.1.0) e in
            let same_state : s ≡ after = ap (λ r. r.1.1) e in
            (
              subst (λ t. deadline ≤ host.now t) same_state (ground arith),
              subst (λ t. Resumes interval later token t s after) same_token
                  (subst (λ t. Resumes interval later token token s t) same_state
                    (Resumes-at_once interval later token s)),
            )
        | inl early ↦ elim (Verdict-cases (round_of flow host api_base interval token s).0) [
          | inl (waited, ended_so) ↦
              let e =
                ap (λ r. r.0)
                  (sym (
                      poll-ends flow host api_base fuel interval deadline token s waited early
                        ended_so)
                    ∙ h) in
              absurd (ground arith)
          | inr more ↦
              let next = (round_of flow host api_base interval token s).1 in
              let (reached, (used, rest)) =
                poll-Resumes fuel interval deadline later next.0 rolled next.1 after
                  (sym (poll-goes_on flow host api_base fuel interval deadline token s early more)
                    ∙ h)
                  k in
              let still_early : ltb (host.now s) later ≡ true = ground arith in
              (
                reached,
                (
                  suc used,
                  λ more_fuel.
                      let count : suc used + more_fuel ≡ suc (used + more_fuel) = omega arith in
                      ap (λ n. poll_of flow host api_base n interval later token s) count
                      ∙ poll-goes_on flow host api_base (used + more_fuel) interval later token s
                          still_early more
                      ∙ rest more_fuel,
                ),
              )
        ]
      ]

  -- A wait that timed out is resumed by calling `waitForCompletion` again. The first wait asked round by
  -- round with the token of the answer before, each answer told of a pending session, and the
  -- token that it rolled on to is that of the last answer. The second wait, which starts with this
  -- token, asks and answers all that a single wait to the second deadline would have, from where the
  -- first one stopped.
  pub wait_resumes :
      (fuel : ℕ) (timeout_ms interval_ms next_timeout_ms : Option ℕ) (token rolled : Option Json)
      (s after : S)
      → wait_for_completion flow host api_base fuel timeout_ms interval_ms token s
        ≡ (timed_out, (rolled, after))
      → Asks flow host api_base
          (get_or_else interval_ms default_poll_interval_ms)
          token
          s
          rolled
          after
        × (used : ℕ) × ((more : ℕ)
            → wait_for_completion flow host api_base
                (used + more)
                (some
                  (host.now after + get_or_else next_timeout_ms default_timeout_ms - host.now s))
                interval_ms
                token
                s
              ≡ wait_for_completion flow host api_base more next_timeout_ms interval_ms rolled
                  after)
  unfolding wait_for_completion
  wait_resumes fuel timeout_ms interval_ms next_timeout_ms token rolled s after h =
      let interval = get_or_else interval_ms default_poll_interval_ms in
      let deadline = host.now s + get_or_else timeout_ms default_timeout_ms in
      let later = host.now after + get_or_else next_timeout_ms default_timeout_ms in
      let (reached, rest) =
        poll-Resumes fuel interval deadline deadline token rolled s after h (omega arith) in
      let (again, (used, resumed)) =
        poll-Resumes fuel interval deadline later token rolled s after h (omega arith) in
      let same : host.now s + (later - host.now s) ≡ later = omega arith in
      (
        poll-Asks flow host api_base fuel interval deadline token rolled s after h,
        used,
        λ more.
            ap (λ d. poll_of flow host api_base (used + more) interval d token s) same
            ∙ resumed more,
      )
