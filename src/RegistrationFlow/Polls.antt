-- ===== src/RegistrationFlow/Polls.antt =====
-- The polling loop ends: the clock moves on by the interval at least in each round.
use self_agent_id.Base.{
  ◌∙◌, le→ltb, ◌⊎◌, none, zero, suc, ℕ, ◌+◌, ◌*◌, ◌≤◌, ◌≡◌, ◌≢◌, refl, ap, sym, true, false, Option,
  Text, ltb, arith, Bool-cases, inl, inr, get_or_else,
}
use self_agent_id.A2aTypes.{Json}
use self_agent_id.RegistrationFlow.{api_fetch, Host, default_timeout_ms, default_poll_interval_ms}
use self_agent_id.RegistrationFlow.Sessions.{
  ended, timed_out, Polled, status_url, Flow, Waited, out_of_fuel, Verdict, ends, goes_on, round,
  poll, wait_for_completion,
}

-- A clock that sleeping moves on, and that no answer of the network turns back.
pub record IsClock {S : Type 0} (host : Host S) : Type 0 where
  pub sleeps : (ms : ℕ) (s : S) → host.now s + ms ≤ host.now (host.sleep ms s)
  pub goes_on :
      (url : Text) (init : Option Json) (s : S) → host.now s ≤ host.now (host.fetch url init s).1

module _ {S : Type 0} {R : Type 0} (flow : Flow R) (host : Host S) (api_base : Text) where
  abbrev pub poll_of : ℕ → (interval deadline : ℕ) → Option Json → S → Polled R × (Option Json × S)
  poll_of = poll flow host api_base

  abbrev pub round_of : ℕ → Option Json → S → Verdict R × (Option Json × S)
  round_of = round flow host api_base

  pub poll-late :
      (fuel interval deadline : ℕ) (token : Option Json) (s : S)
      → ltb (host.now s) deadline ≡ false
      → poll_of (suc fuel) interval deadline token s ≡ (timed_out, (token, s))
  unfolding poll
  poll-late fuel interval deadline token s h = rw (h, poll) refl

  pub poll-ends :
      (fuel interval deadline : ℕ) (token : Option Json) (s : S) (waited : Waited R)
      → ltb (host.now s) deadline ≡ true
      → (round_of interval token s).0 ≡ ends waited
      → poll_of (suc fuel) interval deadline token s ≡ (ended waited, (round_of interval token s).1)
  unfolding poll
  poll-ends fuel interval deadline token s waited h e = rw (h, e, poll, round) refl

  pub poll-goes_on :
      (fuel interval deadline : ℕ) (token : Option Json) (s : S)
      → ltb (host.now s) deadline ≡ true
      → (round_of interval token s).0 ≡ goes_on
      → poll_of (suc fuel) interval deadline token s
        ≡ poll_of fuel interval deadline
            (round_of interval token s).1.0
            (round_of interval token s).1.1
  unfolding poll
  poll-goes_on fuel interval deadline token s h e = ground arith

pub Verdict-cases : {R : Type 0} (v : Verdict R) → ((w : Waited R) × (v ≡ ends w)) ⊎ (v ≡ goes_on)
Verdict-cases (ends w) = inl (w, refl)
Verdict-cases goes_on = inr refl

module _ {S : Type 0} {R : Type 0} (flow : Flow R) (host : Host S) (api_base : Text)
    (clock : IsClock host) where
  round_time :
      (interval : ℕ) (token : Option Json) (s : S)
      → host.now s + interval ≤ host.now (round flow host api_base interval token s).1.1
  unfolding round api_fetch
  round_time interval token s = omega (
    arith,
    clock.sleeps interval s,
    clock.goes_on (status_url flow host api_base token) none (host.sleep interval s),
  )

  late_ends :
      (fuel interval deadline : ℕ) (token : Option Json) (s : S)
      → ltb (host.now s) deadline ≡ false
      → (poll_of flow host api_base (suc fuel) interval deadline token s).0 ≢ out_of_fuel
  late_ends fuel interval deadline token s h e =
      let late = ap (λ r. r.0) (poll-late flow host api_base fuel interval deadline token s h) in
      absurd (ground arith)

  poll_not_out :
      (rounds interval deadline : ℕ) (token : Option Json) (s : S)
      → deadline ≤ host.now s + rounds * interval
      → (poll_of flow host api_base (suc rounds) interval deadline token s).0 ≢ out_of_fuel
  poll_not_out zero interval deadline token s h e =
      late_ends zero interval deadline token s (le→ltb (host.now s) deadline (omega arith)) e
  poll_not_out (suc rounds) interval deadline token s h e =
      elim (Bool-cases (ltb (host.now s) deadline)) [
        | inr late ↦ late_ends (suc rounds) interval deadline token s late e
        | inl early ↦ elim (Verdict-cases (round_of flow host api_base interval token s).0) [
          | inl (waited, ended_so) ↦
              let r =
                ap (λ r. r.0)
                  (poll-ends flow host api_base (suc rounds) interval deadline token s waited early
                    ended_so) in
              absurd (ground arith)
          | inr more ↦
              let next = (round_of flow host api_base interval token s).1 in
              poll_not_out rounds interval deadline next.0 next.1
                (omega (arith, round_time interval token s))
                (sym (
                    ap (λ r. r.0)
                      (poll-goes_on flow host api_base (suc rounds) interval deadline token s early
                        more))
                  ∙ e)
        ]
      ]

  -- `waitForCompletion` comes to an end. Where sleeping for `n` milliseconds moves the clock on by `n` at
  -- least and no answer turns it back, so many rounds as intervals fill the timeout are enough: by then
  -- the session is completed, an error is thrown, or the timeout is reported.
  pub wait_ends :
      (timeout_ms interval_ms : Option ℕ) (rounds : ℕ) (token : Option Json) (s : S)
      → get_or_else timeout_ms default_timeout_ms
        ≤ rounds * get_or_else interval_ms default_poll_interval_ms
      → (wait_for_completion flow host api_base (suc rounds) timeout_ms interval_ms token s).0
        ≢ out_of_fuel
  unfolding wait_for_completion
  wait_ends timeout_ms interval_ms rounds token s h =
      poll_not_out rounds (get_or_else interval_ms default_poll_interval_ms)
        (host.now s + get_or_else timeout_ms default_timeout_ms) token s (omega arith)
