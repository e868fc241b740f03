-- ===== src/VerifyAgent/Expiry.antt =====
-- How long a positive result of `verifyAgent` stays true.
use self_agent_id.Base.{
  ◌↔◌, ap, ℕ, ◌+◌, ◌*◌, ◌<◌, ◌≡◌, ◌⊎◌, inl, inr, true, false, Option, none, some, Text, arith,
  Option-cases, Bool-cases, ◌==◌,
}
use self_agent_id.Registry.{Registry}
use self_agent_id.VerifyAgent.{
  Options, returned, verified, verify_agent, look_up, check_expiry, is_agent_key, resolve_rpc_url,
  is_proof_expiring_soon,
}

-- The last moment of a proof, in milliseconds; a proof without expiry has none.
abbrev pub ExpiryOf : ℕ → Option ℕ → Type 0
ExpiryOf secs expires_at =
    ((secs ≡ 0) × (expires_at ≡ none)) ⊎ ((0 < secs) × (expires_at ≡ some (secs * 1000)))

-- What the registry says of an agent with a valid proof at the time `now`.
pub record HoldsProof (now : ℕ) (registry : Registry) (agent_key : Text) (agent_id : ℕ)
    (expires_at : Option ℕ) : Type 0 where
  pub secs : ℕ
  pub registered : registry.get_agent_id agent_key ≡ some agent_id
  pub positive : 0 < agent_id
  pub human : registry.has_human_proof agent_id ≡ some true
  pub stated : registry.proof_expires_at agent_id ≡ some secs
  pub expiry : ExpiryOf secs expires_at
  pub in_time : (t : ℕ) → expires_at ≡ some t → now < t

check_expiry-verified :
    (now : ℕ) (options : Options) (agent_id secs n : ℕ) (e : Option ℕ)
    → check_expiry now options agent_id secs ≡ verified n e
    → (agent_id ≡ n) × ExpiryOf secs e × ((t : ℕ) → e ≡ some t → now < t)
unfolding check_expiry
check_expiry-verified now options agent_id secs n e h = ground arith

look_up-verified :
    (now : ℕ) (registry : Registry) (agent_key : Text) (options : Options) (n : ℕ) (e : Option ℕ)
    → look_up now registry agent_key options ≡ returned (verified n e)
    → HoldsProof now registry agent_key n e
unfolding look_up
look_up-verified now registry agent_key options n e h =
    elim (Option-cases (registry.get_agent_id agent_key)) [
      | inl none_found ↦ absurd (ground arith)
      | inr (agent_id, found) ↦ elim (Bool-cases (agent_id == 0)) [
        | inl zero_id ↦ absurd (ground arith)
        | inr some_id ↦ elim (Option-cases (registry.has_human_proof agent_id)) [
          | inl unanswered ↦ absurd (ground arith)
          | inr (false, no_proof) ↦ absurd (ground arith)
          | inr (true, proof) ↦ elim (Option-cases (registry.proof_expires_at agent_id)) [
            | inl unanswered ↦ absurd (ground arith)
            | inr (secs, stated) ↦
                let c : check_expiry now options agent_id secs ≡ verified n e = ground arith in
                let (same, expiry, in_time) =
                  check_expiry-verified now options agent_id secs n e c in
                let registered : registry.get_agent_id agent_key ≡ some n =
                  rw found (ap some same) in
                let human : registry.has_human_proof n ≡ some true = rw (← same) proof in
                let stated : registry.proof_expires_at n ≡ some secs = rw (← same) stated in
                record {
                  secs = secs;
                  registered = registered;
                  positive = ground arith;
                  human = human;
                  stated = stated;
                  expiry = expiry;
                  in_time = in_time;
                }
          ]
        ]
      ]
    ]

check_expiry-in_time :
    (now : ℕ) (options : Options) (n secs : ℕ) (e : Option ℕ)
    → ExpiryOf secs e
    → ((t : ℕ) → e ≡ some t → now < t)
    → check_expiry now options n secs ≡ verified n e
unfolding check_expiry
check_expiry-in_time now options n secs e (inl (never, none_left)) in_time = ground arith
check_expiry-in_time now options n secs e (inr (some_secs, last)) in_time =
    let early : now < secs * 1000 = in_time (secs * 1000) last in ground arith

look_up-returns :
    (now : ℕ) (registry : Registry) (agent_key : Text) (options : Options) (n : ℕ) (e : Option ℕ)
    → HoldsProof now registry agent_key n e
    → look_up now registry agent_key options ≡ returned (verified n e)
unfolding look_up
look_up-returns now registry agent_key options n e h =
    let some_id : (n == 0) ≡ false = ground (arith, h.positive) in
    rw (h.registered, some_id, h.human, h.stated, look_up)
      (ap returned (check_expiry-in_time now options n h.secs e h.expiry h.in_time))

module _ (contract : Text → Text → Registry) (agent_key : Text) (options : Options)
    (rpc_url : Option Text) where
  -- The registry that the options mean.
  abbrev pub meant : Registry
  meant = contract (resolve_rpc_url rpc_url options.registry_address) options.registry_address

  -- `verifyAgent` reports an agent as verified exactly for a well-formed key that the registry
  -- knows, with a human proof whose expiry, if it has one, lies ahead; it reports that expiry.
  pub verify_agent-verified_iff :
      (now n : ℕ) (e : Option ℕ)
      → (verify_agent now contract agent_key options rpc_url ≡ returned (verified n e))
        ↔ ((is_agent_key agent_key ≡ true) × HoldsProof now meant agent_key n e)
  unfolding verify_agent
  verify_agent-verified_iff now n e = (
    λ h. elim (Bool-cases (is_agent_key agent_key)) [
      | inl ok ↦ (ok, look_up-verified now meant agent_key options n e (ground arith))
      | inr bad ↦ absurd (ground arith)
    ],
    λ (ok, holds). rw ok (look_up-returns now meant agent_key options n e holds),
  )

  -- An agent that `verifyAgent` reports as verified, with an expiry that is not expiring soon by
  -- `isProofExpiringSoon` for a threshold, stays verified at each time before that threshold has
  -- passed, while the registry does not change.
  pub verify_agent_lasts :
      (now later threshold_secs n : ℕ) (e : Option ℕ)
      → verify_agent now contract agent_key options rpc_url ≡ returned (verified n e)
      → ((t : ℕ) → e ≡ some t → is_proof_expiring_soon now t threshold_secs ≡ false)
      → later < now + threshold_secs * 1000
      → verify_agent later contract agent_key options rpc_url ≡ returned (verified n e)
  unfolding is_proof_expiring_soon
  verify_agent_lasts now later threshold_secs n e h not_soon soon =
      let (ok, holds) = (verify_agent-verified_iff now n e).0 h in
      (verify_agent-verified_iff later n e).1 (
        ok,
        record {
          secs = holds.secs;
          registered = holds.registered;
          positive = holds.positive;
          human = holds.human;
          stated = holds.stated;
          expiry = holds.expiry;
          in_time = λ t e. ground (arith, holds.in_time t e, not_soon t e);
        },
      )
