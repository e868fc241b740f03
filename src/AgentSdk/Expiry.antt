-- ===== src/AgentSdk/Expiry.antt =====
-- The expiry that `getInfo` reports against the one that `verify` reports.
use self_agent_id.Base.{
  le→leb, lt→ltb, ℕ, ◌+◌, ◌-◌, ◌/◌, ◌≤◌, ◌<◌, ◌≡◌, refl, true, false, some, arith, leb,
}
use self_agent_id.Base.Int.{pos, floor_div}
use self_agent_id.Verifier.Chain.{days_until, soon}
use self_agent_id.AgentSdk.{days_between, days_left, in_month}

-- The days that `getInfo` and `verify` count to the expiry of a proof at the same time are the same
-- until it expires, and so is whether it expires soon. For a proof that expired less than a day
-- ago, `getInfo` still says that it expires soon, with no days left, while `verify` says not.
pub days_left-days_until :
    (now expires : ℕ)
    → 0 < expires
    → (now / 1000 ≤ expires
        → (days_until now expires ≡ some (days_left expires (now / 1000)))
          × (soon (days_until now expires) ≡ in_month (days_left expires (now / 1000))))
      × (expires < now / 1000
          → now / 1000 < expires + 86400
          → (days_left expires (now / 1000) ≡ pos 0)
            × (in_month (days_left expires (now / 1000)) ≡ true)
            × (soon (days_until now expires) ≡ false))
unfolding days_between floor_div
days_left-days_until now expires some_expiry =
    let given = lt→ltb 0 expires some_expiry in
    (
      λ ahead. rw (given, le→leb (now / 1000) expires ahead) (refl, refl),
      λ past near.
          let late : leb (now / 1000) expires ≡ false = ground arith in
          let same_day : (now / 1000 - expires) / 86400 ≡ 0 = omega arith in
          rw (given, late, same_day) (refl, refl, refl),
    )
