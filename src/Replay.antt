-- ===== src/Replay.antt =====
-- typescript-sdk/src/SelfAgentVerifier.ts, `checkAndRecordReplay` and `pruneReplayCache`: the
-- replay cache, a map from a request's fingerprint to the time at which it may be forgotten.
pub mod Evict
pub mod Window
mod Examples
use self_agent_id.Base.{
  ℕ, zero, suc, ◌-◌, Bool, true, false, Option, none, some, List, [], ◌∷◌, ◌++◌, Text, codes, ltb,
  leb, if◌then◌else◌, length, get, set, delete, retain, to_lower,
}
use self_agent_id.Base.Int.{ℤ, add_ℕ}

pub record ReplayEntry : Type 0 where
  pub expires_at : ℕ

abbrev pub ReplayCache : Type 0
ReplayCache = List (Text × ReplayEntry)

-- The stable sort by `expiresAt`.
unfoldable pub insert_by_expiry : Text × ReplayEntry → ReplayCache → ReplayCache
insert_by_expiry e [] = e ∷ []
insert_by_expiry e (f ∷ rest) =
    if leb e.1.expires_at f.1.expires_at then e ∷ f ∷ rest else f ∷ insert_by_expiry e rest

unfoldable pub sort_by_expiry : ReplayCache → ReplayCache
unfolding insert_by_expiry
sort_by_expiry [] = []
sort_by_expiry (e ∷ rest) = insert_by_expiry e (sort_by_expiry rest)

-- The loop that deletes the first `overflow` keys of the sorted entries.
unfoldable pub evict : ℕ → ReplayCache → ReplayCache → ReplayCache
evict zero sorted cache = cache
evict (suc overflow) [] cache = cache
evict (suc overflow) (e ∷ sorted) cache = evict overflow sorted (delete e.0 cache)

abbrev pub is_live : ℕ → ReplayEntry → Bool
is_live now entry = ltb now entry.expires_at

unfoldable pub prune_replay_cache : ℕ → ℕ → ReplayCache → ReplayCache
prune_replay_cache max_entries now cache =
    let live = retain (is_live now) cache in
    if leb (length live) max_entries
    then live
    else evict (length live - max_entries) (sort_by_expiry live) live

unfoldable pub replay_key : Text → Text → Text
replay_key signature message = to_lower signature ++ codes ":" ++ to_lower message

abbrev pub is_replay : ℕ → Option ReplayEntry → Bool
is_replay now none = false
is_replay now (some existing) = ltb now existing.expires_at

-- `true` is the result "Replay detected".
unfoldable pub check_and_record_replay :
    (max_entries max_age now : ℕ) (signature message : Text) (ts : ℤ)
    → ReplayCache
    → Bool × ReplayCache
check_and_record_replay max_entries max_age now signature message ts cache =
    let pruned = prune_replay_cache max_entries now cache in
    let key = replay_key signature message in
    if is_replay now (get key pruned)
    then (true, pruned)
    else (false, set key (record { expires_at = add_ℕ ts max_age }) pruned)
