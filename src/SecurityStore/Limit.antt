-- ===== src/SecurityStore/Limit.antt =====
-- How many requests `checkRateLimit` lets through in one window.
use self_agent_id.Base.{
  ap, ◌∙◌, inr, inl, ℕ, suc, ◌+◌, ◌-◌, ◌<◌, ◌≡◌, refl, true, false, ◌&&◌, none, some, List, [], ◌∷◌,
  Text, max, arith, get, eq_text, eq_text_iff, eq_text_refl, get-set, get-retain, get-retain-none,
  Option-cases, Bool-cases, if◌then◌else◌, ltb, leb,
}
use self_agent_id.Base.Int.{pos}
use self_agent_id.SecurityStore.{
  Memory, Store, RateLimit, cleanup_memory, increment_in_memory, fall_back, increment_with_window,
  check_rate_limit, live_entry, next_entry, is_within,
}
use self_agent_id.SecurityStore.Once.{IsValid, increment_in_memory-IsValid}

pub record Request : Type 0 where
  pub now : ℕ
  pub key : Text
  pub limit : ℕ
  pub window_ms : ℕ

abbrev pub limited : {S : Type 0} → Request → Store S → RateLimit × Store S
limited r store = check_rate_limit r.now r.key r.limit r.window_ms store

-- The number of requests for the key `k`.
abbrev pub requested : Text → List Request → ℕ
requested k [] = 0
requested k (r ∷ rs) = if eq_text r.key k then suc (requested k rs) else requested k rs

-- The number of them that are let through, in a sequence of requests on the store.
unfoldable pub let_through : {S : Type 0} → Text → List Request → Store S → ℕ
let_through k [] store = 0
let_through k (r ∷ rs) store =
    let rest = let_through k rs (limited r store).1 in
    if eq_text r.key k && (limited r store).0.allowed then suc rest else rest

abbrev pub smaller : ℕ → ℕ → ℕ
smaller a b = if leb a b then a else b

-- All requests come before `last`, and those for the key `k` have the limit `limit`.
abbrev pub Within : ℕ → Text → ℕ → List Request → Type 0
Within last k limit [] = Unit
Within last k limit (r ∷ rs) =
    (r.now < last) × (eq_text r.key k ≡ true → r.limit ≡ limit) × Within last k limit rs

-- The state of the counter of `k` in its window.
abbrev pub Counts : Text → ℕ → ℕ → Memory → Type 0
Counts k n last m = get k m.memory_counters ≡ some (record { count = n; expires_at = last })

increment_self :
    (now : ℕ) (key k : Text) (window n last : ℕ) (m : Memory)
    → IsValid m
    → eq_text key k ≡ true
    → Counts k n last m
    → now < last
    → ((increment_in_memory now key window m).0.count ≡ some (pos (n + 1)))
      × Counts k (n + 1) last (increment_in_memory now key window m).1
unfolding increment_in_memory cleanup_memory
increment_self now key k window n last m h same counts early =
    let e = (eq_text_iff key k).0 same in
    let kept =
      get-retain (λ entry. ltb now entry.expires_at) k (record { count = n; expires_at = last })
        m.memory_counters h.counters_distinct counts in
    let found : get key (cleanup_memory now m).memory_counters
        ≡ some (record { count = n; expires_at = last }) =
      ground (arith, kept) in
    let live : leb last now ≡ false = ground arith in
    rw (found, live)
      (
        refl,
        rw
            (
              get-set key k (record { count = n + 1; expires_at = last })
                  (cleanup_memory now m).memory_counters,
              same,
            )
            refl,
      )

increment_other :
    (now : ℕ) (key k : Text) (window n last : ℕ) (m : Memory)
    → IsValid m
    → eq_text key k ≡ false
    → Counts k n last m
    → now < last
    → Counts k n last (increment_in_memory now key window m).1
unfolding increment_in_memory cleanup_memory
increment_other now key k window n last m h other counts early = ground (
  arith,
  get-set key k
      (next_entry now window (live_entry now (get key (cleanup_memory now m).memory_counters)))
      (cleanup_memory now m).memory_counters,
  get-retain (λ entry. ltb now entry.expires_at) k (record { count = n; expires_at = last })
      m.memory_counters h.counters_distinct counts,
)

increment_new :
    (now : ℕ) (key : Text) (window : ℕ) (m : Memory)
    → IsValid m
    → live_entry now (get key m.memory_counters) ≡ none
    → ((increment_in_memory now key window m).0.count ≡ some (pos 1))
      × Counts key 1 (now + window) (increment_in_memory now key window m).1
unfolding increment_in_memory cleanup_memory
increment_new now key window m h none_live =
    let gone : live_entry now (get key (cleanup_memory now m).memory_counters) ≡ none =
      elim (Option-cases (get key m.memory_counters)) [
        | inl missing ↦
            rw (get-retain-none (λ entry. ltb now entry.expires_at) key m.memory_counters missing)
              refl
        | inr (entry, found) ↦
            let kept =
              get-retain (λ entry. ltb now entry.expires_at) key entry m.memory_counters
                h.counters_distinct found in
            rw kept (ground arith)
      ] in
    rw gone (
      refl,
      rw
          (
            get-set key key (record { count = 1; expires_at = now + window })
                (cleanup_memory now m).memory_counters,
            eq_text_refl key,
          )
          refl,
    )

module _ {S : Type 0} where
  increment_off :
      (now : ℕ) (key : Text) (window : ℕ) (store : Store S)
      → store.upstash ≡ none
      → increment_with_window now key window store ≡ (
        (increment_in_memory now key (max 1 window) store.memory).0,
        record store { memory = (increment_in_memory now key (max 1 window) store.memory).1 },
      )
  unfolding increment_with_window fall_back
  increment_off now key window store off = simp (off, increment_with_window, fall_back)

  limited_off :
      (r : Request) (store : Store S)
      → store.upstash ≡ none
      → ((limited r store).0.allowed
          ≡ is_within
              (max 1 r.limit)
              (increment_in_memory r.now r.key (max 1 (max 1 r.window_ms)) store.memory).0.count)
        × ((limited r store).1 ≡ record store {
          memory = (increment_in_memory r.now r.key (max 1 (max 1 r.window_ms)) store.memory).1;
        })
  unfolding check_rate_limit
  limited_off r store off =
      rw (increment_off r.now r.key (max 1 r.window_ms) store off) (refl, refl)

  let_through_in_window :
      (rs : List Request) (k : Text) (limit n last : ℕ) (store : Store S)
      → store.upstash ≡ none
      → IsValid store.memory
      → Counts k n last store.memory
      → Within last k limit rs
      → let_through k rs store ≡ smaller (requested k rs) (max 1 limit - n)
  unfolding let_through
  let_through_in_window [] k limit n last store off h counts within = ground arith
  let_through_in_window (r ∷ rs) k limit n last store off h counts (early, same, within) =
      let window = max 1 (max 1 r.window_ms) in
      let after = record store {
        memory = (increment_in_memory r.now r.key window store.memory).1;
      } in
      let (allowed, next) = limited_off r store off in
      let valid = increment_in_memory-IsValid r.now r.key window store.memory h in
      elim (Bool-cases (eq_text r.key k)) [
        | inl mine ↦
            let (one_more, held) =
              increment_self r.now r.key k window n last store.memory h mine counts early in
            let rest = let_through_in_window rs k limit (n + 1) last after off valid held within in
            rw (mine, allowed ∙ ap (is_within (max 1 r.limit)) one_more, next, rest)
              (ground (arith, same mine))
        | inr other ↦
            let held =
              increment_other r.now r.key k window n last store.memory h other counts early in
            let rest = let_through_in_window rs k limit n last after off valid held within in
            rw (other, next, rest) (ground arith)
      ]

  -- Without Upstash, `checkRateLimit` lets the first requests of a key through up to its limit, at
  -- least one, and no more: in the window that begins with a request at which no counter of the key is
  -- live, of all requests for the key before the window ends, whatever requests for other keys
  -- come between.
  pub let_through_limit :
      (r : Request) (rs : List Request) (store : Store S)
      → store.upstash ≡ none
      → IsValid store.memory
      → live_entry r.now (get r.key store.memory.memory_counters) ≡ none
      → Within (r.now + max 1 (max 1 r.window_ms)) r.key r.limit rs
      → let_through r.key (r ∷ rs) store ≡ smaller (requested r.key (r ∷ rs)) (max 1 r.limit)
  unfolding let_through
  let_through_limit r rs store off h new within =
      let window = max 1 (max 1 r.window_ms) in
      let after = record store {
        memory = (increment_in_memory r.now r.key window store.memory).1;
      } in
      let (allowed, next) = limited_off r store off in
      let valid = increment_in_memory-IsValid r.now r.key window store.memory h in
      let (one, held) = increment_new r.now r.key window store.memory h new in
      let rest =
        let_through_in_window rs r.key r.limit 1 (r.now + window) after off valid held within in
      rw (eq_text_refl r.key, allowed, one, next, rest) (ground arith)
