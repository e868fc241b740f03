-- ===== src/SecurityStore.antt =====
-- app/lib/securityStore.ts and app/lib/rateLimit.ts: keys with an expiry and counters with a
-- window, in memory or in an Upstash store whose HTTP interface is a parameter, and the rate limit
-- of the API routes. Times and lengths are whole milliseconds.
pub mod Once
pub mod Limit
mod Examples
use self_agent_id.Base.{
  ℕ, ◌+◌, ◌-◌, Bool, true, false, not, ◌&&◌, Option, none, some, List, [], ◌∷◌, Text, codes, ltb,
  leb, ◌==◌, max, if◌then◌else◌, is_empty, get, set, retain, eq_text, print_nat,
}
use self_agent_id.Base.Int.{ℤ, pos, negsuc}

pub record CounterEntry : Type 0 where
  pub count : ℕ
  pub expires_at : ℕ

-- `memorySet` and `memoryCounters`
pub record Memory : Type 0 where
  pub memory_set : List (Text × ℕ)
  pub memory_counters : List (Text × CounterEntry)

-- A result of the store: the value in the field `result` of its JSON.
pub data Reply : Type 0 where
  text : Text → Reply
  number : ℤ → Reply
  null : Reply

-- What `fetch` and `res.json()` give: an error, a status that is not ok, or the decoded JSON.
pub data Fetched : Type 0 where
  failed : Fetched
  not_ok : ℕ → Fetched
  data_of : Option Text → Reply → Fetched

-- The Upstash store: its state is of type `S`. `to_number` is `Number` on a text, `none` is NaN.
pub record Upstash (S : Type 0) : Type 0 where
  pub fetch : List Text → S → Fetched × S
  pub to_number : Text → Option ℤ

-- The module's state; `upstash` is missing where the environment does not configure it.
pub record Store (S : Type 0) : Type 0 where
  pub upstash : Option (Upstash S)
  pub remote : S
  pub memory : Memory

-- The result of `incrementWithWindow`; the count `none` is NaN.
pub record Counted : Type 0 where
  pub count : Option ℤ
  pub ttl_ms : ℕ

unfoldable pub cleanup_memory : ℕ → Memory → Memory
cleanup_memory now m = record {
  memory_set = retain (λ exp. ltb now exp) m.memory_set;
  memory_counters = retain (λ entry. ltb now entry.expires_at) m.memory_counters;
}

unfoldable pub reply_of : Fetched → Option Reply
reply_of failed = none
reply_of (not_ok status) = none
reply_of (data_of none result) = some result
reply_of (data_of (some error) result) = if is_empty error then some result else none

-- `existingExp && existingExp > now`
abbrev pub is_held : ℕ → Option ℕ → Bool
is_held now none = false
is_held now (some exp) = not (exp == 0) && ltb now exp

-- `setIfAbsentWithTtl` in memory, from the second reading of the clock on.
unfoldable pub set_in_memory : ℕ → Text → ℕ → Memory → Bool × Memory
unfolding cleanup_memory
set_in_memory now key ttl m =
    let clean = cleanup_memory now m in
    if is_held now (get key clean.memory_set)
    then (false, clean)
    else (true, record clean { memory_set = set key (now + ttl) clean.memory_set })

-- An entry that counts as present: one that has not expired.
abbrev pub live_entry : ℕ → Option CounterEntry → Option CounterEntry
live_entry now none = none
live_entry now (some entry) = if leb entry.expires_at now then none else some entry

abbrev pub next_entry : ℕ → ℕ → Option CounterEntry → CounterEntry
next_entry now window none = record { count = 1; expires_at = now + window }
next_entry now window (some entry) = record entry { count = entry.count + 1 }

abbrev pub ttl_of_entry : ℕ → ℕ → Option CounterEntry → ℕ
ttl_of_entry now window none = window
ttl_of_entry now window (some entry) = entry.expires_at - now

-- `incrementWithWindow` in memory.
unfoldable pub increment_in_memory : ℕ → Text → ℕ → Memory → Counted × Memory
unfolding cleanup_memory
increment_in_memory now key window m =
    let clean = cleanup_memory now m in
    let existing = live_entry now (get key clean.memory_counters) in
    let entry = next_entry now window existing in
    (
      record { count = some (pos entry.count); ttl_ms = ttl_of_entry now window existing },
      record clean { memory_counters = set key entry clean.memory_counters },
    )

abbrev pub is_one : Option ℤ → Bool
is_one (some (pos n)) = n == 1
is_one _ = false

-- `ttl > 0 ? ttl : window`, where `ttl` is `Math.max(0, n)`
abbrev pub ttl_or : ℕ → Option ℤ → ℕ
ttl_or window none = window
ttl_or window (some (negsuc n)) = window
ttl_or window (some (pos n)) = if n == 0 then window else n

abbrev pub is_ok : Reply → Bool
is_ok (text t) = eq_text t (codes "OK")
is_ok _ = false

module _ {S : Type 0} where
  -- `runUpstashCommand`; `none` is a thrown error.
  unfoldable pub run_upstash_command : Upstash S → List Text → Store S → Option Reply × Store S
  unfolding reply_of
  run_upstash_command upstash command store =
      let answer = upstash.fetch command store.remote in
      (reply_of answer.0, record store { remote = answer.1 })

  -- `Number(raw || 0)`
  abbrev pub number_of : Upstash S → Reply → Option ℤ
  number_of upstash null = some (pos 0)
  number_of upstash (number n) = some n
  number_of upstash (text t) = if is_empty t then some (pos 0) else upstash.to_number t

  -- The part in memory, on the store.
  unfoldable pub fall_back : {A : Type 0} → (Memory → A × Memory) → Store S → A × Store S
  fall_back step store = let out = step store.memory in (out.0, record store { memory = out.1 })

  abbrev pub set_reply : (Memory → Bool × Memory) → Option Reply × Store S → Bool × Store S
  unfolding fall_back
  set_reply in_memory (some reply, store) = (is_ok reply, store)
  set_reply in_memory (none, store) = fall_back in_memory store

  -- `setIfAbsentWithTtl`, at the time `now`.
  unfoldable pub set_if_absent_with_ttl : ℕ → Text → ℕ → Store S → Bool × Store S
  unfolding set_in_memory fall_back set_reply run_upstash_command
  set_if_absent_with_ttl now key ttl_ms store =
      let ttl = max 1 ttl_ms in
      let in_memory = set_in_memory now key ttl in
      elim store.upstash [
        | none ↦ fall_back in_memory store
        | some upstash ↦ set_reply in_memory (
            run_upstash_command upstash
              (codes "SET" ∷ key ∷ codes "1" ∷ codes "NX" ∷ codes "PX" ∷ print_nat ttl ∷ []) store)
      ]

  -- The last command of `incrementWithWindow`.
  unfoldable pub read_ttl : Upstash S → Text → ℕ → Option ℤ → Store S → Option Counted × Store S
  unfolding run_upstash_command
  read_ttl upstash key window count store =
      let (raw, after) = run_upstash_command upstash (codes "PTTL" ∷ key ∷ []) store in
      elim raw [
        | none ↦ (none, after)
        | some raw ↦
            (some (record { count = count; ttl_ms = ttl_or window (number_of upstash raw) }), after)
      ]

  -- The second command, where the counter is new.
  unfoldable pub start_window : Upstash S → Text → ℕ → Option ℤ → Store S → Option Counted × Store S
  unfolding run_upstash_command read_ttl
  start_window upstash key window count store =
      if is_one count
      then (let (raw, after) =
            run_upstash_command upstash (codes "PEXPIRE" ∷ key ∷ print_nat window ∷ []) store in
          elim raw [ none ↦ (none, after) | some raw ↦ read_ttl upstash key window count after ])
      else read_ttl upstash key window count store

  -- The commands of `incrementWithWindow`; `none` is an error of one of them.
  unfoldable pub increment_upstash : Upstash S → Text → ℕ → Store S → Option Counted × Store S
  unfolding run_upstash_command start_window
  increment_upstash upstash key window store =
      let (raw, after) = run_upstash_command upstash (codes "INCR" ∷ key ∷ []) store in
      elim raw [
        | none ↦ (none, after)
        | some raw ↦ start_window upstash key window (number_of upstash raw) after
      ]

  abbrev pub counted_or : (Memory → Counted × Memory) → Option Counted × Store S → Counted × Store S
  unfolding fall_back
  counted_or in_memory (some counted, store) = (counted, store)
  counted_or in_memory (none, store) = fall_back in_memory store

  unfoldable pub increment_with_window : ℕ → Text → ℕ → Store S → Counted × Store S
  unfolding increment_in_memory fall_back counted_or increment_upstash
  increment_with_window now key window_ms store =
      let window = max 1 window_ms in
      let in_memory = increment_in_memory now key window in
      elim store.upstash [
        | none ↦ fall_back in_memory store
        | some upstash ↦ counted_or in_memory (increment_upstash upstash key window store)
      ]

-- The result of `checkRateLimit`; `remaining` is `none` for NaN.
pub record RateLimit : Type 0 where
  pub allowed : Bool
  pub remaining : Option ℕ
  pub retry_after_ms : ℕ

abbrev pub is_within : ℕ → Option ℤ → Bool
is_within limit none = false
is_within limit (some (negsuc n)) = true
is_within limit (some (pos n)) = leb n limit

abbrev pub remaining_of : ℕ → Option ℤ → Option ℕ
remaining_of limit none = none
remaining_of limit (some (pos n)) = some (limit - n)
remaining_of limit (some (negsuc n)) = some (limit + (n + 1))

unfoldable pub check_rate_limit : {S : Type 0} → ℕ → Text → ℕ → ℕ → Store S → RateLimit × Store S
unfolding increment_with_window
check_rate_limit now key limit window_ms store =
    let safe_limit = max 1 limit in
    let out = increment_with_window now key (max 1 window_ms) store in
    (
      record {
        allowed = is_within safe_limit out.0.count;
        remaining = remaining_of safe_limit out.0.count;
        retry_after_ms = max 1 out.0.ttl_ms;
      },
      out.1,
    )
