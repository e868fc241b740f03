-- ===== src/SecurityStore/Once.antt =====
-- Repeated insertions of a key in memory.
use self_agent_id.Base.{
  get-set_self, lt→ltb, inr, inl, ℕ, ◌+◌, ◌<◌, ◌≡◌, refl, true, false, none, some, List, [], ◌∷◌,
  Text, max, arith, get, retain, eq_text_iff, get-set, get-retain, Distinct, Distinct-retain,
  Distinct-set, Bool-cases, ltb,
}
use self_agent_id.SecurityStore.{
  Memory, Store, cleanup_memory, is_held, set_in_memory, increment_in_memory, fall_back,
  set_if_absent_with_ttl, increment_with_window,
}

-- Calls of the two operations, each at its time.
pub data Call : Type 0 where
  claim : ℕ → Text → ℕ → Call
  count : ℕ → Text → ℕ → Call

abbrev pub time : Call → ℕ
time (claim now key ttl) = now
time (count now key window) = now

-- Both maps hold each key once.
pub record IsValid (m : Memory) : Type 0 where
  pub set_distinct : Distinct m.memory_set
  pub counters_distinct : Distinct m.memory_counters

unfoldable pub perform : {S : Type 0} → Call → Store S → Store S
perform (claim now key ttl) store = (set_if_absent_with_ttl now key ttl store).1
perform (count now key window) store = (increment_with_window now key window store).1

unfoldable pub perform_all : {S : Type 0} → List Call → Store S → Store S
unfolding perform
perform_all [] store = store
perform_all (c ∷ cs) store = perform_all cs (perform c store)

abbrev pub Before : ℕ → List Call → Type 0
Before limit [] = Unit
Before limit (c ∷ cs) = (time c < limit) × Before limit cs

set_in_memory-IsValid :
    (now : ℕ) (key : Text) (ttl : ℕ) (m : Memory)
    → IsValid m
    → IsValid (set_in_memory now key ttl m).1
unfolding set_in_memory cleanup_memory
set_in_memory-IsValid now key ttl m h =
    let kept = Distinct-retain (λ exp. ltb now exp) m.memory_set h.set_distinct in
    let counters =
      Distinct-retain (λ entry. ltb now entry.expires_at) m.memory_counters h.counters_distinct in
    elim (Bool-cases (is_held now (get key (cleanup_memory now m).memory_set))) [
      | inl held ↦
          rw (held, set_in_memory) (record { set_distinct = kept; counters_distinct = counters })
      | inr free ↦
          rw (free, set_in_memory)
            (record {
              set_distinct = Distinct-set key (now + ttl) _ kept;
              counters_distinct = counters;
            })
    ]

pub increment_in_memory-IsValid :
    (now : ℕ) (key : Text) (window : ℕ) (m : Memory)
    → IsValid m
    → IsValid (increment_in_memory now key window m).1
unfolding increment_in_memory cleanup_memory
increment_in_memory-IsValid now key window m h = record {
  set_distinct = Distinct-retain (λ exp. ltb now exp) m.memory_set h.set_distinct;
  counters_distinct =
      Distinct-set key _ _
        (Distinct-retain (λ entry. ltb now entry.expires_at) m.memory_counters h.counters_distinct);
}

-- A key that is held keeps its expiry until then.
set_in_memory_holds :
    (now : ℕ) (key k : Text) (ttl exp : ℕ) (m : Memory)
    → IsValid m
    → get k m.memory_set ≡ some exp
    → now < exp
    → get k (set_in_memory now key ttl m).1.memory_set ≡ some exp
unfolding set_in_memory cleanup_memory
set_in_memory_holds now key k ttl exp m h held early =
    let kept = get-retain (λ exp. ltb now exp) k exp m.memory_set h.set_distinct held in
    ground (
      arith,
      eq_text_iff key k,
      kept,
      get-set key k (now + ttl) (retain (λ exp. ltb now exp) m.memory_set),
    )

increment_in_memory_holds :
    (now : ℕ) (key k : Text) (window exp : ℕ) (m : Memory)
    → IsValid m
    → get k m.memory_set ≡ some exp
    → now < exp
    → get k (increment_in_memory now key window m).1.memory_set ≡ some exp
unfolding increment_in_memory cleanup_memory
increment_in_memory_holds now key k window exp m h held early =
    ground (arith, get-retain (λ exp. ltb now exp) k exp m.memory_set h.set_distinct held)

set_in_memory_inserts :
    (now : ℕ) (key : Text) (ttl : ℕ) (m : Memory)
    → (set_in_memory now key ttl m).0 ≡ true
    → get key (set_in_memory now key ttl m).1.memory_set ≡ some (now + ttl)
unfolding set_in_memory cleanup_memory
set_in_memory_inserts now key ttl m h =
    ground (arith, get-set_self key (now + ttl) (retain (λ exp. ltb now exp) m.memory_set))

module _ {S : Type 0} where
  perform-IsValid :
      (c : Call) (store : Store S)
      → store.upstash ≡ none
      → IsValid store.memory
      → IsValid (perform c store).memory
  unfolding perform set_if_absent_with_ttl increment_with_window fall_back
  perform-IsValid (claim now key ttl) store off h =
      rw (off, fall_back) (set_in_memory-IsValid now key (max 1 ttl) store.memory h)
  perform-IsValid (count now key window) store off h =
      rw (off, fall_back) (increment_in_memory-IsValid now key (max 1 window) store.memory h)

  perform_off :
      (c : Call) (store : Store S) → store.upstash ≡ none → (perform c store).upstash ≡ none
  unfolding perform set_if_absent_with_ttl increment_with_window fall_back
  perform_off (claim now key ttl) store off = rw (off, fall_back) refl
  perform_off (count now key window) store off = rw (off, fall_back) refl

  perform_holds :
      (c : Call) (k : Text) (exp : ℕ) (store : Store S)
      → store.upstash ≡ none
      → IsValid store.memory
      → get k store.memory.memory_set ≡ some exp
      → time c < exp
      → get k (perform c store).memory.memory_set ≡ some exp
  unfolding perform set_if_absent_with_ttl increment_with_window fall_back
  perform_holds (claim now key ttl) k exp store off h held early =
      rw (off, fall_back) (set_in_memory_holds now key k (max 1 ttl) exp store.memory h held early)
  perform_holds (count now key window) k exp store off h held early =
      rw (off, fall_back)
        (increment_in_memory_holds now key k (max 1 window) exp store.memory h held early)

  pub perform_all_holds :
      (cs : List Call) (k : Text) (exp : ℕ) (store : Store S)
      → store.upstash ≡ none
      → IsValid store.memory
      → get k store.memory.memory_set ≡ some exp
      → Before exp cs
      → ((perform_all cs store).upstash ≡ none)
        × IsValid (perform_all cs store).memory
        × (get k (perform_all cs store).memory.memory_set ≡ some exp)
  unfolding perform_all
  perform_all_holds [] k exp store off h held early = (off, h, held)
  perform_all_holds (c ∷ cs) k exp store off h held (now, early) =
      perform_all_holds cs k exp (perform c store) (perform_off c store off)
        (perform-IsValid c store off h) (perform_holds c k exp store off h held now) early

  set_held :
      (now : ℕ) (key : Text) (ttl exp : ℕ) (store : Store S)
      → store.upstash ≡ none
      → IsValid store.memory
      → get key store.memory.memory_set ≡ some exp
      → now < exp
      → (set_if_absent_with_ttl now key ttl store).0 ≡ false
  unfolding set_if_absent_with_ttl fall_back set_in_memory cleanup_memory
  set_held now key ttl exp store off h held early =
      rw
        (
          off,
          get-retain (λ exp. ltb now exp) key exp store.memory.memory_set h.set_distinct held,
          lt→ltb now exp early,
        )
        (ground arith)

  set_inserts :
      (now : ℕ) (key : Text) (ttl : ℕ) (store : Store S)
      → store.upstash ≡ none
      → (set_if_absent_with_ttl now key ttl store).0 ≡ true
      → get key (set_if_absent_with_ttl now key ttl store).1.memory.memory_set
        ≡ some (now + max 1 ttl)
  unfolding set_if_absent_with_ttl fall_back set_in_memory cleanup_memory
  set_inserts now key ttl store off inserted =
      rw (off, set_if_absent_with_ttl, fall_back)
        (set_in_memory_inserts now key (max 1 ttl) store.memory
          (rw (off, set_if_absent_with_ttl, fall_back) at inserted))

  -- Without Upstash, a key that `setIfAbsentWithTtl` inserts is not inserted again before its time
  -- to live, at least one millisecond, has passed, whatever calls on this and other keys come
  -- between.
  pub inserted_once :
      (now later : ℕ) (key : Text) (ttl ttl2 : ℕ) (cs : List Call) (store : Store S)
      → store.upstash ≡ none
      → IsValid store.memory
      → (set_if_absent_with_ttl now key ttl store).0 ≡ true
      → Before (now + max 1 ttl) cs
      → later < now + max 1 ttl
      → (set_if_absent_with_ttl later key ttl2
          (perform_all cs (set_if_absent_with_ttl now key ttl store).1)).0
        ≡ false
  unfolding perform
  inserted_once now later key ttl ttl2 cs store off h inserted early soon =
      let next = perform (claim now key ttl) store in
      let (off2, h2, held) =
        perform_all_holds cs key (now + max 1 ttl) next (perform_off (claim now key ttl) store off)
          (perform-IsValid (claim now key ttl) store off h)
          (set_inserts now key ttl store off inserted) early in
      set_held later key ttl2 (now + max 1 ttl) (perform_all cs next) off2 h2 held soon
