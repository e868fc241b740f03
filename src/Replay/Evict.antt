-- ===== src/Replay/Evict.antt =====
-- The size of the replay cache, and its keys.
use self_agent_id.Base.{
  ℕ, zero, suc, ◌+◌, ◌-◌, ◌≤◌, ◌≡◌, refl, ◌∙◌, ap, true, false, [], ◌∷◌, Text, leb, length, get,
  delete, retain, arith, eq_text, eq_text_iff, Bool-cases, Distinct, Fresh, All, length-set-le,
  Distinct-retain, Distinct-set, Distinct-delete, length-delete, inl, inr, is_some, Option-cases,
  get-delete_ne, get-cons_is_some, get-head_is_some, le→leb, gt_of_leb,
}
use self_agent_id.Base.Int.{ℤ, add_ℕ}
use self_agent_id.Replay.{
  ReplayEntry, ReplayCache, insert_by_expiry, sort_by_expiry, evict, is_live, prune_replay_cache,
  check_and_record_replay, replay_key, is_replay,
}

-- All entries of `xs` stand in the cache, under their key.
abbrev Within : ReplayCache → ReplayCache → Type 0
Within cache = All (λ e. is_some (get e.0 cache) ≡ true)

Fresh-insert :
    (k : Text) (e : Text × ReplayEntry) (xs : ReplayCache)
    → eq_text e.0 k ≡ false
    → Fresh k xs
    → Fresh k (insert_by_expiry e xs)
unfolding insert_by_expiry
Fresh-insert k e [] other h = (other, tt)
Fresh-insert k e (f ∷ xs) other (this, h) = ground (arith, Fresh-insert k e xs other h)

Distinct-insert :
    (e : Text × ReplayEntry) (xs : ReplayCache)
    → Fresh e.0 xs
    → Distinct xs
    → Distinct (insert_by_expiry e xs)
unfolding insert_by_expiry
Distinct-insert e [] h d = (tt, tt)
Distinct-insert e (f ∷ xs) (other, h) (fresh, d) = ground (
  arith,
  Distinct-insert e xs h d,
  Fresh-insert f.0 e xs,
  eq_text_iff e.0 f.0,
  eq_text_iff f.0 e.0,
)

Fresh-sort : (k : Text) (xs : ReplayCache) → Fresh k xs → Fresh k (sort_by_expiry xs)
unfolding sort_by_expiry
Fresh-sort k [] h = tt
Fresh-sort k (e ∷ xs) (other, h) = Fresh-insert k e (sort_by_expiry xs) other (Fresh-sort k xs h)

Distinct-sort : (xs : ReplayCache) → Distinct xs → Distinct (sort_by_expiry xs)
unfolding sort_by_expiry
Distinct-sort [] d = tt
Distinct-sort (e ∷ xs) (fresh, d) =
    Distinct-insert e (sort_by_expiry xs) (Fresh-sort e.0 xs fresh) (Distinct-sort xs d)

All-insert {ℓ} :
    (P : Text × ReplayEntry → Type ℓ) (e : Text × ReplayEntry) (xs : ReplayCache)
    → P e
    → All P xs
    → All P (insert_by_expiry e xs)
unfolding insert_by_expiry
All-insert P e [] p h = (p, tt)
All-insert P e (f ∷ xs) p (q, h) = elim (Bool-cases (leb e.1.expires_at f.1.expires_at)) [
  | inl c ↦ rw c (p, (q, h))
  | inr c ↦ rw c (q, All-insert P e xs p h)
]

pub All-sort {ℓ} :
    (P : Text × ReplayEntry → Type ℓ) (xs : ReplayCache) → All P xs → All P (sort_by_expiry xs)
unfolding sort_by_expiry
All-sort P [] h = tt
All-sort P (e ∷ xs) (p, h) = All-insert P e (sort_by_expiry xs) p (All-sort P xs h)

length-insert :
    (e : Text × ReplayEntry) (xs : ReplayCache) → length (insert_by_expiry e xs) ≡ suc (length xs)
unfolding insert_by_expiry
length-insert e [] = refl
length-insert e (f ∷ xs) = ground (arith, length-insert e xs)

length-sort : (xs : ReplayCache) → length (sort_by_expiry xs) ≡ length xs
unfolding sort_by_expiry
length-sort [] = refl
length-sort (e ∷ xs) = length-insert e (sort_by_expiry xs) ∙ ap suc (length-sort xs)

Within-cons :
    (e : Text × ReplayEntry) (xs cache : ReplayCache) → Within cache xs → Within (e ∷ cache) xs
Within-cons e [] cache w = tt
Within-cons e (f ∷ xs) cache (here, w) =
    (get-cons_is_some f.0 e cache here, Within-cons e xs cache w)

Within-self : (xs : ReplayCache) → Within xs xs
Within-self [] = tt
Within-self (e ∷ xs) = (get-head_is_some e xs, Within-cons e xs xs (Within-self xs))

Within-delete :
    (k : Text) (xs cache : ReplayCache) → Fresh k xs → Within cache xs → Within (delete k cache) xs
Within-delete k [] cache h w = tt
Within-delete k (e ∷ xs) cache (other, h) (here, w) =
    (rw (get-delete_ne k e.0 cache other) here, Within-delete k xs cache h w)

length-evict :
    (n : ℕ) (sorted cache : ReplayCache)
    → Distinct sorted
    → Within cache sorted
    → n ≤ length sorted
    → length (evict n sorted cache) + n ≡ length cache
unfolding evict
length-evict zero sorted cache d w h = omega arith
length-evict (suc n) [] cache d w h = absurd (omega arith)
length-evict (suc n) (e ∷ sorted) cache (fresh, d) (here, w) h =
    elim (Option-cases (get e.0 cache)) [
      | inl missing ↦ absurd (ground arith)
      | inr (v, found) ↦ omega (
        arith,
        length-delete e.0 v cache found,
        length-evict n sorted (delete e.0 cache) d (Within-delete e.0 sorted cache fresh w)
            (omega arith),
      )
    ]

evict-Distinct :
    (n : ℕ) (sorted cache : ReplayCache) → Distinct cache → Distinct (evict n sorted cache)
unfolding evict
evict-Distinct zero sorted cache d = d
evict-Distinct (suc n) [] cache d = d
evict-Distinct (suc n) (e ∷ sorted) cache d =
    evict-Distinct n sorted (delete e.0 cache) (Distinct-delete e.0 cache d)

module _ (max_entries now : ℕ) (cache : ReplayCache) where
  abbrev live : ReplayCache
  live = retain (is_live now) cache

  pub prune_small : length live ≤ max_entries → prune_replay_cache max_entries now cache ≡ live
  unfolding prune_replay_cache
  prune_small h = rw (le→leb (length live) max_entries h)

  pub prune_bounds :
      Distinct cache
      → Distinct (prune_replay_cache max_entries now cache)
        × (length (prune_replay_cache max_entries now cache) ≤ max_entries)
  unfolding prune_replay_cache
  prune_bounds d = elim (Bool-cases (leb (length live) max_entries)) [
    | inl few ↦ rw few (Distinct-retain (is_live now) cache d, ground arith)
    | inr many ↦
        let fresh = Distinct-retain (is_live now) cache d in
        rw many (
          evict-Distinct (length live - max_entries) (sort_by_expiry live) live fresh,
          omega (
            arith,
            length-evict (length live - max_entries) (sort_by_expiry live) live
                (Distinct-sort live fresh)
                (All-sort (λ e. is_some (get e.0 live) ≡ true) live (Within-self live))
                (omega (arith, length-sort live)),
            gt_of_leb (length live) max_entries many,
          ),
        )
  ]

-- A well-formed replay cache: each fingerprint once, and at most one entry over the maximum.
pub record IsValid (max_entries : ℕ) (cache : ReplayCache) : Type 0 where
  pub distinct : Distinct cache
  pub bounded : length cache ≤ max_entries + 1

-- Every call keeps the replay cache well-formed: it never holds more than one entry over the
-- configured maximum, and no fingerprint twice.
pub check_and_record_replay-IsValid :
    (max_entries max_age now : ℕ) (signature message : Text) (ts : ℤ) (cache : ReplayCache)
    → IsValid max_entries cache
    → IsValid max_entries
        (check_and_record_replay max_entries max_age now signature message ts cache).1
unfolding check_and_record_replay
check_and_record_replay-IsValid max_entries max_age now signature message ts cache v =
    let (fresh, small) = prune_bounds max_entries now cache v.distinct in
    let pruned = prune_replay_cache max_entries now cache in
    let entry : ReplayEntry = record { expires_at = add_ℕ ts max_age } in
    elim (Bool-cases (is_replay now (get (replay_key signature message) pruned))) [
      | inl seen ↦ rw seen (record { distinct = fresh; bounded = omega arith })
      | inr new ↦ rw new (record {
        distinct = Distinct-set (replay_key signature message) entry pruned fresh;
        bounded = omega (arith, length-set-le (replay_key signature message) entry pruned);
      })
    ]
