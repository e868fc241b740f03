-- ===== src/Base/Maps.antt =====
-- A `Map` with text keys, as the list of its entries in insertion order. `set` on a key that is
-- present writes the value in place, and on a new key appends.
use Prim.Native.Nat.{◌+◌, ◌≤◌}
use mathlib.Core.Path.{◌≡◌, refl}
use mathlib.Core.Bool.{true, Bool, false}
use mathlib.Core.Option.{Option, none, some}
use mathlib.Core.List.{List, [], ◌∷◌}
use native.Mathlib.Omega.{arith}
use self_agent_id.Base.Checks.{if◌then◌else◌, is_some}
use self_agent_id.Base.Lists.{length}
use self_agent_id.Base.Strings.{Text, eq_text, eq_text_iff, eq_text_refl}

module _ {ℓ} {V : Type ℓ} where
  -- `m.get(k)`
  unfoldable pub get : Text → List (Text × V) → Option V
  get k [] = none
  get k ((j, v) ∷ m) = if eq_text j k then some v else get k m

  -- `m.set(k, v)`
  unfoldable pub set : Text → V → List (Text × V) → List (Text × V)
  set k v [] = (k, v) ∷ []
  set k v ((j, w) ∷ m) = if eq_text j k then (j, v) ∷ m else (j, w) ∷ set k v m

  -- `m.delete(k)`
  unfoldable pub delete : Text → List (Text × V) → List (Text × V)
  delete k [] = []
  delete k ((j, w) ∷ m) = if eq_text j k then m else (j, w) ∷ delete k m

  -- The loop that deletes the entries whose value fails the test.
  unfoldable pub retain : (V → Bool) → List (Text × V) → List (Text × V)
  retain p [] = []
  retain p ((j, w) ∷ m) = if p w then (j, w) ∷ retain p m else retain p m

  -- Every key stands once.
  abbrev pub Fresh : Text → List (Text × V) → Type 0
  Fresh k [] = Unit
  Fresh k ((j, w) ∷ m) = (eq_text j k ≡ false) × Fresh k m

  abbrev pub Distinct : List (Text × V) → Type 0
  Distinct [] = Unit
  Distinct ((j, w) ∷ m) = Fresh j m × Distinct m

  pub get-set :
      (k j : Text) (v : V) (m : List (Text × V))
      → get j (set k v m) ≡ (if eq_text k j then some v else get j m)
  unfolding get set
  get-set k j v [] = refl
  get-set k j v ((i, w) ∷ m) =
      ground (arith, eq_text_iff i k, eq_text_iff i j, eq_text_iff k j, get-set k j v m)

  pub get-set_self : (k : Text) (v : V) (m : List (Text × V)) → get k (set k v m) ≡ some v
  get-set_self k v m = rw (get-set k k v m, eq_text_refl k) refl

  pub length-set-le : (k : Text) (v : V) (m : List (Text × V)) → length (set k v m) ≤ length m + 1
  unfolding set
  length-set-le k v [] = omega arith
  length-set-le k v ((j, w) ∷ m) = ground (arith, length-set-le k v m)

  pub length-retain-le : (p : V → Bool) (m : List (Text × V)) → length (retain p m) ≤ length m
  unfolding retain
  length-retain-le p [] = omega arith
  length-retain-le p ((j, w) ∷ m) = ground (arith, length-retain-le p m)

  pub get_of_Fresh : (k : Text) (m : List (Text × V)) → Fresh k m → get k m ≡ none
  unfolding get
  get_of_Fresh k [] h = refl
  get_of_Fresh k ((j, w) ∷ m) (other, h) = rw other (get_of_Fresh k m h)

  pub Fresh-retain :
      (p : V → Bool) (k : Text) (m : List (Text × V)) → Fresh k m → Fresh k (retain p m)
  unfolding retain
  Fresh-retain p k [] h = tt
  Fresh-retain p k ((j, w) ∷ m) (other, h) = ground (arith, Fresh-retain p k m h)

  pub Distinct-retain : (p : V → Bool) (m : List (Text × V)) → Distinct m → Distinct (retain p m)
  unfolding retain
  Distinct-retain p [] h = tt
  Distinct-retain p ((j, w) ∷ m) (fresh, h) =
      ground (arith, Distinct-retain p m h, Fresh-retain p j m fresh)

  pub get-retain-none :
      (p : V → Bool) (k : Text) (m : List (Text × V)) → get k m ≡ none → get k (retain p m) ≡ none
  unfolding get retain
  get-retain-none p k [] h = refl
  get-retain-none p k ((j, w) ∷ m) h = ground (arith, get-retain-none p k m)

  pub get-retain :
      (p : V → Bool) (k : Text) (v : V) (m : List (Text × V))
      → Distinct m
      → get k m ≡ some v
      → get k (retain p m) ≡ (if p v then some v else none)
  unfolding get retain
  get-retain p k v [] d h = cc
  get-retain p k v ((j, w) ∷ m) (fresh, d) h =
      ground (
        arith,
        eq_text_iff j k,
        get_of_Fresh j m fresh,
        get-retain-none p j m,
        get-retain p k v m d,
      )

  Fresh-set :
      (k j : Text) (v : V) (m : List (Text × V))
      → eq_text k j ≡ false
      → Fresh j m
      → Fresh j (set k v m)
  unfolding set
  Fresh-set k j v [] other h = (other, tt)
  Fresh-set k j v ((i, w) ∷ m) other (this, h) = ground (arith, Fresh-set k j v m other h)

  pub Distinct-set : (k : Text) (v : V) (m : List (Text × V)) → Distinct m → Distinct (set k v m)
  unfolding set
  Distinct-set k v [] h = (tt, tt)
  Distinct-set k v ((j, w) ∷ m) (fresh, h) =
      ground (arith, eq_text_iff j k, eq_text_iff k j, Fresh-set k j v m, Distinct-set k v m h)

  Fresh-delete : (k j : Text) (m : List (Text × V)) → Fresh j m → Fresh j (delete k m)
  unfolding delete
  Fresh-delete k j [] h = tt
  Fresh-delete k j ((i, w) ∷ m) (this, h) = ground (arith, Fresh-delete k j m h)

  pub Distinct-delete : (k : Text) (m : List (Text × V)) → Distinct m → Distinct (delete k m)
  unfolding delete
  Distinct-delete k [] h = tt
  Distinct-delete k ((j, w) ∷ m) (fresh, h) =
      ground (arith, Distinct-delete k m h, Fresh-delete k j m fresh)

  pub length-delete :
      (k : Text) (v : V) (m : List (Text × V))
      → get k m ≡ some v
      → length (delete k m) + 1 ≡ length m
  unfolding get delete
  length-delete k v [] h = cc
  length-delete k v ((j, w) ∷ m) h = ground (arith, length-delete k v m)

  pub get-delete_ne :
      (k j : Text) (m : List (Text × V)) → eq_text j k ≡ false → get j (delete k m) ≡ get j m
  unfolding get delete
  get-delete_ne k j [] other = refl
  get-delete_ne k j ((i, w) ∷ m) other =
      ground (arith, eq_text_iff i k, eq_text_iff i j, eq_text_iff j k, get-delete_ne k j m other)

  pub get-cons_is_some :
      (k : Text) (e : Text × V) (m : List (Text × V))
      → is_some (get k m) ≡ true
      → is_some (get k (e ∷ m)) ≡ true
  unfolding get
  get-cons_is_some k (j, w) m h = ground arith

  pub get-head_is_some : (e : Text × V) (m : List (Text × V)) → is_some (get e.0 (e ∷ m)) ≡ true
  unfolding get
  get-head_is_some (j, w) m = rw (eq_text_refl j)
