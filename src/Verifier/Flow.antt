-- ===== src/Verifier/Flow.antt =====
-- How a call of `verify` goes on: it continues with a value, returns a result early, or throws.
-- The verifier's caches are kept on each of the three ways.
use self_agent_id.Base.{◌∙◌, ◌⊎◌, inl, inr, ◌≡◌, refl}
use self_agent_id.Verifier.{Verifier, VerificationResult}

pub data Flow (A : Type 0) : Type 0 where
  next : A → Verifier → Flow A
  reply : VerificationResult → Verifier → Flow A
  raise : Verifier → Flow A

abbrev pub M : Type 0 → Type 0
M A = Verifier → Flow A

infixl 5 ◌>>=◌ ◌>>◌
abbrev pub ◌>>=◌ : {A B : Type 0} → M A → (A → M B) → M B
◌>>=◌ m f v = elim (m v) [ next a u ↦ f a u | reply r u ↦ reply r u | raise u ↦ raise u ]

abbrev pub ◌>>◌ : {B : Type 0} → M (Unit {0}) → M B → M B
m >> k = m >>= λ _. k

-- A step that went on went on at each of its parts.
pub >>=-eq-next :
    {A B : Type 0} (m : M A) (f : A → M B) (v : Verifier) {b : B} {w : Verifier}
    → (m >>= f) v ≡ next b w
    → (a : A) × (u : Verifier) × (m v ≡ next a u) × (f a u ≡ next b w)
>>=-eq-next {A} m f v {b} {w} h = go (m v) refl h
  where
    go :
        (x : Flow A)
        → m v ≡ x
        → elim x [ next a u ↦ f a u | reply r u ↦ reply r u | raise u ↦ raise u ] ≡ next b w
        → (a : A) × (u : Verifier) × (m v ≡ next a u) × (f a u ≡ next b w)
    go (next a u) e k = (a, u, e, k)
    go (reply r u) e k = cc
    go (raise u) e k = cc

-- A step that replied replied at one of its parts.
pub >>=-eq-reply :
    {A B : Type 0} (m : M A) (f : A → M B) (v : Verifier) {r : VerificationResult} {w : Verifier}
    → (m >>= f) v ≡ reply r w
    → (m v ≡ reply r w) ⊎ ((a : A) × (u : Verifier) × (m v ≡ next a u) × (f a u ≡ reply r w))
>>=-eq-reply {A} m f v {r} {w} h = go (m v) refl h
  where
    go :
        (x : Flow A)
        → m v ≡ x
        → elim x [ next a u ↦ f a u | reply r u ↦ reply r u | raise u ↦ raise u ] ≡ reply r w
        → (m v ≡ reply r w) ⊎ ((a : A) × (u : Verifier) × (m v ≡ next a u) × (f a u ≡ reply r w))
    go (next a u) e k = inr (a, u, e, k)
    go (reply s u) e k = let p : s ≡ r = cc in let q : u ≡ w = cc in inl (e ∙ cc)
    go (raise u) e k = cc
