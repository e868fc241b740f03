-- ===== src/Signing/Binding.antt =====
-- What a signing message binds: timestamp, method, path and body stand in the signed text one
-- after the other with no separator.
use self_agent_id.Base.{
  Text, ℕ, Option, ◌≡◌, refl, ap, true, false, Bool, starts_with, codes, arith, List, [], ◌∷◌, ◌++◌,
  ◌==◌, ◌&&◌, not, length, length-append, get_or_else, to_upper, is_digit,
}
use self_agent_id.Signing.{
  Ethers, UrlParser, canonicalize_signing_url, compute_body_hash, signing_text,
  compute_signing_message,
}

abbrev pub all : (ℕ → Bool) → Text → Bool
all p [] = true
all p (c ∷ s) = p c && all p s

abbrev Stops : (ℕ → Bool) → Text → Type 0
Stops p [] = ⊥
Stops p (c ∷ s) = p c ≡ false

-- Two texts split at the first character that fails the test, in one way.
split_unique :
    (p : ℕ → Bool) (a b x y : Text)
    → all p a ≡ true
    → all p b ≡ true
    → Stops p x
    → Stops p y
    → a ++ x ≡ b ++ y
    → (a ≡ b) × (x ≡ y)
split_unique p [] [] x y h k sx sy e = (refl, e)
split_unique p [] (c ∷ b) (d ∷ x) y h k sx sy e = absurd (ground arith)
split_unique p (c ∷ a) [] x (d ∷ y) h k sx sy e = absurd (ground arith)
split_unique p (c ∷ a) (d ∷ b) x y h k sx sy e =
    let (same, rest) = split_unique p a b x y (ground arith) (ground arith) sx sy (cc) in
    (ground arith, rest)
split_unique p _ _ [] _ h k sx sy e = absurd sx
split_unique p _ _ _ [] h k sx sy e = absurd sy

append_unique : (a b x y : Text) → length x ≡ length y → a ++ x ≡ b ++ y → (a ≡ b) × (x ≡ y)
append_unique [] [] x y h e = (refl, e)
append_unique [] (c ∷ b) x y h e = absurd (omega (arith, ap length e, length-append b y))
append_unique (c ∷ a) [] x y h e = absurd (omega (arith, ap length e, length-append a x))
append_unique (c ∷ a) (d ∷ b) x y h e =
    let (same, rest) = append_unique a b x y h (cc) in (ground arith, rest)

abbrev not_slash : ℕ → Bool
not_slash c = not (c == b'/')

abbrev is_plain : ℕ → Bool
is_plain c = not (is_digit c) && not (c == b'/')

-- The two inputs are no collision of the function.
abbrev pub NoCollision {ℓ κ} : {A : Type ℓ} {B : Type κ} → (A → B) → A → A → Type (ℓ ⊔ κ)
NoCollision f a b = f a ≡ f b → a ≡ b

pub record Signable : Type 0 where
  pub timestamp : Text
  pub method : Text
  pub url : Text
  pub body : Option Text

module _ (ethers : Ethers) (parser : UrlParser) where
  abbrev pub text_of : Signable → Text
  text_of r = signing_text ethers parser r.timestamp r.method r.url r.body

  abbrev pub message_of : Signable → Text
  message_of r = compute_signing_message ethers parser r.timestamp r.method r.url r.body

  -- A request as the SDK makes it: the timestamp is digits, the method has neither digits nor
  -- slashes, and the canonical URL is a path.
  pub record IsPlain (r : Signable) : Type 0 where
    pub digits : all is_digit r.timestamp ≡ true
    pub letters : all is_plain r.method ≡ true
    pub rooted : starts_with (canonicalize_signing_url parser r.url) (codes "/") ≡ true

  abbrev path_of : Signable → Text
  path_of r = canonicalize_signing_url parser r.url

  abbrev body_of : Signable → Text
  body_of r = compute_body_hash ethers r.body

  all_upper : (s : Text) → all is_plain s ≡ true → all not_slash (to_upper s) ≡ true
  unfolding to_upper
  all_upper [] h = refl
  all_upper (c ∷ s) h = ground (arith, all_upper s)

  Stops-path :
      (path rest : Text) → starts_with path (codes "/") ≡ true → Stops not_slash (path ++ rest)
  unfolding starts_with
  Stops-path [] rest h = cc
  Stops-path (c ∷ path) rest h = ground arith

  Stops-method :
      (method path rest : Text)
      → all is_plain method ≡ true
      → starts_with path (codes "/") ≡ true
      → Stops is_digit (to_upper method ++ (path ++ rest))
  unfolding to_upper starts_with
  Stops-method [] [] rest h k = cc
  Stops-method [] (c ∷ path) rest h k = ground arith
  Stops-method (c ∷ method) path rest h k = ground arith

  -- The signed text determines its parts.
  signing_text_parts :
      (r s : Signable)
      → IsPlain r
      → IsPlain s
      → length (body_of r) ≡ length (body_of s)
      → text_of r ≡ text_of s
      → (r.timestamp ≡ s.timestamp)
        × (to_upper r.method ≡ to_upper s.method)
        × (path_of r ≡ path_of s)
        × (body_of r ≡ body_of s)
  unfolding signing_text
  signing_text_parts r s p q same_length e =
      let (timestamps, rest) =
        split_unique is_digit r.timestamp s.timestamp
          (to_upper r.method ++ (path_of r ++ body_of r))
          (to_upper s.method ++ (path_of s ++ body_of s)) p.digits q.digits
          (Stops-method r.method (path_of r) (body_of r) p.letters p.rooted)
          (Stops-method s.method (path_of s) (body_of s) q.letters q.rooted) e in
      let (methods, tail) =
        split_unique not_slash (to_upper r.method) (to_upper s.method) (path_of r ++ body_of r)
          (path_of s ++ body_of s) (all_upper r.method p.letters) (all_upper s.method q.letters)
          (Stops-path (path_of r) (body_of r) p.rooted)
          (Stops-path (path_of s) (body_of s) q.rooted) rest in
      let (paths, bodies) =
        append_unique (path_of r) (path_of s) (body_of r) (body_of s) same_length tail in
      (timestamps, methods, paths, bodies)

  -- Two plain requests with the same signing message have the same timestamp, the same method up
  -- to letter case, the same canonical URL and the same body bytes, a missing body counting as
  -- empty: none of the four can be changed under a signature. The hash must have a fixed length,
  -- and the two signed texts and the two bodies must be no collision of the hash, nor the texts
  -- one of the UTF-8 encoding.
  pub message_binds :
      (r s : Signable)
      → IsPlain r
      → IsPlain s
      → ((x y : List ℕ) → length (ethers.keccak256 x) ≡ length (ethers.keccak256 y))
      → NoCollision ethers.keccak256
          (ethers.to_utf8_bytes (text_of r))
          (ethers.to_utf8_bytes (text_of s))
      → NoCollision ethers.to_utf8_bytes (text_of r) (text_of s)
      → NoCollision ethers.keccak256
          (ethers.to_utf8_bytes (get_or_else r.body []))
          (ethers.to_utf8_bytes (get_or_else s.body []))
      → message_of r ≡ message_of s
      → (r.timestamp ≡ s.timestamp)
        × (to_upper r.method ≡ to_upper s.method)
        × (path_of r ≡ path_of s)
        × (ethers.to_utf8_bytes (get_or_else r.body [])
            ≡ ethers.to_utf8_bytes (get_or_else s.body []))
  unfolding compute_signing_message compute_body_hash
  message_binds r s p q fixed texts utf8 bodies e =
      let (timestamps, methods, paths, hashes) =
        signing_text_parts r s p q
          (fixed (ethers.to_utf8_bytes (get_or_else r.body []))
            (ethers.to_utf8_bytes (get_or_else s.body [])))
          (utf8 (texts e)) in
      (timestamps, methods, paths, bodies hashes)
