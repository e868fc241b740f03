-- ===== src/Signing/Samples.antt =====
-- Concrete functions in the place of the `ethers` package and the URL parser, for tests and for
-- the theorems at concrete inputs.
use self_agent_id.Base.{
  ℕ, zero, suc, ◌≡◌, refl, ap, sym, ◌∙◌, starts_with, Option, true, some, none, List, [], ◌∷◌, ◌++◌,
  Text, codes, length, eq_text, if◌then◌else◌, inr,
}
use mathlib.Core.Path.{subst}
use mathlib.Core.Option.{some-injective}
use self_agent_id.Signing.{Ethers, UrlParser, UrlParts}
use self_agent_id.Signing.Canonical.{IsRooted, HasRootedPaths}

abbrev pub pad : ℕ → List ℕ → List ℕ
pad zero xs = []
pad (suc n) [] = b'0' ∷ pad n []
pad (suc n) (x ∷ xs) = x ∷ pad n xs

length-pad : (n : ℕ) (xs : List ℕ) → length (pad n xs) ≡ n
length-pad zero xs = refl
length-pad (suc n) [] = ap suc (length-pad n [])
length-pad (suc n) (x ∷ xs) = ap suc (length-pad n xs)

-- The hash is the start of its input, and the signer of a message is its signature.
unfoldable pub verify_sample : List ℕ → Text → Option Text
verify_sample bytes signature = if eq_text signature (codes "bad") then none else some signature

abbrev pub sample_ethers : Ethers
sample_ethers = record {
  keccak256 = pad 66;
  to_utf8_bytes = λ s. s;
  get_bytes = λ s. some s;
  verify_message = verify_sample;
  zero_pad_value = λ s n. codes "0x00" ++ s;
  get_address = λ s. some s;
  verify_ed25519 = λ signature message key. some true;
}

pub length-sample : (x y : List ℕ) → length (pad 66 x) ≡ length (pad 66 y)
length-sample x y = length-pad 66 x ∙ sym (length-pad 66 y)

-- Every URL parses to one path.
abbrev pub sample_parts : UrlParts
sample_parts = record { pathname = codes "/api"; search = codes "?x=1" }

abbrev pub sample_parser : UrlParser
sample_parser = record { parse = λ url base. some sample_parts }

sample-IsRooted : (parts : UrlParts) → some sample_parts ≡ some parts → IsRooted parts
unfolding starts_with
sample-IsRooted parts e = inr (
    subst (λ p. starts_with p.pathname (codes "/") ≡ true) (some-injective sample_parts parts e)
      refl)

pub sample_parser_rooted : HasRootedPaths sample_parser
sample_parser_rooted = record {
  absolute = λ url parts http e. sample-IsRooted parts e;
  relative = λ url parts plain e. sample-IsRooted parts e;
}
