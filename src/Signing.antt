-- ===== src/Signing.antt =====
-- typescript-sdk/src/signing.ts: the canonical URL and the message that an agent signs, with
-- `parseInt` for the timestamp header. app/lib/replayGuard.ts repeats the two functions.
pub mod Canonical
pub mod Binding
pub mod Timestamp
pub mod Samples
mod Examples
use self_agent_id.Base.{
  ℕ, ◌+◌, ◌-◌, ◌*◌, Bool, ◌||◌, Option, none, some, List, [], ◌∷◌, ◌++◌, Text, codes, ◌==◌,
  if◌then◌else◌, get_or_else, is_empty, starts_with, to_upper, is_digit, trim_start,
}
use mathlib.Core.Option
use self_agent_id.Base.Int.{ℤ, pos, sub_ℕ}

-- What the code calls of the `ethers` package and of `@noble/ed25519`. `none` is a thrown error.
pub record Ethers : Type 0 where
  pub keccak256 : List ℕ → Text
  pub to_utf8_bytes : Text → List ℕ
  pub get_bytes : Text → Option (List ℕ)
  pub verify_message : List ℕ → Text → Option Text
  pub zero_pad_value : Text → ℕ → Text
  pub get_address : Text → Option Text
  pub verify_ed25519 : List ℕ → List ℕ → List ℕ → Option Bool

-- The parts of `new URL(url, base)` that the code reads; `none` is the thrown `TypeError`.
pub record UrlParts : Type 0 where
  pub pathname : Text
  pub search : Text

pub record UrlParser : Type 0 where
  pub parse : Text → Option Text → Option UrlParts

abbrev pub path_and_search : Option UrlParts → Text → Text
path_and_search none url = url
path_and_search (some parsed) url =
    (if is_empty parsed.pathname then codes "/" else parsed.pathname) ++ parsed.search

unfoldable pub canonicalize_signing_url : UrlParser → Text → Text
canonicalize_signing_url parser url =
    if is_empty url
    then []
    else (if starts_with url (codes "http://") || starts_with url (codes "https://")
        then path_and_search (parser.parse url none) url
        else (if starts_with url (codes "?")
            then codes "/" ++ url
            else (if starts_with url (codes "/")
                then url
                else path_and_search (parser.parse url (some (codes "http://self.local"))) url)))

unfoldable pub compute_body_hash : Ethers → Option Text → Text
compute_body_hash ethers body = ethers.keccak256 (ethers.to_utf8_bytes (get_or_else body []))

-- The text whose hash is signed.
unfoldable pub signing_text : Ethers → UrlParser → Text → Text → Text → Option Text → Text
signing_text ethers parser timestamp method url body =
    timestamp
    ++ (to_upper method ++ (canonicalize_signing_url parser url ++ compute_body_hash ethers body))

unfoldable pub compute_signing_message :
    Ethers → UrlParser → Text → Text → Text → Option Text → Text
compute_signing_message ethers parser timestamp method url body =
    ethers.keccak256 (ethers.to_utf8_bytes (signing_text ethers parser timestamp method url body))

-- The digits at the front of a text, as a number; `none` where there is none.
unfoldable pub parse_digits : Option ℕ → Text → Option ℕ
parse_digits seen [] = seen
parse_digits seen (c ∷ s) =
    let more = parse_digits (some (get_or_else seen 0 * 10 + (c - b'0'))) s in
    if is_digit c then more else seen

parse_signed : Text → Option ℤ
parse_signed [] = none
parse_signed (c ∷ s) =
    if c == b'-'
    then Option.map (λ n. sub_ℕ 0 n) (parse_digits none s)
    else Option.map pos (parse_digits none (if c == b'+' then s else c ∷ s))

-- `parseInt(s, 10)`; `none` is NaN.
unfoldable pub parse_int : Text → Option ℤ
unfolding parse_signed parse_digits
parse_int s = parse_signed (trim_start s)
