-- ===== src/RegistrationFlow.antt =====
-- typescript-sdk/src/registration-flow.ts: the client of the agent API, which starts registrations,
-- refreshes and deregistrations and polls them until they are done. The network, the clock and the
-- environment are parameters.
pub mod Requests
pub mod Sessions
pub mod Polls
pub mod Tokens
pub mod Resume
pub mod Refused
mod Examples
use self_agent_id.Base.{
  ◌*◌, zero, suc, ℕ, ◌+◌, Bool, true, false, not, Option, none, some, List, [], ◌∷◌, ◌++◌, Text,
  codes, ltb, ◌==◌, includes, to_lower, if◌then◌else◌, get_or_else, print_nat, eq_text,
}
use self_agent_id.Base.Int.{ℤ, pos}
use self_agent_id.A2aTypes.{
  Json, Fields, null, boolean, number, string, array, object, no_more, field,
}
use self_agent_id.A2aServer.{find_field, property}
use self_agent_id.Verifier.Auth.{truthy}
use self_agent_id.ApiResponses.{is_text, text_of_json, text_of_value}

abbrev pub default_api_base : Text
default_api_base = codes "https://app.ai.self.xyz"

abbrev pub default_poll_interval_ms : ℕ
default_poll_interval_ms = 5000

abbrev pub default_timeout_ms : ℕ
default_timeout_ms = 30 * 60 * 1000

pub data NetworkName : Type 0 where
  mainnet testnet : NetworkName

unfoldable pub chain_id_for_network : NetworkName → ℕ
chain_id_for_network mainnet = 42220
chain_id_for_network testnet = 11142220

abbrev pub network_text : NetworkName → Text
network_text mainnet = codes "mainnet"
network_text testnet = codes "testnet"

-- The second argument of `fetch`: none for a plain GET, and the JSON body of a POST.
abbrev pub RequestInit : Type 0
RequestInit = Option Json

-- What `fetch` and `res.json()` give: an answer, or the message of an error.
pub data Fetched : Type 0 where
  answered : (ok : Bool) (status : ℕ) (body : Json) → Fetched
  fetch_failed : Text → Fetched

-- The world outside, in states `S`.
pub record Host (S : Type 0) : Type 0 where
  pub now : S → ℕ
  pub sleep : ℕ → S → S
  pub fetch : Text → RequestInit → S → Fetched × S
  pub encode_uri_component : Text → Text
  pub env_api_base : Option Text
  -- The time of `new Date(value)`, none for an invalid date.
  pub date_of : Json → Option ℤ

-- `.replace(/\/+$/, "")`
abbrev strip_cons : ℕ → Text → Text
strip_cons c [] = if c == b'/' then [] else c ∷ []
strip_cons c (d ∷ rest) = c ∷ d ∷ rest

strip_slashes : Text → Text
strip_slashes [] = []
strip_slashes (c ∷ s) = strip_cons c (strip_slashes s)

-- `defaultApiBaseFromEnv`, in a program that has a `process`.
abbrev pub default_api_base_from_env : Option Text → Text
default_api_base_from_env variable = get_or_else (truthy variable) default_api_base

unfoldable pub resolve_api_base : Option Text → Option Text → Text
unfolding strip_slashes
resolve_api_base variable api_base =
    strip_slashes (get_or_else api_base (default_api_base_from_env variable))

-- The result of a call of the API: its body, a `RegistrationError`, or another error.
pub data Result {ℓ} (A : Type ℓ) : Type ℓ where
  fetched : A → Result A
  registration_error : Text → Result A
  other_error : Text → Result A

-- The message of an answer that is not ok.
unfoldable pub error_message : ℕ → Json → Text
unfolding find_field
error_message status body = elim (property (codes "error") body) [
  | some message ↦ text_of_json message
  | none ↦ codes "HTTP " ++ print_nat status
]

abbrev read_answer : Fetched → Result Json
read_answer (fetch_failed message) = other_error message
read_answer (answered true status body) = fetched body
read_answer (answered false status body) = registration_error (error_message status body)

abbrev pub post : Json → RequestInit
post body = some body

-- A field of a body that is undefined where the caller leaves it out.
abbrev pub add_field : Text → Option Json → Fields → Fields
add_field name none rest = rest
add_field name (some value) rest = field name value rest

abbrev pub add_text : Text → Option Text → Fields → Fields
add_text name none rest = rest
add_text name (some text) rest = field name (string text) rest

pub data SessionMode : Type 0 where
  self_custody linked wallet_free ed25519 ed25519_linked smartwallet : SessionMode

abbrev pub mode_text : SessionMode → Text
mode_text self_custody = codes "self-custody"
mode_text linked = codes "linked"
mode_text wallet_free = codes "wallet-free"
mode_text ed25519 = codes "ed25519"
mode_text ed25519_linked = codes "ed25519-linked"
mode_text smartwallet = codes "smartwallet"

pub record Disclosures : Type 0 where
  pub minimum_age : Option ℕ
  pub ofac : Option Bool
  pub nationality : Option Bool

abbrev number_field : Option ℕ → Option Json
number_field none = none
number_field (some n) = some (number (pos n))

abbrev boolean_field : Option Bool → Option Json
boolean_field none = none
boolean_field (some b) = some (boolean b)

abbrev pub disclosures_json : Option Disclosures → Option Json
disclosures_json none = none
disclosures_json (some d) = some (
    object (
      add_field (codes "minimumAge") (number_field d.minimum_age) (
        add_field (codes "ofac") (boolean_field d.ofac)
          (add_field (codes "nationality") (boolean_field d.nationality) no_more))))

pub record RegistrationRequest : Type 0 where
  pub mode : SessionMode
  pub network : Option NetworkName
  pub disclosures : Option Disclosures
  pub human_address : Option Text
  pub agent_name : Option Text
  pub agent_description : Option Text
  pub api_base : Option Text

pub record ProofRefreshRequest : Type 0 where
  pub agent_id : ℕ
  pub network : Option NetworkName
  pub disclosures : Option Disclosures
  pub api_base : Option Text

pub record DeregistrationRequest : Type 0 where
  pub network : Option NetworkName
  pub agent_address : Text
  pub disclosures : Option Disclosures
  pub api_base : Option Text

module _ {S : Type 0} (host : Host S) where
  unfoldable pub api_fetch : Text → RequestInit → S → Result Json × S
  unfolding error_message
  api_fetch url init s = let (answer, after) = host.fetch url init s in (read_answer answer, after)

  abbrev pub base_of : Option Text → Text
  base_of api_base = resolve_api_base host.env_api_base api_base

  abbrev pub network_field : Option NetworkName → Json
  network_field network = string (network_text (get_or_else network mainnet))
