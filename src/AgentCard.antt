-- ===== src/AgentCard.antt =====
-- typescript-sdk/src/agentCard.ts: the types of the agent documents, the labels of a proof's strength
-- and the slugs of skills.
pub mod Build
pub mod Generate
pub mod Write
pub mod Slugs
pub mod Complete
mod Examples
use self_agent_id.Base.{
  ℕ, ◌≡◌, Bool, true, false, not, Option, none, some, List, [], ◌∷◌, ◌++◌, Text, codes, leb, ◌==◌,
  ◌||◌, if◌then◌else◌, is_lower, is_digit, to_lower,
}
use self_agent_id.A2aTypes.{Fields}

pub record AgentSkill : Type 0 where
  pub id : Text
  pub name : Text
  pub description : Option Text
  pub tags : Option (List Text)
  pub examples : Option (List Text)
  pub input_modes : Option (List Text)
  pub output_modes : Option (List Text)

pub record TrustModel : Type 0 where
  pub proof_type : Text
  pub sybil_resistant : Bool
  pub ofac_screened : Bool
  pub minimum_age_verified : ℕ

pub record CardCredentials : Type 0 where
  pub nationality : Option Text
  pub issuing_state : Option Text
  pub older_than : Option ℕ
  pub ofac_clean : Option Bool
  pub has_name : Option Bool
  pub has_date_of_birth : Option Bool
  pub has_gender : Option Bool
  pub document_expiry : Option Text

pub record SelfProtocolExtension : Type 0 where
  pub agent_id : ℕ
  pub registry : Text
  pub chain_id : ℕ
  pub proof_provider : Text
  pub provider_name : Text
  pub verification_strength : ℕ
  pub trust_model : TrustModel
  pub credentials : Option CardCredentials

pub data ProtocolBinding : Type 0 where
  jsonrpc grpc http_json : ProtocolBinding

pub record AgentInterface : Type 0 where
  pub url : Text
  pub protocol_binding : ProtocolBinding
  pub protocol_version : Text

pub record A2aCapabilities : Type 0 where
  pub streaming : Bool
  pub push_notifications : Bool
  pub state_transition_history : Option Bool
  pub extended_agent_card : Option Bool

pub record A2aProvider : Type 0 where
  pub name : Text
  pub url : Option Text
  pub email : Option Text

pub data KeyPlace : Type 0 where
  in_header in_query in_cookie : KeyPlace

-- Each with its description last.
pub data SecurityScheme : Type 0 where
  api_key : (name : Text) → KeyPlace → Option Text → SecurityScheme
  http : (scheme : Text) → (bearer_format : Option Text) → Option Text → SecurityScheme
  oauth2 : (flows : Fields) → Option Text → SecurityScheme
  open_id_connect : (url : Text) → Option Text → SecurityScheme

abbrev pub SecuritySchemes : Type 0
SecuritySchemes = List (Text × SecurityScheme)

-- The scopes of each scheme.
abbrev pub SecurityRequirement : Type 0
SecurityRequirement = List (Text × List Text)

pub record JwsSignature : Type 0 where
  pub protected_header : Text
  pub signature : Text
  pub header : Option Fields

pub record AgentExtension : Type 0 where
  pub uri : Text
  pub rest : Fields

pub record Erc8004Service : Type 0 where
  pub name : Text
  pub endpoint : Text
  pub version : Option Text

pub record Erc8004Registration : Type 0 where
  pub agent_id : ℕ
  pub agent_registry : Text

pub data SupportedTrust : Type 0 where
  reputation crypto_economic tee_attestation : SupportedTrust

pub record Erc8004AgentDocument : Type 0 where
  pub type : Text
  pub name : Text
  pub description : Text
  pub image : Text
  pub services : List Erc8004Service
  pub active : Option Bool
  pub registrations : Option (List Erc8004Registration)
  pub supported_trust : Option (List SupportedTrust)
  pub version : Option Text
  pub url : Option Text
  pub provider : Option A2aProvider
  pub capabilities : Option A2aCapabilities
  pub security_schemes : Option SecuritySchemes
  pub security : Option (List SecurityRequirement)
  pub default_input_modes : Option (List Text)
  pub default_output_modes : Option (List Text)
  pub supported_interfaces : Option (List AgentInterface)
  pub icon_url : Option Text
  pub documentation_url : Option Text
  pub signatures : Option (List JwsSignature)
  pub extensions : Option (List AgentExtension)
  pub self_protocol : Option SelfProtocolExtension
  pub skills : Option (List AgentSkill)

abbrev pub registration_type : Text
registration_type = codes "https://eips.ethereum.org/EIPS/eip-8004#registration-v1"

unfoldable pub get_provider_label : ℕ → Text
get_provider_label strength =
    if leb 100 strength
    then codes "passport"
    else (if leb 80 strength
        then codes "kyc"
        else (if leb 60 strength
            then codes "govt_id"
            else (if leb 40 strength then codes "liveness" else codes "unknown")))

pub data StrengthColor : Type 0 where
  green blue amber gray : StrengthColor

unfoldable pub get_strength_color : ℕ → StrengthColor
get_strength_color strength =
    if leb 80 strength
    then green
    else (if leb 60 strength then blue else (if leb 40 strength then amber else gray))

-- `[a-z0-9]`
abbrev pub is_slug_code : ℕ → Bool
is_slug_code c = is_lower c || is_digit c

-- `.replace(/[^a-z0-9]+/g, "-")`; the flag is set within a run.
unfoldable pub hyphenate : Bool → Text → Text
hyphenate in_run [] = []
hyphenate in_run (c ∷ s) = elim (is_slug_code c) [
  | true ↦ c ∷ hyphenate false s
  | false ↦ elim in_run [ true ↦ hyphenate true s | false ↦ b'-' ∷ hyphenate true s ]
]

abbrev pub strip_first : Text → Text
strip_first [] = []
strip_first (c ∷ s) = if c == b'-' then s else c ∷ s

abbrev pub strip_last : Text → Text
strip_last [] = []
strip_last (c ∷ []) = if c == b'-' then [] else c ∷ []
strip_last (c ∷ d ∷ s) = c ∷ strip_last (d ∷ s)

unfoldable pub slugify : Text → Text
unfolding hyphenate to_lower
slugify s = strip_last (strip_first (hyphenate false (to_lower s)))
