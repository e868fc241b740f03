-- ===== src/AgentCard/Build.antt =====
-- typescript-sdk/src/agentCard.ts: buildAgentCard. A rejected call is `none`.
use self_agent_id.Base.{
  ℕ, Bool, true, false, Option, none, some, List, [], ◌∷◌, Text, codes, ltb, if◌then◌else◌,
  get_or_else, head_or, ◌>>=◌,
}
use self_agent_id.Verifier.Auth.{truthy}
use self_agent_id.Registry.{RawCredentials}
use self_agent_id.AgentCard.{
  AgentSkill, TrustModel, CardCredentials, AgentInterface, A2aCapabilities, A2aProvider,
  SecuritySchemes, SecurityRequirement, JwsSignature, AgentExtension, Erc8004Service,
  Erc8004AgentDocument, registration_type, get_provider_label,
}

-- The contracts that the card is read from. A registry without a provider has no chain.
pub record CardContracts : Type 0 where
  pub provider_name : Option Text
  pub verification_strength : Option ℕ
  pub provider_address : Option Text
  pub get_agent_credentials : ℕ → Option RawCredentials
  pub registry_address : Option Text
  pub chain_id : Option ℕ

-- What the caller supplies.
pub record UserFields : Type 0 where
  pub name : Text
  pub description : Option Text
  pub image : Option Text
  pub url : Option Text
  pub services : Option (List Erc8004Service)
  pub skills : Option (List AgentSkill)
  pub version : Option Text
  pub agent_provider : Option A2aProvider
  pub capabilities : Option A2aCapabilities
  pub security_schemes : Option SecuritySchemes
  pub security : Option (List SecurityRequirement)
  pub supported_interfaces : Option (List AgentInterface)
  pub icon_url : Option Text
  pub documentation_url : Option Text
  pub signatures : Option (List JwsSignature)
  pub extensions : Option (List AgentExtension)

abbrev pub true_or_undefined : Bool → Option Bool
true_or_undefined true = some true
true_or_undefined false = none

abbrev pub not_zero : ℕ → Option ℕ
not_zero n = if ltb 0 n then some n else none

abbrev pub is_full {ℓ} : {A : Type ℓ} → List A → Bool
is_full [] = false
is_full (x ∷ xs) = true

-- The trust model that the credentials, where there are some, complete.
unfoldable pub trust_model : Text → Option RawCredentials → TrustModel
trust_model proof_type none = record {
  proof_type = proof_type;
  sybil_resistant = true;
  ofac_screened = false;
  minimum_age_verified = 0;
}
trust_model proof_type (some credentials) = record {
  proof_type = proof_type;
  sybil_resistant = true;
  ofac_screened = head_or false (get_or_else credentials.ofac []);
  minimum_age_verified = get_or_else credentials.older_than 0;
}

unfoldable pub card_credentials : RawCredentials → CardCredentials
card_credentials credentials = record {
  nationality = truthy credentials.nationality;
  issuing_state = truthy credentials.issuing_state;
  older_than = not_zero (get_or_else credentials.older_than 0);
  ofac_clean = true_or_undefined (head_or false (get_or_else credentials.ofac []));
  has_name = true_or_undefined (is_full (get_or_else credentials.name []));
  has_date_of_birth = true_or_undefined (is_full (get_or_else credentials.date_of_birth []));
  has_gender = true_or_undefined (is_full (get_or_else credentials.gender []));
  document_expiry = truthy credentials.expiry_date;
}

abbrev pub map_option {ℓ κ} : {A : Type ℓ} {B : Type κ} → (A → B) → Option A → Option B
map_option f none = none
map_option f (some a) = some (f a)

-- The services of a card whose caller names none.
abbrev pub default_services : Option Text → List Erc8004Service
default_services none = []
default_services (some url) =
    record { name = codes "A2A"; endpoint = url; version = some (codes "1.0") } ∷ []

unfoldable pub build_agent_card : ℕ → CardContracts → UserFields → Option Erc8004AgentDocument
unfolding get_provider_label trust_model card_credentials
build_agent_card agent_id contracts user = do
  provider_name ← contracts.provider_name
  strength ← contracts.verification_strength
  registry_address ← contracts.registry_address
  proof_provider ← contracts.provider_address
  let credentials = contracts.get_agent_credentials agent_id
  some (record {
    type = registration_type;
    name = user.name;
    description = get_or_else user.description [];
    image = get_or_else user.image [];
    services = get_or_else user.services (default_services (truthy user.url));
    active = none;
    registrations = none;
    supported_trust = none;
    version = user.version;
    url = user.url;
    provider = user.agent_provider;
    capabilities = user.capabilities;
    security_schemes = user.security_schemes;
    security = user.security;
    default_input_modes = none;
    default_output_modes = none;
    supported_interfaces = user.supported_interfaces;
    icon_url = user.icon_url;
    documentation_url = user.documentation_url;
    signatures = user.signatures;
    extensions = user.extensions;
    self_protocol = some (record {
      agent_id = agent_id;
      registry = registry_address;
      chain_id = get_or_else contracts.chain_id 0;
      proof_provider = proof_provider;
      provider_name = provider_name;
      verification_strength = strength;
      trust_model = trust_model (get_provider_label strength) credentials;
      credentials = map_option card_credentials credentials;
    });
    skills = user.skills;
  })
