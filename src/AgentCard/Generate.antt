-- ===== src/AgentCard/Generate.antt =====
-- typescript-sdk/src/agentCard.ts: generateRegistrationJSON.
use self_agent_id.Base.{
  Bool, false, Option, none, some, List, [], ◌∷◌, ◌++◌, map, Text, codes, is_empty, any,
  if◌then◌else◌, get_or_else, eq_text,
}
use self_agent_id.AgentCard.{
  AgentSkill, AgentInterface, jsonrpc, A2aCapabilities, A2aProvider, SecuritySchemes,
  SecurityRequirement, JwsSignature, AgentExtension, Erc8004Service, Erc8004Registration,
  SupportedTrust, Erc8004AgentDocument, registration_type, slugify,
}
use self_agent_id.AgentCard.Build.{map_option}

pub record A2aOptions : Type 0 where
  pub version : Text
  pub url : Text
  pub provider : A2aProvider
  pub capabilities : Option A2aCapabilities
  pub security_schemes : Option SecuritySchemes
  pub security : Option (List SecurityRequirement)
  pub default_input_modes : Option (List Text)
  pub default_output_modes : Option (List Text)
  pub skills : Option (List AgentSkill)
  pub supported_interfaces : Option (List AgentInterface)
  pub icon_url : Option Text
  pub documentation_url : Option Text
  pub signatures : Option (List JwsSignature)
  pub extensions : Option (List AgentExtension)

pub record GenerateRegistrationJsonOptions : Type 0 where
  pub name : Text
  pub description : Text
  pub image : Text
  pub services : List Erc8004Service
  pub active : Option Bool
  pub registrations : Option (List Erc8004Registration)
  pub supported_trust : Option (List SupportedTrust)
  pub a2a : Option A2aOptions

-- A skill whose id is missing or empty gets the slug of its name.
unfoldable pub with_id : AgentSkill → AgentSkill
unfolding slugify
with_id skill = if is_empty skill.id then record skill { id = slugify skill.name } else skill

unfoldable pub is_a2a : Erc8004Service → Bool
is_a2a service = eq_text service.name (codes "A2A")

abbrev pub a2a_service : A2aOptions → Erc8004Service
a2a_service a2a = record { name = codes "A2A"; endpoint = a2a.url; version = some a2a.version }

unfoldable pub with_a2a_service : List Erc8004Service → A2aOptions → List Erc8004Service
unfolding is_a2a
with_a2a_service services a2a =
    if any is_a2a services then services else services ++ (a2a_service a2a ∷ [])

abbrev pub default_interface : Text → AgentInterface
default_interface url = record {
  url = url;
  protocol_binding = jsonrpc;
  protocol_version = codes "0.3.0";
}

abbrev pub no_capabilities : A2aCapabilities
no_capabilities = record {
  streaming = false;
  push_notifications = false;
  state_transition_history = some false;
  extended_agent_card = some false;
}

-- The document without an A2A part.
unfoldable pub plain_document : GenerateRegistrationJsonOptions → Erc8004AgentDocument
plain_document options = record {
  type = registration_type;
  name = options.name;
  description = options.description;
  image = options.image;
  services = options.services;
  active = options.active;
  registrations = options.registrations;
  supported_trust = options.supported_trust;
  version = none;
  url = none;
  provider = none;
  capabilities = none;
  security_schemes = none;
  security = none;
  default_input_modes = none;
  default_output_modes = none;
  supported_interfaces = none;
  icon_url = none;
  documentation_url = none;
  signatures = none;
  extensions = none;
  self_protocol = none;
  skills = none;
}

unfoldable pub a2a_document : GenerateRegistrationJsonOptions → A2aOptions → Erc8004AgentDocument
unfolding plain_document with_id with_a2a_service
a2a_document options a2a = record (plain_document options) {
  services = with_a2a_service options.services a2a;
  version = some a2a.version;
  url = some a2a.url;
  provider = some a2a.provider;
  capabilities = some (get_or_else a2a.capabilities no_capabilities);
  security_schemes = a2a.security_schemes;
  security = a2a.security;
  default_input_modes = a2a.default_input_modes;
  default_output_modes = a2a.default_output_modes;
  supported_interfaces =
      some (get_or_else a2a.supported_interfaces (default_interface a2a.url ∷ []));
  icon_url = some (get_or_else a2a.icon_url options.image);
  documentation_url = a2a.documentation_url;
  signatures = a2a.signatures;
  extensions = a2a.extensions;
  skills = map_option (map with_id) a2a.skills;
}

unfoldable pub generate_registration_json : GenerateRegistrationJsonOptions → Erc8004AgentDocument
unfolding plain_document a2a_document
generate_registration_json options = elim options.a2a [
  | none ↦ plain_document options
  | some a2a ↦ a2a_document options a2a
]
