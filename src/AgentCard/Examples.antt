-- ===== src/AgentCard/Examples.antt =====
-- Tests of the agent cards, and their theorems at concrete options.
use self_agent_id.Base.{
  ◌≡◌, refl, Option, none, some, [], ◌∷◌, Text, codes, eq_text, to_lower, print_nat, digits_from,
}
use self_agent_id.AgentCard.{
  SelfProtocolExtension, slugify, hyphenate, get_provider_label, get_strength_color, blue,
}
use self_agent_id.AgentCard.Build.{trust_model, card_credentials}
use self_agent_id.AgentCard.Generate.{
  A2aOptions, GenerateRegistrationJsonOptions, generate_registration_json, with_a2a_service,
  with_id, is_a2a,
}
use self_agent_id.AgentCard.Write.{CardChain, WriteOptions, agent_card, read_provider}

program : Unit {0}
unfolding slugify hyphenate to_lower eq_text get_provider_label get_strength_color trust_model
    card_credentials generate_registration_json with_a2a_service with_id is_a2a read_provider
    agent_card print_nat digits_from
program = tt

slug : slugify (codes "--My  First Skill!") ≡ codes "my-first-skill"
unfolding program
slug = refl

color : get_strength_color 79 ≡ blue
unfolding program
color = refl

-- Of an agent whose provider cannot be read, the card that is written says the strongest proof.
abbrev unread : CardChain
unread = record {
  agent_proof_provider = λ id. none;
  verification_strength = λ address. none;
  provider_name = λ address. none;
  get_agent_credentials = λ id. none;
  network_chain_id = none;
  update_agent_metadata = λ id text. some tt;
}

abbrev no_options : WriteOptions
no_options = record {
  name = none;
  description = none;
  image = none;
  a2a_url = none;
  version = none;
}

abbrev strength_of : Option SelfProtocolExtension → Option Text
strength_of none = none
strength_of (some extension) = some extension.trust_model.proof_type

strongest_proof :
    strength_of (agent_card 7 (codes "0xr") 42220 unread no_options).self_protocol
    ≡ some (codes "passport")
unfolding program
strongest_proof = refl

abbrev a2a : A2aOptions
a2a = record {
  version = codes "1";
  url = codes "http://a";
  provider = record { name = codes "p"; url = none; email = none };
  capabilities = none;
  security_schemes = none;
  security = none;
  default_input_modes = none;
  default_output_modes = none;
  skills = some (
      record {
        id = [];
        name = codes "First Skill";
        description = none;
        tags = none;
        examples = none;
        input_modes = none;
        output_modes = none;
      }
      ∷ []);
  supported_interfaces = none;
  icon_url = none;
  documentation_url = none;
  signatures = none;
  extensions = none;
}

abbrev options : GenerateRegistrationJsonOptions
options = record {
  name = codes "n";
  description = [];
  image = [];
  services = record { name = codes "web"; endpoint = codes "http://w"; version = none } ∷ [];
  active = none;
  registrations = none;
  supported_trust = none;
  a2a = some a2a;
}
