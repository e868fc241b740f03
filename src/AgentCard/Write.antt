-- ===== src/AgentCard/Write.antt =====
-- app/lib/writeAgentCard.ts: the card of an agent, written to the registry. A rejected call is `none`.
use self_agent_id.Base.{
  ℕ, Bool, Option, none, some, List, [], ◌∷◌, ◌++◌, Text, codes, eq_text, is_empty, if◌then◌else◌,
  get_or_else, print_nat, ◌>>=◌, ◌||◌,
}
use self_agent_id.Verifier.Auth.{truthy, zero_address}
use self_agent_id.Registry.{RawCredentials}
use self_agent_id.AgentCard.{
  CardCredentials, Erc8004Service, Erc8004AgentDocument, registration_type, get_provider_label,
}
use self_agent_id.AgentCard.Build.{trust_model, card_credentials, map_option}
use self_agent_id.AgentCard.Generate.{default_interface, no_capabilities}

-- The contracts and the chain that the signer is connected to.
pub record CardChain : Type 0 where
  pub agent_proof_provider : ℕ → Option Text
  pub verification_strength : Text → Option ℕ
  pub provider_name : Text → Option Text
  pub get_agent_credentials : ℕ → Option RawCredentials
  pub network_chain_id : Option ℕ
  -- `updateAgentMetadata`, with the wait for its transaction.
  pub update_agent_metadata : ℕ → Text → Option (Unit {0})

pub record WriteOptions : Type 0 where
  pub name : Option Text
  pub description : Option Text
  pub image : Option Text
  pub a2a_url : Option Text
  pub version : Option Text

pub record WriteAgentCardResult : Type 0 where
  pub card_json : Text
  pub verification_strength : Option ℕ

-- What is known of the proof's provider.
pub record ProviderReading : Type 0 where
  pub strength : Option ℕ
  pub address : Text
  pub name : Text

abbrev unknown_provider : Text → ProviderReading
unknown_provider address = record { strength = none; address = address; name = codes "unknown" }

-- Both calls have to succeed.
abbrev reading_of : Text → Option ℕ → Option Text → ProviderReading
reading_of address (some strength) (some name) = record {
  strength = some strength;
  address = address;
  name = name;
}
reading_of address _ _ = unknown_provider address

unfoldable pub read_provider : CardChain → ℕ → ProviderReading
unfolding eq_text
read_provider chain agent_id = elim (chain.agent_proof_provider agent_id) [
  | none ↦ unknown_provider zero_address
  | some address ↦
      if is_empty address || eq_text address zero_address
      then unknown_provider address
      else reading_of address (chain.verification_strength address) (chain.provider_name address)
]

abbrev first_of : Option (List Bool) → Option Bool
first_of none = none
first_of (some []) = none
first_of (some (b ∷ rest)) = some b

-- Here `ofacClean` says false where the first list was not screened.
written_credentials : RawCredentials → CardCredentials
unfolding card_credentials
written_credentials credentials = record (card_credentials credentials) {
  ofac_clean = first_of credentials.ofac;
}

-- The services and the interface of an agent with an A2A address.
abbrev written_services : Option Text → Option Text → List Erc8004Service
written_services none version = []
written_services (some url) version =
    record {
      name = codes "A2A";
      endpoint = url;
      version = some (get_or_else version (codes "0.3.0"));
    }
    ∷ []

abbrev only_with {ℓ κ} : {A : Type ℓ} {B : Type κ} → Option A → Option B → Option B
only_with none b = none
only_with (some a) b = b

unfoldable pub agent_card : ℕ → Text → ℕ → CardChain → WriteOptions → Erc8004AgentDocument
unfolding read_provider get_provider_label trust_model written_credentials print_nat
agent_card agent_id registry_address configured_chain_id chain options =
    let reading = read_provider chain agent_id in
    let credentials = chain.get_agent_credentials agent_id in
    let strength = get_or_else reading.strength 100 in
    let a2a_url = truthy options.a2a_url in
    let image = get_or_else options.image [] in
    record {
      type = registration_type;
      name = get_or_else options.name (codes "Agent #" ++ print_nat agent_id);
      description =
          get_or_else options.description (codes "Human-verified AI agent on Self Protocol");
      image = image;
      services = written_services a2a_url options.version;
      active = none;
      registrations = none;
      supported_trust = none;
      version = only_with a2a_url options.version;
      url = a2a_url;
      provider = none;
      capabilities = only_with a2a_url (some no_capabilities);
      security_schemes = none;
      security = none;
      default_input_modes = none;
      default_output_modes = none;
      supported_interfaces = map_option (λ url. default_interface url ∷ []) a2a_url;
      icon_url = only_with a2a_url (truthy (some image));
      documentation_url = none;
      signatures = none;
      extensions = none;
      self_protocol = some (record {
        agent_id = agent_id;
        registry = registry_address;
        chain_id = get_or_else chain.network_chain_id configured_chain_id;
        proof_provider = reading.address;
        provider_name = reading.name;
        verification_strength = strength;
        trust_model = trust_model (get_provider_label strength) credentials;
        credentials = map_option written_credentials credentials;
      });
      skills = none;
    }

-- `pretty` and `compact` are the two forms of `JSON.stringify`; the compact one is written.
unfoldable pub write_agent_card :
    (pretty compact : Erc8004AgentDocument → Text)
    → ℕ
    → Text
    → ℕ
    → CardChain
    → WriteOptions
    → Option WriteAgentCardResult
unfolding agent_card
write_agent_card pretty compact agent_id registry_address configured_chain_id chain options = do
  let card = agent_card agent_id registry_address configured_chain_id chain options
  done ← chain.update_agent_metadata agent_id (compact card)
  some (record {
    card_json = pretty card;
    verification_strength = (read_provider chain agent_id).strength;
  })
