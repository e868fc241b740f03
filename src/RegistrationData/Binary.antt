-- ===== src/RegistrationData/Binary.antt =====
-- typescript-sdk/src/registration.ts: the binary encodings of the same data.
use self_agent_id.Base.{ℕ, Option, some, List, [], ◌∷◌, ◌++◌, Text, get_or_else, ◌>>=◌}
use self_agent_id.RegistrationData.{
  Ethers, RegistrationDisclosures, RegistrationSignatureParts, SignatureInput, Action,
  register_advanced, deregister_advanced, register_wallet_free, action_byte, zero_address,
  to_config_index, assert_config_index, number_to_one_byte, signature_parts, bytes32,
}

module _ (ethers : Ethers) where
  -- The action and the index, one byte each.
  unfoldable pub head_bytes : Action → RegistrationDisclosures → Option (List (List ℕ))
  unfolding to_config_index assert_config_index number_to_one_byte
  head_bytes action disclosures = do
    idx ← assert_config_index (to_config_index disclosures)
    first ← number_to_one_byte (action_byte action)
    second ← number_to_one_byte idx
    some (first ∷ second ∷ [])

  unfoldable pub address_bytes : Text → Option (List ℕ)
  address_bytes address = do normal ← ethers.get_address address; ethers.get_bytes normal

  unfoldable pub signature_bytes : RegistrationSignatureParts → Option (List (List ℕ))
  unfolding bytes32 number_to_one_byte
  signature_bytes sig = do
    r ← bytes32 ethers sig.r
    s ← bytes32 ethers sig.s
    v ← number_to_one_byte sig.v
    some (r ∷ s ∷ v ∷ [])

  unfoldable pub simple_binary : Action → RegistrationDisclosures → Option Text
  unfolding head_bytes
  simple_binary action disclosures = do
    head ← head_bytes action disclosures
    some (ethers.concat head)

  unfoldable pub build_advanced_register_user_data_binary :
      Text → SignatureInput → RegistrationDisclosures → Option Text
  unfolding head_bytes signature_parts address_bytes signature_bytes
  build_advanced_register_user_data_binary agent_address signature disclosures = do
    head ← head_bytes register_advanced disclosures
    sig ← signature_parts ethers signature
    agent ← address_bytes agent_address
    tail ← signature_bytes sig
    some (ethers.concat (head ++ (agent ∷ tail)))

  unfoldable pub build_advanced_deregister_user_data_binary :
      Text → RegistrationDisclosures → Option Text
  unfolding head_bytes address_bytes
  build_advanced_deregister_user_data_binary agent_address disclosures = do
    head ← head_bytes deregister_advanced disclosures
    agent ← address_bytes agent_address
    some (ethers.concat (head ++ (agent ∷ [])))

  -- Here a guardian that is empty is an address that `getAddress` refuses.
  unfoldable pub build_wallet_free_register_user_data_binary :
      Text → (guardian : Option Text) → SignatureInput → RegistrationDisclosures → Option Text
  unfolding head_bytes signature_parts address_bytes signature_bytes
  build_wallet_free_register_user_data_binary agent_address guardian_address signature disclosures =
      do
        head ← head_bytes register_wallet_free disclosures
        sig ← signature_parts ethers signature
        guardian ← address_bytes (get_or_else guardian_address zero_address)
        agent ← address_bytes agent_address
        tail ← signature_bytes sig
        some (ethers.concat (head ++ (agent ∷ guardian ∷ tail)))
