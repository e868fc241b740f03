-- ===== src/RegistrationData/Examples.antt =====
-- Tests of the registration data, and its theorem at a concrete registration.
use self_agent_id.Base.{
  ◌≡◌, refl, true, none, some, [], ◌++◌, Text, codes, arith, length, ◌==◌, if◌then◌else◌, ==_iff,
  print_nat, digits_from, to_lower,
}
use self_agent_id.RegistrationData.{
  Ethers, RegistrationDisclosures, whole, twenty_one, zeros, register, simple_ascii,
  to_config_index, config_digit, signature_parts, address_hex, normalize_v, hex_byte,
  build_wallet_free_register_user_data_ascii, build_advanced_register_user_data_ascii,
}
use self_agent_id.RegistrationData.WalletFree.{
  IsSized, IsWalletFreeData, wallet_free-IsWalletFreeData,
}

program : Unit {0}
unfolding to_config_index config_digit signature_parts address_hex normalize_v hex_byte print_nat
    digits_from to_lower simple_ascii build_wallet_free_register_user_data_ascii
    build_advanced_register_user_data_ascii
program = tt

abbrev ethers : Ethers
ethers = record {
  get_address = λ a. if length a == 42 then some a else none;
  signature_from =
      λ s. some (record { r = codes "0x" ++ zeros 64; s = codes "0x" ++ zeros 64; v = 1 });
  get_bytes = λ s. some s;
  concat = λ bytes. [];
  solidity_packed = λ prefix human chain_id registry nonce. prefix;
  keccak256 = λ bytes. bytes;
  wallet_address = λ key. some key;
  sign_message = λ key bytes. some bytes;
}

ethers-IsSized : IsSized ethers
ethers-IsSized = record {
  addresses = λ a normal h. ground (arith, ==_iff (length a) 42);
  signatures = λ s sig h. ground arith;
}

abbrev adult : RegistrationDisclosures
adult = record { minimum_age = some twenty_one; ofac = some true }

digit : simple_ascii register adult ≡ some (codes "R5")
unfolding program
digit = refl

abbrev agent : Text
agent = codes "0x00000000000000000000000000000000000000AB"

abbrev text : Text
text =
    codes "W5"
    ++ (codes "00000000000000000000000000000000000000ab"
        ++ (zeros 40 ++ (zeros 64 ++ (zeros 64 ++ codes "1c"))))

built : build_wallet_free_register_user_data_ascii ethers agent none (whole []) adult ≡ some text
unfolding program
built = refl

short_address :
    build_advanced_register_user_data_ascii ethers (codes "0xab") (whole []) adult ≡ none
unfolding program
short_address = refl

wallet_free-IsWalletFreeData_example : IsWalletFreeData ethers agent [] none adult text
wallet_free-IsWalletFreeData_example =
    wallet_free-IsWalletFreeData ethers ethers-IsSized agent [] text none adult built
