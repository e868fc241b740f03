-- ===== src/RegistrationData/WalletFree.antt =====
-- The data of a registration without a wallet, read back at fixed offsets.
use mathlib.Core.Path.{subst}
use self_agent_id.Base.{
  suc, ℕ, zero, suc, ◌+◌, ◌≡◌, refl, ap, sym, ◌∙◌, inl, inr, ◌⊎◌, Option, none, some, [], ◌∷◌, ◌++◌,
  Text, length, arith, Option-cases,
}
use self_agent_id.RegistrationData.{
  with_normal_v, whole, Ethers, RegistrationDisclosures, RegistrationSignatureParts,
  to_config_index, signature_parts, address_hex, guardian_hex, hex_part, hex_byte, signature_text,
  normalize_v, zeros, build_wallet_free_register_user_data_ascii,
}
use self_agent_id.RegistrationData.Layout.{
  slice, length-hex_part, config_digit_lem, joined_total, joined_agent, joined_guardian, joined_r,
  joined_s, joined_v,
}

-- What ethers returns: an address with its prefix has 42 characters, a part of a signature 66.
pub record IsSized (ethers : Ethers) : Type 0 where
  pub addresses :
      (address normal : Text) → ethers.get_address address ≡ some normal → length normal ≡ 42
  pub signatures :
      (signature : Text) (sig : RegistrationSignatureParts)
      → ethers.signature_from signature ≡ some sig
      → (length sig.r ≡ 66) × (length sig.s ≡ 66)

abbrev pub IsNormalV : ℕ → Type 0
IsNormalV v = (v ≡ 27) ⊎ (v ≡ 28)

normalize_v-IsNormalV : (v n : ℕ) → normalize_v v ≡ some n → IsNormalV n
unfolding normalize_v
normalize_v-IsNormalV v n h = ground arith

-- The fields of the data of a registration without a wallet.
pub record IsWalletFreeData (ethers : Ethers) (agent_address signature : Text)
    (guardian_address : Option Text) (disclosures : RegistrationDisclosures) (text : Text)
    : Type 0 where
  pub total : length text ≡ 212
  pub head : slice 0 2 text ≡ b'W' ∷ (b'0' + to_config_index disclosures) ∷ []
  pub agent : address_hex ethers agent_address ≡ some (slice 2 40 text)
  pub guardian : guardian_hex ethers guardian_address ≡ some (slice 42 40 text)
  pub sig : RegistrationSignatureParts
  pub signed : signature_parts ethers (whole signature) ≡ some sig
  pub r_part : slice 82 64 text ≡ hex_part sig.r
  pub s_part : slice 146 64 text ≡ hex_part sig.s
  pub v_part : slice 210 2 text ≡ hex_byte sig.v
  pub normal_v : IsNormalV sig.v

length-zeros : (n : ℕ) → length (zeros n) ≡ n
length-zeros zero = refl
length-zeros (suc n) = ap suc (length-zeros n)

module _ (ethers : Ethers) (sized : IsSized ethers) where
  length-address_hex :
      (address hex : Text) → address_hex ethers address ≡ some hex → length hex ≡ 40
  unfolding address_hex
  length-address_hex address hex h = elim (Option-cases (ethers.get_address address)) [
    | inl e ↦ absurd (ground arith)
    | inr (normal, e) ↦
        let same : hex_part normal ≡ hex = ground arith in
        subst (λ t. length t ≡ 40) same
          (length-hex_part 40 normal (sized.addresses address normal e))
  ]

  length-guardian_hex :
      (address : Option Text) (hex : Text)
      → guardian_hex ethers address ≡ some hex
      → length hex ≡ 40
  length-guardian_hex none hex h =
      subst (λ t. length t ≡ 40) {x = zeros 40} (ground arith) (length-zeros 40)
  length-guardian_hex (some []) hex h =
      subst (λ t. length t ≡ 40) {x = zeros 40} (ground arith) (length-zeros 40)
  length-guardian_hex (some (c ∷ address)) hex h = length-address_hex (c ∷ address) hex h

  signature_parts_lem :
      (signature : Text) (sig : RegistrationSignatureParts)
      → signature_parts ethers (whole signature) ≡ some sig
      → (length (hex_part sig.r) ≡ 64) × (length (hex_part sig.s) ≡ 64) × IsNormalV sig.v
  unfolding signature_parts with_normal_v
  signature_parts_lem signature sig h = elim (Option-cases (ethers.signature_from signature)) [
    | inl e ↦ absurd (ground arith)
    | inr (read, e) ↦ elim (Option-cases (normalize_v read.v)) [
      | inl f ↦ absurd (ground arith)
      | inr (v, f) ↦
          let (r, s) = sized.signatures signature read e in
          let same : record { r = read.r; s = read.s; v = v } ≡ sig = ground arith in
          subst (λ t. (length (hex_part t.r) ≡ 64) × (length (hex_part t.s) ≡ 64) × IsNormalV t.v)
            same
            (
              length-hex_part 64 read.r r,
              length-hex_part 64 read.s s,
              normalize_v-IsNormalV read.v v f,
            )
    ]
  ]

  fields :
      (agent_address signature : Text) (guardian_address : Option Text)
      (disclosures : RegistrationDisclosures) (sig : RegistrationSignatureParts) (a g : Text)
      → address_hex ethers agent_address ≡ some a
      → guardian_hex ethers guardian_address ≡ some g
      → signature_parts ethers (whole signature) ≡ some sig
      → IsWalletFreeData ethers agent_address signature guardian_address disclosures
          (b'W' ∷ (b'0' + to_config_index disclosures) ∷ (a ++ (g ++ signature_text sig)))
  unfolding hex_byte
  fields agent_address signature guardian_address disclosures sig a g addressed guarded signed =
      let digit = b'0' + to_config_index disclosures in
      let r = hex_part sig.r in
      let s = hex_part sig.s in
      let v = hex_byte sig.v in
      let la = length-address_hex agent_address a addressed in
      let lg = length-guardian_hex guardian_address g guarded in
      let (lr, ls, normal) = signature_parts_lem signature sig signed in
      record {
        total = joined_total b'W' digit a g r s v la lg lr ls refl;
        head = refl;
        agent = addressed ∙ ap some (sym (joined_agent b'W' digit a g r s v la lg lr ls refl));
        guardian = guarded ∙ ap some (sym (joined_guardian b'W' digit a g r s v la lg lr ls refl));
        sig = sig;
        signed = signed;
        r_part = joined_r b'W' digit a g r s v la lg lr ls refl;
        s_part = joined_s b'W' digit a g r s v la lg lr ls refl;
        v_part = joined_v b'W' digit a g r s v la lg lr ls refl;
        normal_v = normal;
      }

  -- The ASCII data of a registration without a wallet has 212 characters, each field at a fixed offset:
  -- the action `W` and the digit of the disclosures at 0, the agent's address in hex at 2, the guardian's
  -- or forty zeros at 42, the parts r and s of the signature at 82 and 146, and v, which is 27 or 28, at
  -- 210, where the addresses that ethers returns have 42 characters and the parts of a signature 66.
  pub wallet_free-IsWalletFreeData :
      (agent_address signature text : Text) (guardian_address : Option Text)
      (disclosures : RegistrationDisclosures)
      → build_wallet_free_register_user_data_ascii ethers agent_address guardian_address
          (whole signature)
          disclosures
        ≡ some text
      → IsWalletFreeData ethers agent_address signature guardian_address disclosures text
  unfolding build_wallet_free_register_user_data_ascii
  wallet_free-IsWalletFreeData agent_address signature text guardian_address disclosures h =
      let digit = b'0' + to_config_index disclosures in
      elim (Option-cases (guardian_hex ethers guardian_address)) [
        | inl e ↦ absurd (ground (arith, config_digit_lem disclosures))
        | inr (g, guarded) ↦ elim (Option-cases (signature_parts ethers (whole signature))) [
          | inl e ↦ absurd (ground (arith, config_digit_lem disclosures))
          | inr (sig, signed) ↦ elim (Option-cases (address_hex ethers agent_address)) [
            | inl e ↦ absurd (ground (arith, config_digit_lem disclosures))
            | inr (a, addressed) ↦
                let joined : b'W' ∷ digit ∷ (a ++ (g ++ signature_text sig)) ≡ text =
                  ground (arith, config_digit_lem disclosures) in
                subst (IsWalletFreeData ethers agent_address signature guardian_address disclosures)
                  joined
                  (fields agent_address signature guardian_address disclosures sig a g addressed
                    guarded signed)
          ]
        ]
      ]
