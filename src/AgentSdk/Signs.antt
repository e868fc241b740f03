-- ===== src/AgentSdk/Signs.antt =====
-- A request that an agent signs against the verifier.
use self_agent_id.Base.{
  inr, inl, ℕ, ◌≤◌, ◌≡◌, refl, sym, false, Option, some, List, [], ◌∷◌, Text, arith, Option-cases,
  get, eq_text, print_nat, le→ltb,
}
use mathlib.Core.Path.{subst}
use self_agent_id.Base.Int.{ℤ, pos, abs_diff}
use self_agent_id.Signing.{Ethers, compute_signing_message, signing_text, parse_int}
use self_agent_id.Signing.Canonical.{HasRootedPaths, IsHttpUrl, canonicalize_idempotent}
use self_agent_id.Signing.Timestamp.{parse_int-print_nat}
use self_agent_id.Verifier.Auth.{
  World, VerifyParams, signed, authenticate, authenticate_secp256k1, message_for, recover,
  is_ed25519,
}
use self_agent_id.Middleware.{signature_header, timestamp_header}
use self_agent_id.AgentSdk.{
  Wallet, SelfAgent, SelfAgentConfig, new_self_agent, wallet_for, agent_with, sign_request,
  received, address_header, Headers,
}

pub message_received :
    (w : World) (timestamp method url : Text) (body : Option Text) (params : VerifyParams)
    → HasRootedPaths w.parser
    → IsHttpUrl url
    → params.timestamp ≡ timestamp
    → params.method ≡ method
    → params.url ≡ url
    → params.body ≡ body
    → message_for w params ≡ compute_signing_message w.ethers w.parser timestamp method url body
unfolding message_for compute_signing_message signing_text
message_received w timestamp method url body params rooted http e f g h =
    rw (e, f, g, h)
      (rw (compute_signing_message, signing_text, canonicalize_idempotent w.parser url rooted http)
        refl)

agent_key_of :
    (ethers : Ethers) (wallet_of : Text → Option Wallet) (config : SelfAgentConfig)
    (agent : SelfAgent)
    → new_self_agent ethers wallet_of config ≡ some agent
    → agent.agent_key ≡ ethers.zero_pad_value agent.wallet.address 32
unfolding new_self_agent agent_with
agent_key_of ethers wallet_of config agent h = elim (Option-cases (wallet_for wallet_of config)) [
  | inl none_given ↦ absurd (ground arith)
  | inr (wallet, given) ↦
      let e : agent_with ethers config wallet ≡ agent = ground arith in
      subst (λ a. a.agent_key ≡ ethers.zero_pad_value a.wallet.address 32) e refl
]

-- The headers for a message and a signature.
abbrev pub secp256k1_headers : Text → Text → Text → Headers
secp256k1_headers address signature timestamp =
    (address_header, address) ∷ (signature_header, signature) ∷ (timestamp_header, timestamp) ∷ []

sign_request-some :
    (w : World) (now : ℕ) (agent : SelfAgent) (method url : Text) (body : Option Text)
    (headers : Headers)
    → sign_request w.ethers w.parser now agent method url body ≡ some headers
    → (bytes : List ℕ) × (signature : Text) × (w.ethers.get_bytes
          (compute_signing_message w.ethers w.parser (print_nat now) method url body)
        ≡ some bytes)
      × (agent.wallet.sign_message bytes ≡ some signature)
      × (headers ≡ secp256k1_headers agent.wallet.address signature (print_nat now))
unfolding sign_request
sign_request-some w now agent method url body headers h =
    elim (Option-cases (
      w.ethers.get_bytes
        (compute_signing_message w.ethers w.parser (print_nat now) method url body))) [
          | inl failed ↦ absurd (ground arith)
          | inr (bytes, e) ↦ elim (Option-cases (agent.wallet.sign_message bytes)) [
            | inl failed ↦ absurd (ground arith)
            | inr (signature, f) ↦ (bytes, signature, e, f, ground arith)
          ]
        ]

-- What a wallet's signature is for: the signer's address is recovered from it.
abbrev pub IsSigner : Ethers → Wallet → Type 0
IsSigner ethers wallet =
    (bytes : List ℕ) (signature : Text)
    → wallet.sign_message bytes ≡ some signature
    → ethers.verify_message bytes signature ≡ some wallet.address

authenticate_secp256k1-signed :
    (w : World) (max_age : ℕ) (params : VerifyParams) (ts : ℤ) (message address : Text)
    (bytes : List ℕ)
    → parse_int params.timestamp ≡ some ts
    → abs_diff w.clock.fresh ts ≤ max_age
    → is_ed25519 w params.keytype ≡ false
    → message_for w params ≡ message
    → w.ethers.get_bytes message ≡ some bytes
    → w.ethers.verify_message bytes params.signature ≡ some address
    → authenticate w max_age params
      ≡ signed (record {
        address = address;
        key = w.ethers.zero_pad_value address 32;
        message = message;
        ts = ts;
      })
unfolding authenticate authenticate_secp256k1 recover
authenticate_secp256k1-signed w max_age params ts message address bytes parsed fresh secp made read
      recovered =
    rw
      (
        parsed,
        le→ltb max_age (abs_diff w.clock.fresh ts) fresh,
        secp,
        made,
        read,
        recovered,
        authenticate,
        authenticate_secp256k1,
        recover,
      )
      (rw made refl)

authenticate-received :
    (w : World) (now max_age : ℕ) (address signature method url : Text) (body : Option Text)
    (bytes : List ℕ)
    → HasRootedPaths w.parser
    → IsHttpUrl url
    → abs_diff w.clock.fresh (pos now) ≤ max_age
    → w.ethers.get_bytes (compute_signing_message w.ethers w.parser (print_nat now) method url body)
      ≡ some bytes
    → w.ethers.verify_message bytes signature ≡ some address
    → authenticate w max_age
        (received (secp256k1_headers address signature (print_nat now)) method url body)
      ≡ signed (record {
        address = address;
        key = w.ethers.zero_pad_value address 32;
        message = compute_signing_message w.ethers w.parser (print_nat now) method url body;
        ts = pos now;
      })
unfolding received get eq_text
authenticate-received w now max_age address signature method url body bytes rooted http fresh read
      recovered =
    let params = received (secp256k1_headers address signature (print_nat now)) method url body in
    authenticate_secp256k1-signed w max_age params (pos now)
      (compute_signing_message w.ethers w.parser (print_nat now) method url body) address bytes
      (parse_int-print_nat now) fresh refl
      (message_received w (print_nat now) method url body params rooted http refl refl refl refl)
      read recovered

-- The headers of a request that `SelfAgent.signRequest` signs prove the agent to the verifier: within
-- the maximum age, steps 1 to 5 of `verify` take the agent's address and its on-chain key for
-- the signer. The wallet's signatures have to recover its address, and the URL has to begin with
-- `http://`, `https://`, `?` or `/`, or to have no colon: for such URLs the URL parser's paths are
-- taken to be empty or to begin with a slash.
pub authenticate-sign_request :
    (w : World) (wallet_of : Text → Option Wallet) (config : SelfAgentConfig) (agent : SelfAgent)
    (now max_age : ℕ) (method url : Text) (body : Option Text) (headers : Headers)
    → HasRootedPaths w.parser
    → IsHttpUrl url
    → IsSigner w.ethers agent.wallet
    → new_self_agent w.ethers wallet_of config ≡ some agent
    → sign_request w.ethers w.parser now agent method url body ≡ some headers
    → abs_diff w.clock.fresh (pos now) ≤ max_age
    → authenticate w max_age (received headers method url body)
      ≡ signed (record {
        address = agent.wallet.address;
        key = agent.agent_key;
        message = compute_signing_message w.ethers w.parser (print_nat now) method url body;
        ts = pos now;
      })
authenticate-sign_request w wallet_of config agent now max_age method url body headers rooted http
      signer made h fresh =
    let (bytes, signature, read, given, e) =
      sign_request-some w now agent method url body headers h in
    let message = compute_signing_message w.ethers w.parser (print_nat now) method url body in
    let proved =
      authenticate-received w now max_age agent.wallet.address signature method url body bytes
        rooted http fresh read (signer bytes signature given) in
    subst
      (λ hs.
        authenticate w max_age (received hs method url body)
        ≡ signed (record {
          address = agent.wallet.address;
          key = agent.agent_key;
          message = message;
          ts = pos now;
        }))
      (sym e)
      (subst
        (λ k.
          authenticate w max_age (
            received (secp256k1_headers agent.wallet.address signature (print_nat now)) method url
              body)
          ≡ signed
              (record { address = agent.wallet.address; key = k; message = message; ts = pos now }))
        (sym (agent_key_of w.ethers wallet_of config agent made)) proved)
