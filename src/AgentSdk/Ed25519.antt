-- ===== src/AgentSdk/Ed25519.antt =====
-- A request that an Ed25519 agent signs against the verifier.
use self_agent_id.Base.{
  inr, inl, ℕ, ◌≤◌, ◌≡◌, refl, sym, ap, ◌∙◌, true, Option, some, List, [], ◌∷◌, ◌++◌, Text, codes,
  arith, Option-cases, get, eq_text, print_nat, le→ltb,
}
use self_agent_id.Base.Int.{ℤ, pos, abs_diff}
use self_agent_id.Signing.{Ethers, compute_signing_message, parse_int}
use self_agent_id.Signing.Canonical.{HasRootedPaths, IsHttpUrl}
use self_agent_id.Signing.Timestamp.{parse_int-print_nat}
use self_agent_id.Verifier.Auth.{
  World, VerifyParams, signed, authenticate, authenticate_ed25519, message_for, ed25519_valid,
  derive_address, is_ed25519, truthy,
}
use self_agent_id.Middleware.{signature_header, timestamp_header, keytype_header, key_header}
use self_agent_id.AgentSdk.{
  received, Headers, Ed25519Agent, ed25519_agent, ed25519_sign_request, bytes_to_hex,
  derive_key_address,
}
use self_agent_id.AgentSdk.Signs.{message_received}

-- What the Ed25519 functions and the decoding of hex text are for.
pub record IsEd25519Library (ethers : Ethers) (get_public_key : List ℕ → List ℕ)
    (sign : List ℕ → List ℕ → List ℕ) : Type 0 where
  pub key_bytes :
      (key : List ℕ)
      → ethers.get_bytes (codes "0x" ++ bytes_to_hex (get_public_key key))
        ≡ some (get_public_key key)
  pub signature_bytes :
      (bytes key : List ℕ)
      → ethers.get_bytes (codes "0x" ++ bytes_to_hex (sign bytes key)) ≡ some (sign bytes key)
  pub verifies :
      (bytes key : List ℕ)
      → ethers.verify_ed25519 (sign bytes key) bytes (get_public_key key) ≡ some true

-- The headers for a key and a signature.
abbrev pub ed25519_headers : Text → Text → Text → Headers
ed25519_headers key signature timestamp =
    (key_header, key)
    ∷ (keytype_header, codes "ed25519")
    ∷ (signature_header, signature)
    ∷ (timestamp_header, timestamp)
    ∷ []

steps_lem :
    (w : World) (params : VerifyParams) (ts : ℤ) (message key address : Text)
    → truthy params.agent_key ≡ some key
    → ed25519_valid w message params.signature key ≡ some true
    → derive_address w key ≡ some address
    → authenticate_ed25519 w message ts params
      ≡ signed (record { address = address; key = key; message = message; ts = ts })
unfolding authenticate_ed25519
steps_lem w params ts message key address given verified derived =
    rw (given, verified, derived, authenticate_ed25519) refl

authenticate_ed25519-signed :
    (w : World) (max_age : ℕ) (params : VerifyParams) (ts : ℤ) (message key address : Text)
    → parse_int params.timestamp ≡ some ts
    → abs_diff w.clock.fresh ts ≤ max_age
    → is_ed25519 w params.keytype ≡ true
    → message_for w params ≡ message
    → truthy params.agent_key ≡ some key
    → ed25519_valid w message params.signature key ≡ some true
    → derive_address w key ≡ some address
    → authenticate w max_age params
      ≡ signed (record { address = address; key = key; message = message; ts = ts })
unfolding authenticate
authenticate_ed25519-signed w max_age params ts message key address parsed fresh ed made given
      verified derived =
    rw (parsed, le→ltb max_age (abs_diff w.clock.fresh ts) fresh, ed, made, authenticate)
      (steps_lem w params ts message key address given verified derived)

module _ (w : World) (get_public_key : List ℕ → List ℕ) (sign : List ℕ → List ℕ → List ℕ)
    (private_key : List ℕ) (agent : Ed25519Agent) where
  -- What the constructor has computed.
  agent_fields :
      ed25519_agent w.ethers get_public_key private_key ≡ some agent
      → (derive_key_address w.ethers (get_public_key private_key) ≡ some agent.address)
        × (agent.private_key_bytes ≡ private_key)
        × (agent.agent_key ≡ codes "0x" ++ bytes_to_hex (get_public_key private_key))
  unfolding ed25519_agent
  agent_fields h = elim (Option-cases (derive_key_address w.ethers (get_public_key private_key))) [
    | inl failed ↦ absurd (ground arith)
    | inr (address, derived) ↦ (ground arith, ground arith, ground arith)
  ]

  valid_lem :
      (message : Text) (bytes : List ℕ)
      → IsEd25519Library w.ethers get_public_key sign
      → w.ethers.get_bytes message ≡ some bytes
      → ed25519_valid w message
          (codes "0x" ++ bytes_to_hex (sign bytes private_key))
          (codes "0x" ++ bytes_to_hex (get_public_key private_key))
        ≡ some true
  unfolding ed25519_valid
  valid_lem message bytes lib read =
      rw
        (
          read,
          lib.signature_bytes bytes private_key,
          lib.key_bytes private_key,
          lib.verifies bytes private_key,
          ed25519_valid,
        )
        refl

  derive_lem :
      IsEd25519Library w.ethers get_public_key sign
      → (address : Text) → derive_key_address w.ethers (get_public_key private_key) ≡ some address
      → derive_address w (codes "0x" ++ bytes_to_hex (get_public_key private_key)) ≡ some address
  unfolding derive_address derive_key_address
  derive_lem lib address h = rw (lib.key_bytes private_key, derive_address) h

  ed25519_sign_request-some :
      (now : ℕ) (method url : Text) (body : Option Text) (headers : Headers)
      → ed25519_sign_request w.ethers w.parser now sign agent method url body ≡ some headers
      → (bytes : List ℕ) × (w.ethers.get_bytes
            (compute_signing_message w.ethers w.parser (print_nat now) method url body)
          ≡ some bytes)
        × (headers
            ≡ ed25519_headers agent.agent_key
                (codes "0x" ++ bytes_to_hex (sign bytes agent.private_key_bytes))
                (print_nat now))
  unfolding ed25519_sign_request
  ed25519_sign_request-some now method url body headers h =
      elim (Option-cases (
        w.ethers.get_bytes
          (compute_signing_message w.ethers w.parser (print_nat now) method url body))) [
            | inl failed ↦ absurd (ground arith)
            | inr (bytes, e) ↦ (bytes, e, ground arith)
          ]

  received_lem :
      (now max_age : ℕ) (address method url : Text) (body : Option Text) (bytes : List ℕ)
      → HasRootedPaths w.parser
      → IsHttpUrl url
      → IsEd25519Library w.ethers get_public_key sign
      → abs_diff w.clock.fresh (pos now) ≤ max_age
      → w.ethers.get_bytes
          (compute_signing_message w.ethers w.parser (print_nat now) method url body)
        ≡ some bytes
      → derive_key_address w.ethers (get_public_key private_key) ≡ some address
      → authenticate w max_age (
          received
            (ed25519_headers
              (codes "0x" ++ bytes_to_hex (get_public_key private_key))
              (codes "0x" ++ bytes_to_hex (sign bytes private_key))
              (print_nat now))
            method
            url
            body)
        ≡ signed (record {
          address = address;
          key = codes "0x" ++ bytes_to_hex (get_public_key private_key);
          message = compute_signing_message w.ethers w.parser (print_nat now) method url body;
          ts = pos now;
        })
  unfolding received get eq_text
  received_lem now max_age address method url body bytes rooted http lib fresh read derived =
      let key = codes "0x" ++ bytes_to_hex (get_public_key private_key) in
      let params =
        received
          (ed25519_headers key (codes "0x" ++ bytes_to_hex (sign bytes private_key))
            (print_nat now))
          method url body in
      let message = compute_signing_message w.ethers w.parser (print_nat now) method url body in
      authenticate_ed25519-signed w max_age params (pos now) message key address
        (parse_int-print_nat now) fresh refl
        (message_received w (print_nat now) method url body params rooted http refl refl refl refl)
        refl (valid_lem message bytes lib read) (derive_lem lib address derived)

  -- The headers of a request that `Ed25519Agent.signRequest` signs prove the agent to the verifier:
  -- within the maximum age, steps 1 to 5 of `verify` take the agent's derived address and its public
  -- key for the signer. The Ed25519 functions and the decoding of hex text have to be inverse to the
  -- agent's, and the URL has to begin with `http://`, `https://`, `?` or `/`, or to have no colon:
  -- for such URLs the URL parser's paths are taken to be empty or to begin with a slash.
  pub authenticate-ed25519_sign_request :
      (now max_age : ℕ) (method url : Text) (body : Option Text) (headers : Headers)
      → HasRootedPaths w.parser
      → IsHttpUrl url
      → IsEd25519Library w.ethers get_public_key sign
      → ed25519_agent w.ethers get_public_key private_key ≡ some agent
      → ed25519_sign_request w.ethers w.parser now sign agent method url body ≡ some headers
      → abs_diff w.clock.fresh (pos now) ≤ max_age
      → authenticate w max_age (received headers method url body)
        ≡ signed (record {
          address = agent.address;
          key = agent.agent_key;
          message = compute_signing_message w.ethers w.parser (print_nat now) method url body;
          ts = pos now;
        })
  authenticate-ed25519_sign_request now max_age method url body headers rooted http lib made h
        fresh =
      let (derived, private, key) = agent_fields made in
      let (bytes, read, e) = ed25519_sign_request-some now method url body headers h in
      let proved =
        received_lem now max_age agent.address method url body bytes rooted http lib fresh read
          derived in
      let message = compute_signing_message w.ethers w.parser (print_nat now) method url body in
      let same : headers
          ≡ ed25519_headers (codes "0x" ++ bytes_to_hex (get_public_key private_key))
              (codes "0x" ++ bytes_to_hex (sign bytes private_key)) (print_nat now) =
        e
        ∙ (ap
              (λ k.
                ed25519_headers k (codes "0x" ++ bytes_to_hex (sign bytes agent.private_key_bytes))
                  (print_nat now))
              key
            ∙ ap
                (λ p.
                  ed25519_headers (codes "0x" ++ bytes_to_hex (get_public_key private_key))
                    (codes "0x" ++ bytes_to_hex (sign bytes p)) (print_nat now))
                private) in
      ap (λ hs. authenticate w max_age (received hs method url body)) same
      ∙ (proved
          ∙ ap
              (λ k.
                signed
                  (record { address = agent.address; key = k; message = message; ts = pos now }))
              (sym key))
