-- ===== src/SessionToken/Examples.antt =====
-- Tests of the session tokens, and their theorems at concrete sessions.
use self_agent_id.Base.{
  ℕ, ◌≡◌, refl, some, none, false, [], ◌∷◌, List, Text, codes, arith, eq_text, get, set, ltb,
  or_else, if◌then◌else◌, Distinct,
}
use self_agent_id.A2aTypes.{string}
use self_agent_id.SessionToken.{
  SessionData, SessionParams, Opened, opened, session_expired, join, value_of, spread,
  encrypt_session, decrypt_session, is_expired, check_session, new_session, create_session_token,
  rotate_session_token,
}
use self_agent_id.SessionToken.Entries.{defined}
use self_agent_id.SessionToken.Samples.{sample_node, sample_node-IsFaithful}
use self_agent_id.SessionToken.Opens.{IsReadBack}
use self_agent_id.SessionToken.Lifetime.{expiry, decrypt-create, decrypt-rotate}

program : Unit {0}
unfolding eq_text get set value_of spread is_expired check_session encrypt_session decrypt_session
    new_session create_session_token rotate_session_token
program = tt

abbrev iv : List ℕ
iv = 1 ∷ 2 ∷ 3 ∷ 4 ∷ 5 ∷ 6 ∷ 7 ∷ 8 ∷ 9 ∷ 10 ∷ 11 ∷ 12 ∷ 13 ∷ 14 ∷ 15 ∷ 16 ∷ []

abbrev id : List ℕ
id = 7 ∷ []

abbrev params : SessionParams
params = record {
  type = codes "register";
  mode = none;
  network = some (codes "testnet");
  agent_private_key = none;
  human_address = none;
  agent_address = some (codes "0xa");
  ttl_ms = some 500;
}

abbrev secret : Text
secret = codes "s3"

abbrev session : SessionData
session = new_session sample_node 1000 id params

session-IsReadBack : IsReadBack sample_node session
unfolding program
session-IsReadBack = record { some_text = omega arith; reads_back = refl }

abbrev updates : SessionData
updates = (codes "stage", some (string (codes "qr-ready"))) ∷ (codes "agentAddress", none) ∷ []

spread-IsReadBack : IsReadBack sample_node (spread session updates)
unfolding program
spread-IsReadBack = record { some_text = omega arith; reads_back = refl }

session-Distinct : Distinct session
unfolding program
session-Distinct = ground arith

updates-Distinct : Distinct updates
unfolding program
updates-Distinct = ground arith

still_live : is_expired sample_node 1200 (spread session updates) ≡ false
unfolding program
still_live = refl

wrong_secret :
    decrypt_session sample_node 1200 (encrypt_session sample_node iv session secret) (codes "t4")
    ≡ Opened.not_authentic
unfolding program
wrong_secret = refl

decrypt-create_example :
    decrypt_session sample_node 1501
      (create_session_token sample_node 1000 iv id params secret).0
      secret
    ≡ (if ltb (expiry 1000 params) 1501
        then session_expired
        else opened (defined (create_session_token sample_node 1000 iv id params secret).1))
decrypt-create_example =
    decrypt-create sample_node sample_node-IsFaithful 1000 1501 iv id params secret refl
      (omega arith) session-IsReadBack

decrypt-rotate_example :
    (rotated : SessionData) × (decrypt_session sample_node 1200
        (rotate_session_token sample_node iv session updates secret)
        secret
      ≡ opened rotated)
    × ((name : Text) → value_of name rotated ≡ join (or_else (get name updates) (get name session)))
decrypt-rotate_example =
    decrypt-rotate sample_node sample_node-IsFaithful 1200 iv session updates secret refl
      session-Distinct updates-Distinct spread-IsReadBack still_live
