-- ===== src/ApiResponses.antt =====
-- app/lib/agent-api-helpers.ts: the answers of the agent API, its networks and its instructions.
use self_agent_id.Base.{
  ◌≡◌, ℕ, Bool, true, false, Option, none, some, List, [], ◌∷◌, ◌++◌, Text, codes, eq_text,
  if◌then◌else◌, suc, print_nat, refl, ◌≡◌,
}
use self_agent_id.Base.Int.{pos, negsuc}
use self_agent_id.A2aTypes.{Json, Items, null, boolean, number, string, array, object, end, item}
use self_agent_id.SessionToken.{SessionData, session_json}

pub record Response : Type 0 where
  pub status : ℕ
  pub body : Option Json

unfoldable pub cors_response : Response
cors_response = record { status = 204; body = none }

-- The body is written without the properties that are undefined.
unfoldable pub json_response : SessionData → ℕ → Response
json_response body status = record { status = status; body = some (session_json body) }

unfoldable pub error_response : Text → ℕ → Response
unfolding json_response
error_response message status = json_response ((codes "error", some (string message)) ∷ []) status

-- What a call outside the code gives: a value, or an error with its message.
pub data Called {ℓ} (A : Type ℓ) : Type ℓ where
  returned : A → Called A
  threw : Text → Called A

pub data ApiNetwork : Type 0 where
  mainnet testnet : ApiNetwork

unfoldable pub registry_address : ApiNetwork → Text
registry_address mainnet = codes "0xaC3DF9ABf80d0F5c020C06B04Cced27763355944"
registry_address testnet = codes "0x043DaCac8b0771DD5b444bCC88f2f8BBDBEdd379"

-- `isValidNetwork`, with the network that it finds.
unfoldable pub valid_network : Text → Option ApiNetwork
valid_network value =
    if eq_text value (codes "mainnet")
    then some mainnet
    else (if eq_text value (codes "testnet") then some testnet else none)

-- A value in a template: the items of an array stand with commas between them.
abbrev pub comma_join : Text → Text → Bool → Text
comma_join first rest last = if last then first else first ++ (codes "," ++ rest)

mutual
  unfolding print_nat

  pub text_of_json : Json → Text
  text_of_json null = codes "null"
  text_of_json (boolean true) = codes "true"
  text_of_json (boolean false) = codes "false"
  text_of_json (number (pos n)) = print_nat n
  text_of_json (number (negsuc n)) = b'-' ∷ print_nat (suc n)
  text_of_json (string s) = s
  text_of_json (array items) = text_of_items items
  text_of_json (object fields) = codes "[object Object]"

  text_of_items : Items → Text
  text_of_items end = []
  text_of_items (item null end) = []
  text_of_items (item null rest) = b',' ∷ text_of_items rest
  text_of_items (item value end) = text_of_json value
  text_of_items (item value rest) = text_of_json value ++ (b',' ∷ text_of_items rest)

pub text_of_json-string : (s : Text) → text_of_json (string s) ≡ s
unfolding text_of_json
text_of_json-string s = refl

abbrev pub text_of_value : Option Json → Text
text_of_value none = codes "undefined"
text_of_value (some value) = text_of_json value

-- `value === text`
abbrev pub is_text : Text → Option Json → Bool
is_text text (some (string s)) = eq_text s text
is_text text _ = false

-- `getNetworkConfig` of a network that a session names.
unfoldable pub network_of : Option Json → Option ApiNetwork
unfolding valid_network
network_of (some (string s)) = valid_network s
network_of _ = none

unfoldable pub get_network_config : Option Json → Called ApiNetwork
unfolding network_of
get_network_config value = elim (network_of value) [
  | some network ↦ returned network
  | none ↦ threw (codes "Unknown network: " ++ text_of_value value)
]

abbrev pub lines : List Text → Option Json
lines texts = some (array (items_of texts))
  where
    items_of : List Text → Items
    items_of [] = end
    items_of (t ∷ rest) = item (string t) (items_of rest)

unfoldable pub human_instructions : Option Json → Option Json
human_instructions stage =
    if is_text (codes "pending") stage
    then lines (codes "Session created. Awaiting QR generation." ∷ [])
    else (if is_text (codes "qr-ready") stage
        then lines (
            codes "Open the Self app on your phone."
            ∷ codes "Scan the QR code displayed below or open the deep link."
            ∷ codes "Follow the prompts to scan your passport."
            ∷ codes "Wait for the proof to be submitted on-chain."
            ∷ [])
        else (if is_text (codes "proof-received") stage
            then lines (
                codes "Proof received from Self app."
                ∷ codes "Waiting for on-chain confirmation..."
                ∷ [])
            else (if is_text (codes "completed") stage
                then lines
                    (codes "Registration complete. Your agent is now verified on-chain." ∷ [])
                else (if is_text (codes "failed") stage
                    then lines
                        (codes "Registration failed. Check the error details and try again." ∷ [])
                    else (if is_text (codes "expired") stage
                        then lines (codes "Session expired. Please start a new registration." ∷ [])
                        else lines [])))))
