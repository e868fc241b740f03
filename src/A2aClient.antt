-- ===== src/A2aClient.antt =====
-- typescript-sdk/src/a2a/client.ts: the A2A client, its options, its state and the requests it makes. The
-- network, JSON's parser and the URL parser are parameters.
pub mod Calls
pub mod Events
pub mod Cards
pub mod Stream
mod Examples
use self_agent_id.Base.{
  ℕ, ◌+◌, Bool, not, Option, none, some, List, [], ◌∷◌, ◌++◌, Text, codes, set, get_or_else,
  if◌then◌else◌, is_some, print_nat, ◌&&◌,
}
use self_agent_id.Base.Int.{pos}
use self_agent_id.A2aTypes.{Json, Fields, number, string, object, field, no_more}
use self_agent_id.A2aServer.{find_field, property}
use self_agent_id.Verifier.Auth.{truthy}

abbrev pub Headers : Type 0
Headers = List (Text × Text)

pub record A2aClientOptions : Type 0 where
  pub agent_url : Option Text
  pub agent_card : Option Json
  pub headers : Option Headers

pub record A2aClient : Type 0 where
  pub agent_url : Text
  pub cached_card : Option Json
  pub headers : Headers
  pub next_id : ℕ

pub record HttpRequest : Type 0 where
  pub url : Text
  pub method : Text
  pub headers : Headers
  pub body : Option Json

-- An answer; a body that is not JSON has no `json`, and `chunks` is the decoded stream.
pub record HttpResponse : Type 0 where
  pub ok : Bool
  pub status : ℕ
  pub status_text : Text
  pub json : Option Json
  pub chunks : Option (List Text)

-- The network in states `S`; none is a call that is rejected. `origin` is that of `new URL`.
pub record Network (S : Type 0) : Type 0 where
  pub fetch : HttpRequest → S → Option HttpResponse × S
  pub origin : Text → Option Text
  pub parse : Text → Option Json

-- The result of a call: a value, an `A2AError`, or another error.
pub data Called {ℓ} (A : Type ℓ) : Type ℓ where
  returned : A → Called A
  a2a_error : (code message : Option Json) (details : Option Json) → Called A
  threw : Called A

abbrev url_of_card : Option Json → Option Text
unfolding find_field
url_of_card none = none
url_of_card (some card) = elim (property (codes "url") card) [
  | some (string url) ↦ truthy (some url)
  | _ ↦ none
]

-- The constructor; none is its error. An `agentUrl` that is the empty text is taken, where a card has
-- an address.
unfoldable pub new_client : A2aClientOptions → Option A2aClient
unfolding url_of_card
new_client options =
    if not (is_some (truthy options.agent_url)) && not (is_some (url_of_card options.agent_card))
    then none
    else some (record {
      agent_url = get_or_else options.agent_url (get_or_else (url_of_card options.agent_card) []);
      cached_card = options.agent_card;
      headers = get_or_else options.headers [];
      next_id = 1;
    })

-- `{ ...headers, ...more }`
abbrev pub spread_headers : Headers → Headers → Headers
unfolding set
spread_headers headers [] = headers
spread_headers headers ((name, value) ∷ more) = spread_headers (set name value headers) more

abbrev envelope : ℕ → Text → Fields → Json
envelope id method params = object (
    field (codes "jsonrpc") (string (codes "2.0")) (
      field (codes "id") (number (pos id))
        (field (codes "method") (string method) (field (codes "params") (object params) no_more))))

abbrev pub status_line : Text → HttpResponse → Text
unfolding print_nat
status_line before response = before ++ (print_nat response.status ++ (b' ' ∷ response.status_text))

unfoldable pub post_request : A2aClient → Text → Text → Fields → HttpRequest
unfolding spread_headers
post_request client accept method params = record {
  url = client.agent_url;
  method = codes "POST";
  headers =
      spread_headers
        ((codes "Content-Type", codes "application/json") ∷ (codes "Accept", accept) ∷ [])
        client.headers;
  body = some (envelope client.next_id method params);
}

abbrev pub count_call : A2aClient → A2aClient
count_call client = record client { next_id = client.next_id + 1 }
