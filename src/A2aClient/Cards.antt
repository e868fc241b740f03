-- ===== src/A2aClient/Cards.antt =====
-- The agent card that the A2A client fetches and keeps.
use self_agent_id.Base.{
  not, Option, none, some, [], ◌∷◌, ◌++◌, Text, codes, or_else, if◌then◌else◌, ◌==◌,
}
use self_agent_id.A2aTypes.{Json, number, string, invalid_agent_card, error_code}
use self_agent_id.A2aClient.{
  A2aClient, HttpRequest, HttpResponse, Network, Called, returned, a2a_error, threw, status_line,
  spread_headers,
}

-- `origin.replace(/\/$/, "")`
abbrev strip_slash : Text → Text
strip_slash [] = []
strip_slash (c ∷ []) = if c == b'/' then [] else c ∷ []
strip_slash (c ∷ d ∷ s) = c ∷ strip_slash (d ∷ s)

module _ {S : Type 0} (network : Network S) where
  -- The card of an answer, and whether it is cached.
  read_card : HttpResponse → Called Json
  unfolding status_line
  read_card response =
      if not response.ok
      then a2a_error (some (number (error_code invalid_agent_card)))
          (some (string (status_line (codes "Failed to fetch agent card: ") response))) none
      else (elim response.json [ none ↦ threw | some card ↦ returned card ])

  abbrev cache_card : Called Json → A2aClient → A2aClient
  cache_card (returned card) client = record client { cached_card = some card }
  cache_card _ client = client

  unfoldable pub fetch_agent_card :
      (base_url : Option Text) → A2aClient → S → Called Json × (A2aClient × S)
  unfolding spread_headers read_card
  fetch_agent_card base_url client s = elim (or_else base_url (network.origin client.agent_url)) [
    | none ↦ (threw, (client, s))
    | some origin ↦
        let request : HttpRequest = record {
          url = strip_slash origin ++ codes "/.well-known/agent-card.json";
          method = codes "GET";
          headers = spread_headers ((codes "Accept", codes "application/json") ∷ []) client.headers;
          body = none;
        } in
        let (response, after) = network.fetch request s in
        elim response [
          | none ↦ (threw, (client, after))
          | some answer ↦ (read_card answer, (cache_card (read_card answer) client, after))
        ]
  ]

  unfoldable pub get_agent_card : A2aClient → Option Json
  get_agent_card client = client.cached_card
