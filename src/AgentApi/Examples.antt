-- ===== src/AgentApi/Examples.antt =====
-- Tests of the agent API's sessions, and their theorems at a concrete registration.
use self_agent_id.Base.{
  ◌≡◌, refl, some, none, Option, true, [], ◌∷◌, codes, eq_text, get, set, to_lower, trim,
  trim_start, is_white,
}
use self_agent_id.Base.Int.{pos}
use self_agent_id.A2aTypes.{Json, string, number, object, field, no_more}
use self_agent_id.SessionToken.{SessionData, value_of, entries_of_items}
use self_agent_id.ApiResponses.{returned, threw}
use self_agent_id.AgentApi.{Chain, Outcome, respond, plain, extract_bearer_token}
use self_agent_id.AgentApi.Register.{register_callback, register_status}
use self_agent_id.AgentApi.Export.{export_key, export_body}
use self_agent_id.AgentApi.Writes.{IsKept}
use self_agent_id.AgentApi.Lifecycle.{
  Step, callback, poll, Reach, here, next, Move, Reach-kept, Step-Move,
}

program : Unit {0}
unfolding eq_text get set value_of entries_of_items extract_bearer_token register_callback
    register_status export_key export_body to_lower trim trim_start is_white
program = tt

bearer : extract_bearer_token (some (codes " bEARER  abc ")) ≡ some (codes "abc")
unfolding program
bearer = refl

no_bearer : extract_bearer_token (some (codes "Basic abc")) ≡ none
unfolding program
no_bearer = refl

abbrev chain : Chain
chain = record {
  zero_pad = λ value. returned (codes "0x00a");
  is_verified_agent = λ registry key. returned true;
  get_agent_id = λ registry key. returned 7;
  get_agent_credentials = λ registry id. threw (codes "reverted");
}

abbrev start : SessionData
start =
    (codes "id", some (string (codes "5")))
    ∷ (codes "type", some (string (codes "register")))
    ∷ (codes "mode", some (string (codes "wallet-free")))
    ∷ (codes "stage", some (string (codes "qr-ready")))
    ∷ (codes "network", some (string (codes "testnet")))
    ∷ (codes "agentPrivateKey", some (string (codes "0xkey")))
    ∷ (codes "agentAddress", some (string (codes "0xa")))
    ∷ []

abbrev proof : Option Json
proof = some (object (field (codes "proof") (string (codes "p")) no_more))

abbrev sent_of : Outcome → SessionData
sent_of (respond sent extra) = sent
sent_of _ = []

abbrev extra_of : Outcome → SessionData
extra_of (respond sent extra) = extra
extra_of (plain body) = body
extra_of _ = []

abbrev scanned : SessionData
scanned = sent_of (register_callback proof start)

abbrev finished : SessionData
finished = sent_of (register_status chain scanned)

first_step : Step start scanned
unfolding program
first_step = callback proof scanned (extra_of (register_callback proof start)) refl (λ name. refl)

second_step : Step scanned finished
unfolding program
second_step = poll chain finished (extra_of (register_status chain scanned)) refl (λ name. refl)

abbrev run : Reach start finished
run = next (next here first_step) second_step

agent_id : value_of (codes "agentId") finished ≡ some (number (pos 7))
unfolding program
agent_id = refl

address-IsKept : IsKept (codes "agentAddress")
unfolding program
address-IsKept = (refl, refl, refl)

Reach-kept_example :
    value_of (codes "agentAddress") finished ≡ value_of (codes "agentAddress") start
Reach-kept_example = Reach-kept start finished run (codes "agentAddress") address-IsKept

Step-Move_example : Move (value_of (codes "stage") scanned) (value_of (codes "stage") finished)
Step-Move_example = Step-Move scanned finished second_step
