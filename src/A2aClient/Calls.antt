-- ===== src/A2aClient/Calls.antt =====
-- The calls of the A2A client that are answered once: `rpc` and the methods on top of it.
use self_agent_id.Base.{not, Option, none, some, Text, codes, if◌then◌else◌}
use self_agent_id.A2aTypes.{
  Json, Fields, null, number, string, field, no_more, internal_error, error_code,
}
use self_agent_id.A2aServer.{find_field, property}
use self_agent_id.RegistrationFlow.{add_field}
use self_agent_id.SessionToken.{truthy_json}
use self_agent_id.A2aClient.{
  A2aClient, HttpResponse, Network, Called, returned, a2a_error, threw, status_line, post_request,
  count_call,
}

-- The answer of a call.
read_rpc : HttpResponse → Called (Option Json)
unfolding status_line find_field
read_rpc response =
    if not response.ok
    then a2a_error (some (number (error_code internal_error)))
        (some (string (status_line (codes "HTTP ") response))) none
    else (elim response.json [
      | none ↦ threw
      | some null ↦ threw
      | some body ↦ elim (property (codes "error") body) [
        | none ↦ returned (property (codes "result") body)
        | some error ↦
            if truthy_json error
            then a2a_error (property (codes "code") error) (property (codes "message") error)
                (property (codes "data") error)
            else returned (property (codes "result") body)
      ]
    ])

module _ {S : Type 0} (network : Network S) where
  unfoldable pub rpc : Text → Fields → A2aClient → S → Called (Option Json) × (A2aClient × S)
  unfolding read_rpc post_request
  rpc method params client s =
      let (response, after) =
        network.fetch (post_request client (codes "application/json") method params) s in
      elim response [
        | none ↦ (threw, (count_call client, after))
        | some answer ↦ (read_rpc answer, (count_call client, after))
      ]

  unfoldable pub send_message :
      Json → (metadata : Option Json) → A2aClient → S → Called (Option Json) × (A2aClient × S)
  unfolding rpc
  send_message message metadata =
      rpc (codes "message/send")
        (field (codes "message") message (add_field (codes "metadata") metadata no_more))

  unfoldable pub get_task :
      Text
      → (history_length metadata : Option Json) → A2aClient
      → S
      → Called (Option Json) × (A2aClient × S)
  unfolding rpc
  get_task task_id history_length metadata = rpc (codes "tasks/get") (
      field (codes "id") (string task_id) (
        add_field (codes "historyLength") history_length
          (add_field (codes "metadata") metadata no_more)))

  unfoldable pub cancel_task :
      Text → (metadata : Option Json) → A2aClient → S → Called (Option Json) × (A2aClient × S)
  unfolding rpc
  cancel_task task_id metadata =
      rpc (codes "tasks/cancel")
        (field (codes "id") (string task_id) (add_field (codes "metadata") metadata no_more))
