-- ===== src/A2aServer.antt =====
-- typescript-sdk/src/a2a/server.ts: the A2A JSON-RPC server. The task handler that the application
-- implements is a parameter with a state of its own.
pub mod Methods
pub mod Answers
mod Examples
use self_agent_id.Base.{
  Bool, true, false, ◌||◌, not, Option, none, some, List, [], ◌∷◌, ◌++◌, Text, codes, eq_text,
  to_lower, includes, get, set, if◌then◌else◌, is_empty,
}
use self_agent_id.Base.Int.{ℤ, pos}
use self_agent_id.A2aTypes.{
  Json, Items, Fields, null, boolean, number, string, array, object, no_more, field, Task,
  RequestId, text_id, number_id, A2aErrorCode, parse_error, invalid_request, method_not_found,
  invalid_params, internal_error, task_not_found, task_not_cancelable, unsupported_operation,
  error_code, JsonRpcError, JsonRpcResponse,
}

-- A thrown value: an `Error` with its message, or anything else.
pub data Thrown : Type 0 where
  error : Text → Thrown
  other : Thrown

-- What a method of the handler does: it returns a task or throws.
pub data Attempt : Type 0 where
  returned : Task → Attempt
  threw : Thrown → Attempt

-- `TaskHandler`, with a state of type `H`. It gets the JSON values that the request holds.
pub record TaskHandler (H : Type 0) : Type 0 where
  pub on_message : Json → Option Json → H → Attempt × H
  pub on_get_task : Text → Option Json → H → Attempt × H
  pub on_cancel_task : Text → H → Attempt × H

-- The server's map of tasks, and the state of its handler.
pub record A2aServer (H : Type 0) : Type 0 where
  pub tasks : List (Text × Task)
  pub handler_state : H

unfoldable pub find_field : Text → Fields → Option Json
find_field name no_more = none
find_field name (field n value rest) = if eq_text n name then some value else find_field name rest

-- `value.name` for a value that is not null
abbrev pub property : Text → Json → Option Json
unfolding find_field
property name (object fields) = find_field name fields
property name _ = none

-- `isObject`
unfoldable pub is_object : Json → Option Fields
is_object (object fields) = some fields
is_object _ = none

-- The same test on a property, which may be missing.
abbrev pub object_of : Option Json → Option Fields
unfolding is_object
object_of none = none
object_of (some value) = is_object value

unfoldable pub to_id : Option Json → RequestId
to_id (some (string s)) = text_id s
to_id (some (number n)) = number_id n
to_id _ = number_id (pos 0)

unfoldable pub error_response : RequestId → A2aErrorCode → Text → JsonRpcResponse
unfolding error_code
error_response id code message = record {
  id = id;
  result = none;
  error = some (record { code = error_code code; message = message });
}

abbrev pub success : RequestId → Task → JsonRpcResponse
success id task = record { id = id; result = some task; error = none }

-- A response, or an error that is thrown on.
pub data Handled : Type 0 where
  answered : JsonRpcResponse → Handled
  rethrown : Thrown → Handled

-- `err instanceof Error && err.message.toLowerCase().includes(part)`
abbrev pub says : Text → Text → Bool
says part message = includes (to_lower message) part

unfoldable pub get_error : RequestId → Thrown → Handled
unfolding error_response
get_error id (error message) =
    if says (codes "not found") message
    then answered (error_response id task_not_found message)
    else rethrown (error message)
get_error id other = rethrown other

unfoldable pub cancel_error : RequestId → Thrown → Handled
unfolding error_response
cancel_error id (error message) =
    if says (codes "not found") message
    then answered (error_response id task_not_found message)
    else (if says (codes "not cancelable") message
        then answered (error_response id task_not_cancelable message)
        else rethrown (error message))
cancel_error id other = rethrown other

-- The test of `p.message`: a value that counts as true whose `parts` are an array.
abbrev pub is_array : Option Json → Bool
is_array (some (array items)) = true
is_array _ = false

abbrev pub is_role : Option Json → Bool
is_role (some (string s)) = eq_text s (codes "user") || eq_text s (codes "agent")
is_role _ = false

abbrev pub id_text : Option Json → Option Text
id_text (some (string s)) = some s
id_text _ = none

-- The message of a request where it passes both tests, or the text of the refusal.
pub data MessageTest : Type 0 where
  accepted : Json → MessageTest
  refused : Text → MessageTest

unfoldable pub test_message : Option Json → MessageTest
test_message none = refused (codes "Invalid message: must include parts array")
test_message (some message) =
    if not (is_array (property (codes "parts") message))
    then refused (codes "Invalid message: must include parts array")
    else (if not (is_role (property (codes "role") message))
        then refused (codes "Invalid message role: must be \"user\" or \"agent\"")
        else accepted message)

module _ {H : Type 0} where
  abbrev pub reply : JsonRpcResponse → A2aServer H → Handled × A2aServer H
  reply response server = (answered response, server)

  -- A task that the handler returns is stored and answered; an error is mapped.
  unfoldable pub conclude :
      RequestId → (Thrown → Handled) → Attempt × H → A2aServer H → Handled × A2aServer H
  conclude id on_error (returned task, h) server = (
    answered (success id task),
    record { tasks = set task.id task server.tasks; handler_state = h },
  )
  conclude id on_error (threw e, h) server = (on_error e, record server { handler_state = h })

  -- `getStoredTask`
  unfoldable pub get_stored_task : Text → A2aServer H → Option Task
  get_stored_task id server = get id server.tasks

module _ {H : Type 0} (handler : TaskHandler H) where
  unfoldable pub handle_send_message : RequestId → Option Json → A2aServer H → Handled × A2aServer H
  unfolding test_message conclude error_response
  handle_send_message id params server = elim (object_of params) [
    | none ↦ reply (error_response id invalid_params (codes "Missing params")) server
    | some p ↦ elim (test_message (find_field (codes "message") p)) [
      | refused text ↦ reply (error_response id invalid_params text) server
      | accepted message ↦
          conclude id rethrown
            (handler.on_message message (find_field (codes "metadata") p) server.handler_state)
            server
    ]
  ]

  unfoldable pub handle_get_task : RequestId → Option Json → A2aServer H → Handled × A2aServer H
  unfolding conclude error_response get_error
  handle_get_task id params server = elim (object_of params) [
    | none ↦ reply (error_response id invalid_params (codes "Missing params")) server
    | some p ↦ elim (id_text (find_field (codes "id") p)) [
      | none ↦ reply (error_response id invalid_params (codes "Missing or invalid task id")) server
      | some task_id ↦
          conclude id (get_error id)
            (handler.on_get_task task_id (find_field (codes "historyLength") p)
              server.handler_state)
            server
    ]
  ]

  unfoldable pub handle_cancel_task : RequestId → Option Json → A2aServer H → Handled × A2aServer H
  unfolding conclude error_response cancel_error
  handle_cancel_task id params server = elim (object_of params) [
    | none ↦ reply (error_response id invalid_params (codes "Missing params")) server
    | some p ↦ elim (id_text (find_field (codes "id") p)) [
      | none ↦ reply (error_response id invalid_params (codes "Missing or invalid task id")) server
      | some task_id ↦
          conclude id (cancel_error id) (handler.on_cancel_task task_id server.handler_state) server
    ]
  ]

  -- The `switch` on the method.
  unfoldable pub dispatch : RequestId → Text → Option Json → A2aServer H → Handled × A2aServer H
  unfolding handle_send_message handle_get_task handle_cancel_task error_response
  dispatch id method params server =
      if eq_text method (codes "message/send")
      then handle_send_message id params server
      else (if eq_text method (codes "tasks/get")
          then handle_get_task id params server
          else (if eq_text method (codes "tasks/cancel")
              then handle_cancel_task id params server
              else (if eq_text method (codes "message/stream")
                  then reply
                      (error_response id unsupported_operation (
                        codes
                          "Streaming must be handled via SSE. Use handleStreamRequest() or implement SSE in your framework."))
                      server
                  else reply
                      (error_response id method_not_found (codes "Unknown method: " ++ method))
                      server)))

-- The `catch` around the `switch`.
unfoldable pub settle : RequestId → Handled → JsonRpcResponse
unfolding error_response
settle id (answered response) = response
settle id (rethrown (error message)) = error_response id internal_error message
settle id (rethrown other) = error_response id internal_error (codes "Internal error")

abbrev pub is_version : Option Json → Bool
is_version (some (string s)) = eq_text s (codes "2.0")
is_version _ = false

unfoldable pub handle_request :
    {H : Type 0} → TaskHandler H → Json → A2aServer H → JsonRpcResponse × A2aServer H
unfolding is_object to_id error_response dispatch settle
handle_request handler request server = elim (is_object request) [
  | none ↦ (error_response (number_id (pos 0)) parse_error (codes "Parse error"), server)
  | some req ↦
      let id = to_id (find_field (codes "id") req) in
      if not (is_version (find_field (codes "jsonrpc") req))
      then (error_response id invalid_request (codes "Invalid JSON-RPC version"), server)
      else elim (id_text (find_field (codes "method") req)) [
        | none ↦ (error_response id invalid_request (codes "Missing or invalid method"), server)
        | some method ↦
            let out = dispatch handler id method (find_field (codes "params") req) server in
            (settle id out.0, out.1)
      ]
]
