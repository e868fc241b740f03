-- ===== src/A2aServer/Examples.antt =====
-- Tests of the A2A server, and its theorem at concrete requests.
use self_agent_id.Base.{
  ◌+◌, ℕ, ◌≡◌, refl, none, some, [], ◌∷◌, codes, get, set, eq_text, to_lower, includes, starts_with,
}
use self_agent_id.A2aTypes.{
  Json, Fields, string, array, object, end, no_more, field, Task, completed, text_id,
  task_not_found, error_code,
}
use self_agent_id.A2aServer.{
  Text, TaskHandler, A2aServer, returned, threw, error, handle_request, handle_send_message,
  handle_get_task, handle_cancel_task, dispatch, settle, conclude, find_field, is_object, to_id,
  error_response, get_error, test_message, get_stored_task,
}
use self_agent_id.A2aServer.Methods.{IsAnswer}
use self_agent_id.A2aServer.Answers.{request_id, handle_request-IsAnswer}

program : Unit {0}
unfolding handle_request handle_send_message handle_get_task handle_cancel_task dispatch settle
    conclude find_field is_object to_id error_response get_error test_message get_stored_task
    error_code get set eq_text to_lower includes starts_with
program = tt

abbrev done : Task
done = record {
  id = codes "t1";
  session_id = none;
  status = record { state = completed; message = none; timestamp = none };
  artifacts = none;
  history = none;
  metadata = none;
}

-- A handler that answers each message with one task, finds none, and counts its calls.
abbrev handler : TaskHandler ℕ
handler = record {
  on_message = λ message metadata n. (returned done, n + 1);
  on_get_task = λ id length n. (threw (error (codes "Task Not Found")), n + 1);
  on_cancel_task = λ id n. (returned done, n + 1);
}

abbrev server : A2aServer ℕ
server = record { tasks = []; handler_state = 0 }

abbrev request : Text → Fields → Json
request method params = object (
    field (codes "jsonrpc") (string (codes "2.0")) (
      field (codes "id") (string (codes "r1"))
        (field (codes "method") (string method) (field (codes "params") (object params) no_more))))

abbrev send : Json
send = request (codes "message/send") (
    field (codes "message")
      (object
        (field (codes "role") (string (codes "user")) (field (codes "parts") (array end) no_more)))
      no_more)

stores_task : handle_request handler send server ≡ (
  record { id = text_id (codes "r1"); result = some done; error = none },
  record { tasks = (codes "t1", done) ∷ []; handler_state = 1 },
)
unfolding program
stores_task = refl

finds_none :
    (handle_request handler
      (request (codes "tasks/get") (field (codes "id") (string (codes "t1")) no_more))
      server).0.error
    ≡ some (record { code = error_code task_not_found; message = codes "Task Not Found" })
unfolding program
finds_none = refl

handle_request-IsAnswer_example :
    IsAnswer (request_id send) server (handle_request handler send server)
handle_request-IsAnswer_example = handle_request-IsAnswer handler send server
