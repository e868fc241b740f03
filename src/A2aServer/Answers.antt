-- ===== src/A2aServer/Answers.antt =====
-- What the A2A server answers to any request.
use self_agent_id.Base.{refl, inl, inr, codes, Bool-cases, Option-cases}
use self_agent_id.Base.Int.{pos}
use self_agent_id.A2aTypes.{
  Json, object, RequestId, number_id, parse_error, invalid_request, internal_error, error_code,
}
use self_agent_id.A2aServer.{
  TaskHandler, A2aServer, error, other, Handled, answered, rethrown, find_field, is_object, to_id,
  error_response, dispatch, settle, handle_request, id_text, is_version,
}
use self_agent_id.A2aServer.Methods.{
  IsAnswer, IsHandled, error_response-IsAnswer, dispatch-IsHandled,
}

-- The `id` that the response to a request has to carry.
abbrev pub request_id : Json → RequestId
unfolding is_object
request_id (object req) = to_id (find_field (codes "id") req)
request_id _ = number_id (pos 0)

module _ {H : Type 0} (server : A2aServer H) where
  settle-IsAnswer :
      (id : RequestId) (out : Handled × A2aServer H)
      → IsHandled id server out
      → IsAnswer id server (settle id out.0, out.1)
  unfolding settle error_response
  settle-IsAnswer id (answered r, after) h = h
  settle-IsAnswer id (rethrown (error message), after) h = (
    refl,
    inr (record {
      failure = record { code = error_code internal_error; message = message };
      no_result = refl;
      stated = refl;
      kept = h;
      untouched = inr (inl refl);
    }),
  )
  settle-IsAnswer id (rethrown other, after) h = (
    refl,
    inr (record {
      failure = record { code = error_code internal_error; message = codes "Internal error" };
      no_result = refl;
      stated = refl;
      kept = h;
      untouched = inr (inl refl);
    }),
  )

-- The server answers each request, whatever its handler does, with the request's `id`, or with 0
-- where it has none, and with either a task or an error. A task is stored under its own id, and the
-- other tasks stay. An error leaves the stored tasks alone; it leaves the handler alone too, unless
-- its code is one of the three that stand for an error of the handler.
pub handle_request-IsAnswer :
    {H : Type 0} (handler : TaskHandler H) (request : Json) (server : A2aServer H)
    → IsAnswer (request_id request) server (handle_request handler request server)
unfolding handle_request is_object
handle_request-IsAnswer handler (object req) server =
    let id = to_id (find_field (codes "id") req) in
    elim (Bool-cases (is_version (find_field (codes "jsonrpc") req))) [
      | inr old ↦ rw (old, handle_request) (error_response-IsAnswer id server invalid_request _)
      | inl new ↦ elim (Option-cases (id_text (find_field (codes "method") req))) [
        | inl e ↦ rw (new, e, handle_request) (error_response-IsAnswer id server invalid_request _)
        | inr (method, e) ↦
            rw (new, e, handle_request)
              (settle-IsAnswer server id
                (dispatch handler id method (find_field (codes "params") req) server)
                (dispatch-IsHandled handler id (find_field (codes "params") req) server method))
      ]
    ]
handle_request-IsAnswer handler _ server =
    error_response-IsAnswer (number_id (pos 0)) server parse_error (codes "Parse error")
