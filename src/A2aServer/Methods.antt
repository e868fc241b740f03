-- ===== src/A2aServer/Methods.antt =====
-- What the methods of the A2A server answer, and what they store.
use self_agent_id.Base.{
  ◌≡◌, refl, ◌⊎◌, inl, inr, false, Option, none, some, Text, codes, eq_text, get-set, get-set_self,
  Bool-cases, Option-cases,
}
use self_agent_id.Base.Int.{ℤ}
use self_agent_id.A2aTypes.{
  Json, Task, RequestId, A2aErrorCode, method_not_found, invalid_params, internal_error,
  task_not_found, task_not_cancelable, unsupported_operation, error_code, JsonRpcError,
  JsonRpcResponse,
}
use self_agent_id.A2aServer.{
  reply, Fields, says, TaskHandler, A2aServer, Attempt, returned, threw, Thrown, error, other,
  Handled, answered, rethrown, find_field, object_of, error_response, get_error, cancel_error,
  test_message, MessageTest, accepted, refused, conclude, handle_send_message, handle_get_task,
  handle_cancel_task, dispatch, get_stored_task, id_text,
}

-- The codes of the errors that stand for an error of the handler.
abbrev pub IsHandlerCode : ℤ → Type 0
IsHandlerCode code =
    (code ≡ error_code internal_error)
    ⊎ ((code ≡ error_code task_not_found) ⊎ (code ≡ error_code task_not_cancelable))

-- A response with an error leaves the server's tasks alone, and its handler too unless the error
-- stands for one of the handler.
pub record IsRefused {H : Type 0} (server after : A2aServer H) (r : JsonRpcResponse) : Type 0 where
  pub failure : JsonRpcError
  pub no_result : r.result ≡ none
  pub stated : r.error ≡ some failure
  pub kept : after.tasks ≡ server.tasks
  pub untouched : (after ≡ server) ⊎ IsHandlerCode failure.code

-- A response with a task has stored the task.
pub record IsServed {H : Type 0} (server after : A2aServer H) (r : JsonRpcResponse) : Type 0 where
  pub task : Task
  pub result : r.result ≡ some task
  pub no_error : r.error ≡ none
  pub stored : get_stored_task task.id after ≡ some task
  pub others :
      (k : Text) → eq_text task.id k ≡ false → get_stored_task k after ≡ get_stored_task k server

abbrev pub IsAnswer :
    {H : Type 0} → RequestId → A2aServer H → JsonRpcResponse × A2aServer H → Type 0
IsAnswer id server (r, after) = (r.id ≡ id) × (IsServed server after r ⊎ IsRefused server after r)

-- The same of a handler that may throw on.
abbrev pub IsHandled : {H : Type 0} → RequestId → A2aServer H → Handled × A2aServer H → Type 0
IsHandled id server (answered r, after) = IsAnswer id server (r, after)
IsHandled id server (rethrown e, after) = after.tasks ≡ server.tasks

module _ {H : Type 0} (id : RequestId) (server : A2aServer H) where
  pub error_response-IsAnswer :
      (code : A2aErrorCode) (message : Text)
      → IsAnswer id server (error_response id code message, server)
  unfolding error_response
  error_response-IsAnswer code message = (
    refl,
    inr (record {
      failure = record { code = error_code code; message = message };
      no_result = refl;
      stated = refl;
      kept = refl;
      untouched = inl refl;
    }),
  )

  handler_error-IsAnswer :
      (code : A2aErrorCode) (message : Text) (h : H)
      → IsHandlerCode (error_code code)
      → IsAnswer id server (error_response id code message, record server { handler_state = h })
  unfolding error_response
  handler_error-IsAnswer code message h k = (
    refl,
    inr (record {
      failure = record { code = error_code code; message = message };
      no_result = refl;
      stated = refl;
      kept = refl;
      untouched = inr k;
    }),
  )

  get_error-IsHandled :
      (e : Thrown) (h : H)
      → IsHandled id server (get_error id e, record server { handler_state = h })
  unfolding get_error
  get_error-IsHandled other h = refl
  get_error-IsHandled (error message) h = elim (Bool-cases (says (codes "not found") message)) [
    | inl named ↦
        rw (named, get_error) (handler_error-IsAnswer task_not_found message h (inr (inl refl)))
    | inr unnamed ↦ rw (unnamed, get_error) refl
  ]

  cancel_error-IsHandled :
      (e : Thrown) (h : H)
      → IsHandled id server (cancel_error id e, record server { handler_state = h })
  unfolding cancel_error
  cancel_error-IsHandled other h = refl
  cancel_error-IsHandled (error message) h = elim (Bool-cases (says (codes "not found") message)) [
    | inl named ↦
        rw (named, cancel_error) (handler_error-IsAnswer task_not_found message h (inr (inl refl)))
    | inr unnamed ↦ elim (Bool-cases (says (codes "not cancelable") message)) [
      | inl named ↦
          rw (unnamed, named, cancel_error)
            (handler_error-IsAnswer task_not_cancelable message h (inr (inr refl)))
      | inr neither ↦ rw (unnamed, neither, cancel_error) refl
    ]
  ]

  conclude-IsHandled :
      (on_error : Thrown → Handled) (out : Attempt × H)
      → ((e : Thrown) (h : H)
          → IsHandled id server (on_error e, record server { handler_state = h }))
      → IsHandled id server (conclude id on_error out server)
  unfolding conclude get_stored_task
  conclude-IsHandled on_error (returned task, h) k = (
    refl,
    inl (record {
      task = task;
      result = refl;
      no_error = refl;
      stored = get-set_self task.id task server.tasks;
      others = λ j other. rw (get-set task.id j task server.tasks, other) refl;
    }),
  )
  conclude-IsHandled on_error (threw e, h) k = k e h

module _ {H : Type 0} (handler : TaskHandler H) (id : RequestId) (params : Option Json)
    (server : A2aServer H) where
  -- The second part of `handleSendMessage`, on any result of the tests.
  test_message-IsHandled :
      (t : MessageTest) (p : Fields)
      → IsHandled id server (elim t [
        | refused text ↦ reply (error_response id invalid_params text) server
        | accepted message ↦
            conclude id rethrown
              (handler.on_message message (find_field (codes "metadata") p) server.handler_state)
              server
      ])
  test_message-IsHandled (refused text) p = error_response-IsAnswer id server invalid_params text
  test_message-IsHandled (accepted message) p =
      conclude-IsHandled id server rethrown
        (handler.on_message message (find_field (codes "metadata") p) server.handler_state)
        (λ e h. refl)

  handle_send_message-IsHandled : IsHandled id server (handle_send_message handler id params server)
  unfolding handle_send_message
  handle_send_message-IsHandled = elim (Option-cases (object_of params)) [
    | inl e ↦
        rw (e, handle_send_message)
          (error_response-IsAnswer id server invalid_params (codes "Missing params"))
    | inr (p, e) ↦
        rw (e, handle_send_message)
          (test_message-IsHandled (test_message (find_field (codes "message") p)) p)
  ]

  handle_get_task-IsHandled : IsHandled id server (handle_get_task handler id params server)
  unfolding handle_get_task
  handle_get_task-IsHandled = elim (Option-cases (object_of params)) [
    | inl e ↦
        rw (e, handle_get_task)
          (error_response-IsAnswer id server invalid_params (codes "Missing params"))
    | inr (p, e) ↦ elim (Option-cases (id_text (find_field (codes "id") p))) [
      | inl f ↦
          rw (e, f, handle_get_task)
            (error_response-IsAnswer id server invalid_params (codes "Missing or invalid task id"))
      | inr (task_id, f) ↦
          rw (e, f, handle_get_task)
            (conclude-IsHandled id server (get_error id)
              (handler.on_get_task task_id (find_field (codes "historyLength") p)
                server.handler_state)
              (get_error-IsHandled id server))
    ]
  ]

  handle_cancel_task-IsHandled : IsHandled id server (handle_cancel_task handler id params server)
  unfolding handle_cancel_task
  handle_cancel_task-IsHandled = elim (Option-cases (object_of params)) [
    | inl e ↦
        rw (e, handle_cancel_task)
          (error_response-IsAnswer id server invalid_params (codes "Missing params"))
    | inr (p, e) ↦ elim (Option-cases (id_text (find_field (codes "id") p))) [
      | inl f ↦
          rw (e, f, handle_cancel_task)
            (error_response-IsAnswer id server invalid_params (codes "Missing or invalid task id"))
      | inr (task_id, f) ↦
          rw (e, f, handle_cancel_task)
            (conclude-IsHandled id server (cancel_error id)
              (handler.on_cancel_task task_id server.handler_state)
              (cancel_error-IsHandled id server))
    ]
  ]

  pub dispatch-IsHandled :
      (method : Text) → IsHandled id server (dispatch handler id method params server)
  unfolding dispatch
  dispatch-IsHandled method = elim (Bool-cases (eq_text method (codes "message/send"))) [
    | inl a ↦ rw (a, dispatch) handle_send_message-IsHandled
    | inr a ↦ elim (Bool-cases (eq_text method (codes "tasks/get"))) [
      | inl b ↦ rw (a, b, dispatch) handle_get_task-IsHandled
      | inr b ↦ elim (Bool-cases (eq_text method (codes "tasks/cancel"))) [
        | inl c ↦ rw (a, b, c, dispatch) handle_cancel_task-IsHandled
        | inr c ↦ elim (Bool-cases (eq_text method (codes "message/stream"))) [
          | inl d ↦
              rw (a, b, c, d, dispatch) (error_response-IsAnswer id server unsupported_operation _)
          | inr d ↦ rw (a, b, c, d, dispatch) (error_response-IsAnswer id server method_not_found _)
        ]
      ]
    ]
  ]
