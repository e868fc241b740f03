-- ===== src/A2aClient/Events.antt =====
-- The stream of events of the A2A client: `sendMessageStream`.
use self_agent_id.Base.{
  true, false, not, Option, none, some, List, [], ◌∷◌, ◌++◌, Text, codes, if◌then◌else◌, drop,
  starts_with, is_empty, split_on, ◌&&◌,
}
use self_agent_id.A2aTypes.{
  Json, number, string, field, no_more, internal_error, unsupported_operation, error_code,
}
use self_agent_id.RegistrationFlow.{add_field}
use self_agent_id.A2aClient.{
  A2aClient, HttpResponse, Network, Called, returned, a2a_error, threw, status_line, post_request,
  count_call,
}

-- The last part of a split text, `lines.pop()`, and those before it.
unfoldable pub split_last : List Text → List Text × Text
split_last [] = ([], [])
split_last (line ∷ []) = ([], line)
split_last (line ∷ next ∷ rest) =
    let (before, last) = split_last (next ∷ rest) in (line ∷ before, last)

-- What a stream yields, and whether it ends or throws.
pub data Events : Type 0 where
  finished threw_error : Events
  event : Json → Events → Events

abbrev pub and_then : Events → Events → Events
and_then finished more = more
and_then threw_error more = threw_error
and_then (event value rest) more = event value (and_then rest more)

module _ (parse : Text → Option Json) where
  -- The lines of one chunk, after the data of an event so far; the data left at the end is dropped.
  unfoldable pub read_lines : Text → List Text → Events
  unfolding starts_with
  read_lines event_data [] = finished
  read_lines event_data (line ∷ rest) = elim (starts_with line (codes "data: ")) [
    | true ↦ read_lines (event_data ++ drop 6 line) rest
    | false ↦ elim (is_empty line && not (is_empty event_data)) [
      | false ↦ read_lines event_data rest
      | true ↦ elim (parse event_data) [
        | none ↦ threw_error
        | some value ↦ event value (read_lines [] rest)
      ]
    ]
  ]

  -- The chunks, after the incomplete line of those before.
  unfoldable pub read_chunks : Text → List Text → Events
  unfolding read_lines split_on split_last
  read_chunks buffer [] = finished
  read_chunks buffer (chunk ∷ chunks) =
      let (lines, last) = split_last (split_on 10 (buffer ++ chunk)) in
      and_then (read_lines [] lines) (read_chunks last chunks)

module _ {S : Type 0} (network : Network S) where
  stream_answer : HttpResponse → Called Events
  unfolding read_chunks status_line
  stream_answer response =
      if not response.ok
      then a2a_error (some (number (error_code internal_error)))
          (some (string (status_line (codes "Stream request failed: ") response))) none
      else (elim response.chunks [
        | none ↦
            a2a_error (some (number (error_code unsupported_operation)))
              (some (string (codes "Response body is not a readable stream"))) none
        | some chunks ↦ returned (read_chunks network.parse [] chunks)
      ])

  unfoldable pub send_message_stream :
      Json → (metadata : Option Json) → A2aClient → S → Called Events × (A2aClient × S)
  unfolding stream_answer post_request
  send_message_stream message metadata client s =
      let params =
        field (codes "message") message (add_field (codes "metadata") metadata no_more) in
      let (response, after) =
        network.fetch
          (post_request client (codes "text/event-stream") (codes "message/stream") params) s in
      elim response [
        | none ↦ (threw, (count_call client, after))
        | some answer ↦ (stream_answer answer, (count_call client, after))
      ]
