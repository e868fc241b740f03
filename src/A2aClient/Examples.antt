-- ===== src/A2aClient/Examples.antt =====
-- Tests of the A2A client, and its theorem at a concrete stream.
use self_agent_id.Base.{
  arith, ◌≡◌, refl, Option, none, some, List, [], ◌∷◌, ◌++◌, map, Text, codes, starts_with,
  split_on, set, eq_text, All,
}
use self_agent_id.A2aTypes.{Json, string, error_code}
use self_agent_id.A2aServer.{find_field}
use self_agent_id.A2aClient.Events.{finished, event, and_then, split_last, read_lines, read_chunks}
use self_agent_id.A2aClient.{new_client}
use self_agent_id.A2aClient.Calls.{rpc, get_task}
use self_agent_id.A2aClient.Cards.{fetch_agent_card}
use self_agent_id.A2aClient.Stream.{IsLine, data_line, write_events, all_events, stream_loses_cut}

program : Unit {0}
unfolding starts_with split_on split_last read_lines read_chunks new_client rpc get_task
    fetch_agent_card set eq_text find_field error_code
program = tt

abbrev parse : Text → Option Json
parse text = some (string text)

split_data :
    read_chunks parse [] (codes "data: o" ∷ (codes "ne" ++ (10 ∷ 10 ∷ [])) ∷ [])
    ≡ event (string (codes "one")) finished
unfolding program
split_data = refl

no_address : new_client (record { agent_url = some []; agent_card = none; headers = none }) ≡ none
unfolding program
no_address = refl

abbrev groups : List (List Text)
groups = (codes "one" ∷ codes "two" ∷ []) ∷ []

abbrev later : List (List Text)
later = (codes "four" ∷ []) ∷ []

abbrev lost : Text
lost = codes "three"

groups-IsLine : All (All IsLine) groups
groups-IsLine = ground arith

later-IsLine : All (All IsLine) later
later-IsLine = ground arith

lost-IsLine : IsLine lost
lost-IsLine = ground arith

stream_loses_cut_example :
    read_chunks parse [] (
      map write_events groups ++ ((data_line lost ++ 10 ∷ []) ∷ (10 ∷ []) ∷ map write_events later))
    ≡ and_then (all_events parse groups) (all_events parse later)
stream_loses_cut_example =
    stream_loses_cut parse groups later lost groups-IsLine later-IsLine lost-IsLine
