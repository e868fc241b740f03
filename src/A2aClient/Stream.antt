-- ===== src/A2aClient/Stream.antt =====
-- The stream of the A2A client: whole events come out as they went in, and an event that is cut between
-- its data and its empty line is lost.
use self_agent_id.Base.{
  map, Option-cases, ℕ, inl, inr, Bool-cases, ◌≡◌, refl, ap, ◌∙◌, true, false, Option, none, some,
  List, [], ◌∷◌, ◌++◌, Text, codes, starts_with, is_empty, split_on, split_on-append, All, ◌==◌,
}
use self_agent_id.A2aTypes.{Json}
use self_agent_id.A2aClient.Events.{
  Events, finished, event, threw_error, and_then, split_last, read_lines, read_chunks,
}

-- A text that an event can carry on one line.
abbrev pub IsLine : Text → Type 0
IsLine text = (is_empty text ≡ false) × All (λ c. (c == 10) ≡ false) text

abbrev pub data_line : Text → Text
data_line payload = codes "data: " ++ payload

-- Events as a server writes them: a line of data and an empty line each.
abbrev pub write_events : List Text → Text
write_events [] = []
write_events (payload ∷ rest) = data_line payload ++ (10 ∷ 10 ∷ write_events rest)

abbrev pub event_lines : List Text → List Text
event_lines [] = []
event_lines (payload ∷ rest) = data_line payload ∷ [] ∷ event_lines rest

-- What is to come out.
abbrev pub events_of : (Text → Option Json) → List Text → Events
events_of parse [] = finished
events_of parse (payload ∷ rest) = elim (parse payload) [
  | none ↦ threw_error
  | some value ↦ event value (events_of parse rest)
]

split_on_first :
    (c : ℕ) (s : Text) → (first : Text) × (rest : List Text) × (split_on c s ≡ first ∷ rest)
unfolding split_on
split_on_first c [] = ([], [], refl)
split_on_first c (d ∷ s) =
    let (first, rest, e) = split_on_first c s in
    elim (Bool-cases (d == c)) [
      | inl same ↦ ([], split_on c s, rw same refl)
      | inr other ↦ (d ∷ first, rest, rw (other, e) refl)
    ]

split_last-cons :
    (c : ℕ) (line s : Text)
    → split_last (line ∷ split_on c s)
      ≡ (line ∷ (split_last (split_on c s)).0, (split_last (split_on c s)).1)
unfolding split_last
split_last-cons c line s = let (first, rest, e) = split_on_first c s in rw e refl

starts_with_nil : (s : Text) → starts_with s [] ≡ true
unfolding starts_with
starts_with_nil [] = refl
starts_with_nil (c ∷ s) = refl

starts_with-data_line : (payload : Text) → starts_with (data_line payload) (codes "data: ") ≡ true
unfolding starts_with
starts_with-data_line payload = starts_with_nil payload

data_line_plain :
    (payload : Text)
    → All (λ c. (c == 10) ≡ false) payload
    → All (λ c. (c == 10) ≡ false) (data_line payload)
data_line_plain payload plain = (refl, (refl, (refl, (refl, (refl, (refl, plain))))))

split_events :
    (payloads : List Text)
    → All IsLine payloads
    → split_last (split_on 10 (write_events payloads)) ≡ (event_lines payloads, [])
unfolding split_on split_last
split_events [] h = refl
split_events (payload ∷ rest) ((full, plain), h) =
    let w = write_events rest in
    let first = split_on-append 10 (data_line payload) (10 ∷ w) (data_line_plain payload plain) in
    ap split_last first
    ∙ (ap (λ p. (data_line payload ∷ p.0, p.1)) (split_last-cons 10 [] w)
        ∙ ap (λ p. (data_line payload ∷ [] ∷ p.0, p.1)) (split_events rest h))

and_then_assoc : (a b c : Events) → and_then a (and_then b c) ≡ and_then (and_then a b) c
and_then_assoc finished b c = refl
and_then_assoc threw_error b c = refl
and_then_assoc (event value a) b c = ap (event value) (and_then_assoc a b c)

module _ (parse : Text → Option Json) where
  read_event :
      (payload : Text) (lines : List Text)
      → is_empty payload ≡ false
      → read_lines parse [] (data_line payload ∷ [] ∷ lines) ≡ (elim (parse payload) [
        | none ↦ threw_error
        | some value ↦ event value (read_lines parse [] lines)
      ])
  unfolding read_lines starts_with
  read_event [] lines full = absurd cc
  read_event (c ∷ s) lines full = refl

  read_lines-event_lines :
      (payloads : List Text)
      → All IsLine payloads
      → read_lines parse [] (event_lines payloads) ≡ events_of parse payloads
  unfolding read_lines
  read_lines-event_lines [] h = refl
  read_lines-event_lines (payload ∷ rest) ((full, plain), h) =
      read_event payload (event_lines rest) full ∙ (elim (Option-cases (parse payload)) [
        | inl e ↦ rw (e, events_of) refl
        | inr (value, e) ↦ rw (e, events_of) (ap (event value) (read_lines-event_lines rest h))
      ])

  -- The events of chunks that hold whole events each.
  abbrev pub all_events : List (List Text) → Events
  all_events [] = finished
  all_events (group ∷ groups) = and_then (events_of parse group) (all_events groups)

  abbrev pub read_split : List Text × Text → List Text → Events
  read_split (lines, last) chunks =
      and_then (read_lines parse [] lines) (read_chunks parse last chunks)

  read_chunks-whole :
      (group : List Text) (chunks : List Text)
      → All IsLine group
      → read_chunks parse [] (write_events group ∷ chunks)
        ≡ and_then (events_of parse group) (read_chunks parse [] chunks)
  unfolding read_chunks
  read_chunks-whole group chunks h =
      ap (λ p. read_split p chunks) (split_events group h)
      ∙ ap (λ t. and_then t (read_chunks parse [] chunks)) (read_lines-event_lines group h)

  cut_split :
      (payload : Text)
      → All (λ c. (c == 10) ≡ false) payload
      → split_last (split_on 10 (data_line payload ++ 10 ∷ [])) ≡ (data_line payload ∷ [], [])
  unfolding split_last split_on
  cut_split payload plain =
      ap split_last (split_on-append 10 (data_line payload) [] (data_line_plain payload plain))

  read_chunks-cut :
      (payload : Text) (chunks : List Text)
      → All (λ c. (c == 10) ≡ false) payload
      → read_chunks parse [] ((data_line payload ++ 10 ∷ []) ∷ (10 ∷ []) ∷ chunks)
        ≡ read_chunks parse [] chunks
  unfolding read_chunks read_lines starts_with split_on split_last
  read_chunks-cut payload chunks plain =
      ap (λ p. read_split p ((10 ∷ []) ∷ chunks)) (cut_split payload plain) ∙ refl

  read_whole_chunks :
      (groups : List (List Text))
      → All (All IsLine) groups
      → read_chunks parse [] (map write_events groups) ≡ all_events groups
  unfolding read_chunks
  read_whole_chunks [] h = refl
  read_whole_chunks (group ∷ groups) (this, h) =
      read_chunks-whole group (map write_events groups) this
      ∙ ap (and_then (events_of parse group)) (read_whole_chunks groups h)

  read_chunks_groups :
      (groups : List (List Text)) (chunks : List Text) (rest : Events)
      → All (All IsLine) groups
      → read_chunks parse [] chunks ≡ rest
      → read_chunks parse [] (map write_events groups ++ chunks) ≡ and_then (all_events groups) rest
  read_chunks_groups [] chunks rest h e = e
  read_chunks_groups (group ∷ groups) chunks rest (this, h) e =
      read_chunks-whole group (map write_events groups ++ chunks) this
      ∙ (ap (and_then (events_of parse group)) (read_chunks_groups groups chunks rest h e)
          ∙ and_then_assoc (events_of parse group) (all_events groups) rest)

  -- A stream yields the data of its events in order, each parsed, as long as each chunk that the reader
  -- delivers holds whole events; but an event whose chunk ends between its line of data and its empty
  -- line is dropped without an error, while the events before and after it come out.
  pub stream_loses_cut :
      (before after : List (List Text)) (payload : Text)
      → All (All IsLine) before
      → All (All IsLine) after
      → IsLine payload
      → read_chunks parse [] (
          map write_events before
          ++ ((data_line payload ++ 10 ∷ []) ∷ (10 ∷ []) ∷ map write_events after))
        ≡ and_then (all_events before) (all_events after)
  stream_loses_cut before after payload h k (full, plain) =
      read_chunks_groups before _ (all_events after) h
        (read_chunks-cut payload (map write_events after) plain ∙ read_whole_chunks after k)
