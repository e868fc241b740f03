-- ===== src/SessionToken/Entries.antt =====
-- The properties of a session object: what JSON keeps of them, and the spread of updates.
use self_agent_id.Base.{
  ap, ◌≡◌, refl, none, some, [], ◌∷◌, Text, get, set, get-set, eq_text_iff, or_else, Distinct,
  Fresh, Distinct-set, get_of_Fresh, arith,
}
use self_agent_id.SessionToken.{
  SessionData, join, value_of, spread, defined_fields, session_json, entries_of_fields, entries_of,
}

-- The properties that are not undefined.
abbrev pub defined : SessionData → SessionData
defined [] = []
defined ((name, none) ∷ session) = defined session
defined ((name, some value) ∷ session) = (name, some value) ∷ defined session

entries_of_fields-defined_fields :
    (session : SessionData) → entries_of_fields (defined_fields session) ≡ defined session
entries_of_fields-defined_fields [] = refl
entries_of_fields-defined_fields ((name, none) ∷ session) = entries_of_fields-defined_fields session
entries_of_fields-defined_fields ((name, some value) ∷ session) =
    rw (entries_of_fields-defined_fields session) refl

pub entries_of-session_json :
    (session : SessionData) → entries_of (session_json session) ≡ some (defined session)
entries_of-session_json session = rw (entries_of_fields-defined_fields session) refl

get-defined-Fresh :
    (name : Text) (session : SessionData) → Fresh name session → get name (defined session) ≡ none
unfolding get
get-defined-Fresh name [] h = refl
get-defined-Fresh name ((other, none) ∷ session) (this, h) = get-defined-Fresh name session h
get-defined-Fresh name ((other, some value) ∷ session) (this, h) =
    rw this (get-defined-Fresh name session h)

pub value_of-defined :
    (name : Text) (session : SessionData)
    → Distinct session
    → value_of name (defined session) ≡ value_of name session
unfolding get value_of
value_of-defined name [] d = refl
value_of-defined name ((other, none) ∷ session) (fresh, d) =
    ground (
      arith,
      eq_text_iff other name,
      get-defined-Fresh name session,
      value_of-defined name session d,
    )
value_of-defined name ((other, some value) ∷ session) (fresh, d) =
    ground (arith, value_of-defined name session d)

pub Distinct-spread :
    (session updates : SessionData) → Distinct session → Distinct (spread session updates)
unfolding spread
Distinct-spread session [] d = d
Distinct-spread session ((name, value) ∷ updates) d =
    Distinct-spread (set name value session) updates (Distinct-set name value session d)

get-spread :
    (name : Text) (session updates : SessionData)
    → Distinct updates
    → get name (spread session updates) ≡ or_else (get name updates) (get name session)
unfolding get spread
get-spread name session [] d = refl
get-spread name session ((other, value) ∷ updates) (fresh, d) = ground (
  arith,
  get-spread name (set other value session) updates d,
  get-set other name value session,
  eq_text_iff other name,
  get_of_Fresh name updates,
)

pub value_of-spread :
    (name : Text) (session updates : SessionData)
    → Distinct updates
    → value_of name (spread session updates) ≡ join (or_else (get name updates) (get name session))
unfolding value_of
value_of-spread name session updates d = ap join (get-spread name session updates d)
