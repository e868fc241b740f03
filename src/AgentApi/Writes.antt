-- ===== src/AgentApi/Writes.antt =====
-- What the routes of app/app/api/agent/register write into a session, property by property.
use self_agent_id.Base.{
  ◌≡◌, refl, true, false, Bool, Option, some, Text, codes, eq_text, set, get-set, if◌then◌else◌,
  get,
}
use self_agent_id.A2aTypes.{Json, string}
use self_agent_id.SessionToken.{SessionData, value_of, join}
use self_agent_id.AgentApi.Register.{is_stage, set_stage}

-- What the routes never write.
abbrev pub IsKept : Text → Type 0
IsKept name =
    (eq_text (codes "stage") name ≡ false)
    × (eq_text (codes "proof") name ≡ false)
    × (eq_text (codes "agentId") name ≡ false)

join_if :
    (b : Bool) (value : Option Json) (rest : Option (Option Json))
    → join (if b then some value else rest) ≡ (if b then value else join rest)
join_if true value rest = refl
join_if false value rest = refl

pub value_of-set :
    (key name : Text) (value : Option Json) (session : SessionData)
    → value_of name (set key value session)
      ≡ (if eq_text key name then value else value_of name session)
unfolding value_of
value_of-set key name value session =
    rw (get-set key name value session) (join_if (eq_text key name) value (get name session))

abbrev pub Keeps : SessionData → SessionData → Type 0
Keeps session sent = (name : Text) → IsKept name → value_of name sent ≡ value_of name session

abbrev pub IsCompleted : SessionData → Type 0
IsCompleted session = is_stage (codes "completed") session ≡ true

pub Keeps-refl : (session : SessionData) → Keeps session session
Keeps-refl session name k = refl

pub Keeps-failed : (session : SessionData) → Keeps session (set_stage (codes "failed") session)
Keeps-failed session name (stage, proof, id) =
    rw (value_of-set (codes "stage") name (some (string (codes "failed"))) session, stage) refl

pub Keeps-proof :
    (session : SessionData) (payload : Json)
    → Keeps session
        (set (codes "proof") (some payload) (set_stage (codes "proof-received") session))
Keeps-proof session payload name (stage, proof, id) =
    rw
      (
        value_of-set (codes "proof") name (some payload)
            (set_stage (codes "proof-received") session),
        proof,
        value_of-set (codes "stage") name (some (string (codes "proof-received"))) session,
        stage,
      )
      refl

pub Keeps-completed :
    (session : SessionData) (id : Option Json)
    → Keeps session (set (codes "agentId") id (set_stage (codes "completed") session))
Keeps-completed session value name (stage, proof, id) =
    rw
      (
        value_of-set (codes "agentId") name value (set_stage (codes "completed") session),
        id,
        value_of-set (codes "stage") name (some (string (codes "completed"))) session,
        stage,
      )
      refl

pub stage_of_failed :
    (session : SessionData)
    → value_of (codes "stage") (set_stage (codes "failed") session) ≡ some (string (codes "failed"))
unfolding eq_text
stage_of_failed session =
    rw (value_of-set (codes "stage") (codes "stage") (some (string (codes "failed"))) session) refl

pub stage_of_proof :
    (session : SessionData) (payload : Json)
    → value_of
        (codes "stage")
        (set (codes "proof") (some payload) (set_stage (codes "proof-received") session))
      ≡ some (string (codes "proof-received"))
unfolding eq_text
stage_of_proof session payload =
    rw
      (
        value_of-set (codes "proof") (codes "stage") (some payload)
            (set_stage (codes "proof-received") session),
        value_of-set (codes "stage") (codes "stage") (some (string (codes "proof-received")))
            session,
      )
      refl

pub stage_of_completed :
    (session : SessionData) (id : Option Json)
    → value_of (codes "stage") (set (codes "agentId") id (set_stage (codes "completed") session))
      ≡ some (string (codes "completed"))
unfolding eq_text
stage_of_completed session id =
    rw
      (
        value_of-set (codes "agentId") (codes "stage") id (set_stage (codes "completed") session),
        value_of-set (codes "stage") (codes "stage") (some (string (codes "completed"))) session,
      )
      refl
