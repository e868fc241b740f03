-- ===== src/AgentApi/Lifecycle.antt =====
-- The life of a registration session over the routes of app/app/api/agent/register: callbacks and
-- status polls in any order, each of which passes the session on in a new token.
use self_agent_id.Base.{◌≡◌, ◌⊎◌, inl, inr, refl, sym, ◌∙◌, false, Option, some, Text, codes, arith}
use mathlib.Core.Path.{subst}
use self_agent_id.A2aTypes.{Json, string}
use self_agent_id.SessionToken.{SessionData, value_of}
use self_agent_id.ApiResponses.{is_text}
use self_agent_id.AgentApi.{Chain, respond}
use self_agent_id.AgentApi.Register.{register_status, register_callback}
use self_agent_id.AgentApi.Writes.{IsKept}
use self_agent_id.AgentApi.Steps.{
  IsConfirmed, CallbackResult, PollResult, is_settled, register_callback_lem, register_status_lem,
}

-- A session with the same properties, as the next request's token gives it.
abbrev pub SameValues : SessionData → SessionData → Type 0
SameValues session next = (name : Text) → value_of name next ≡ value_of name session

-- One request that was answered with the session.
pub data Step (session next : SessionData) : Type 0 where
  callback :
      (body : Option Json) (sent extra : SessionData)
      → register_callback body session ≡ respond sent extra
      → SameValues sent next
      → Step session next
  poll :
      (chain : Chain) (sent extra : SessionData)
      → register_status chain session ≡ respond sent extra
      → SameValues sent next
      → Step session next

pub data Reach (start : SessionData) : SessionData → Type 0 where
  here : Reach start start
  next : {s t : SessionData} → Reach start s → Step s t → Reach start t

-- No request changes a registration session's `id`, type, mode, network, keys, addresses or times: over
-- callbacks and status polls in any order, a property other than the stage, the proof and the agent id
-- keeps the value that it had.
pub Reach-kept :
    (start session : SessionData)
    → Reach start session
    → (name : Text) → IsKept name
    → value_of name session ≡ value_of name start
Reach-kept start session here name k = refl
Reach-kept start session (next r (callback body sent extra h same)) name k =
    same name ∙ ((register_callback_lem _ sent extra body h).0 name k ∙ Reach-kept start _ r name k)
Reach-kept start session (next r (poll chain sent extra h same)) name k =
    same name
    ∙ ((register_status_lem chain _ sent extra h).0.0 name k ∙ Reach-kept start _ r name k)

-- Some session on the way was confirmed by the chain that the route asked then.
pub record WasConfirmed (start : SessionData) : Type 0 where
  pub chain : Chain
  pub middle : SessionData
  pub reached : Reach start middle
  pub confirmed : IsConfirmed chain middle

-- The stages of a registration, as a machine of their own.
pub data Move (stage : Option Json) : Option Json → Type 0 where
  stay : Move stage stage
  receive :
      is_text (codes "completed") stage ≡ false
      → Move stage (some (string (codes "proof-received")))
  reject : is_text (codes "completed") stage ≡ false → Move stage (some (string (codes "failed")))
  complete :
      is_text (codes "completed") stage ≡ false
      → is_text (codes "failed") stage ≡ false
      → Move stage (some (string (codes "completed")))

callback-Move :
    (session sent : SessionData)
    → CallbackResult session sent
    → Move (value_of (codes "stage") session) (value_of (codes "stage") sent)
callback-Move session sent (kept, inl e) =
    subst (λ t. Move (value_of (codes "stage") session) (value_of (codes "stage") t)) (sym e) stay
callback-Move session sent (kept, inr (open_stage, inl stage)) =
    subst (Move (value_of (codes "stage") session)) (sym stage) (reject open_stage)
callback-Move session sent (kept, inr (open_stage, inr stage)) =
    subst (Move (value_of (codes "stage") session)) (sym stage) (receive open_stage)

poll-Move :
    (chain : Chain) (session sent : SessionData)
    → PollResult chain session sent
    → (sent ≡ session) ⊎ (is_settled session ≡ false)
    → Move (value_of (codes "stage") session) (value_of (codes "stage") sent)
poll-Move chain session sent (kept, inl e) settled =
    subst (λ t. Move (value_of (codes "stage") session) (value_of (codes "stage") t)) (sym e) stay
poll-Move chain session sent (kept, inr (stage, confirmed)) (inl e) =
    subst (λ t. Move (value_of (codes "stage") session) (value_of (codes "stage") t)) (sym e) stay
poll-Move chain session sent (kept, inr (stage, confirmed)) (inr e) =
    subst (Move (value_of (codes "stage") session)) (sym stage)
      (complete (ground arith) (ground arith))

-- The callback and status routes refine the machine of stages. A request that is answered leaves the
-- stage alone, or takes a stage that is not completed to "proof-received" or "failed", or takes one that
-- is neither completed nor failed to "completed"; no request leaves the stage "completed".
pub Step-Move :
    (session other : SessionData)
    → Step session other
    → Move (value_of (codes "stage") session) (value_of (codes "stage") other)
Step-Move session other (callback body sent extra h same) =
    subst (Move (value_of (codes "stage") session)) (sym (same (codes "stage")))
      (callback-Move session sent (register_callback_lem session sent extra body h))
Step-Move session other (poll chain sent extra h same) =
    let (result, settled) = register_status_lem chain session sent extra h in
    subst (Move (value_of (codes "stage") session)) (sym (same (codes "stage")))
      (poll-Move chain session sent result settled)
