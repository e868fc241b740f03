-- ===== src/SessionToken/Lifetime.antt =====
-- The life of a session token: created, opened, rotated with updates, and expired.
use self_agent_id.Base.{
  eq_text, ℕ, ◌+◌, ◌≤◌, ◌≡◌, refl, ◌∙◌, false, List, Text, ltb, length, if◌then◌else◌, get_or_else,
  Distinct, arith, or_else, get,
}
use self_agent_id.SessionToken.{
  Node, SessionData, SessionParams, opened, session_expired, join, value_of, spread,
  decrypt_session, is_expired, new_session, create_session_token, rotate_session_token,
}
use self_agent_id.SessionToken.Entries.{defined, value_of-defined, Distinct-spread, value_of-spread}
use self_agent_id.SessionToken.Opens.{IsFaithful, IsReadBack, decrypt-encrypt}

-- When the session of `createSessionToken` expires.
abbrev pub expiry : ℕ → SessionParams → ℕ
expiry now params = now + get_or_else params.ttl_ms 1800000

module _ (node : Node) (faithful : IsFaithful node) where
  new_session-Distinct :
      (now : ℕ) (id : List ℕ) (params : SessionParams) → Distinct (new_session node now id params)
  unfolding new_session eq_text
  new_session-Distinct now id params = ground arith

  is_expired-new :
      (now later : ℕ) (id : List ℕ) (params : SessionParams)
      → expiry now params ≤ 8640000000000000
      → is_expired node later (new_session node now id params) ≡ ltb (expiry now params) later
  unfolding is_expired value_of new_session get eq_text
  is_expired-new now later id params h =
      let (reads, full) = faithful.dates (expiry now params) h in rw (full, reads) refl

  -- A token of `createSessionToken` is opened by `decryptSession` with the same secret as long as its
  -- expiry, the time of its making plus its time to live (half an hour by default), is not past, and
  -- gives the session's data without the properties that are undefined; after it, the session is expired.
  pub decrypt-create :
      (now later : ℕ) (iv id : List ℕ) (params : SessionParams) (secret : Text)
      → length iv ≡ 16
      → expiry now params ≤ 8640000000000000
      → IsReadBack node (new_session node now id params)
      → decrypt_session node later (create_session_token node now iv id params secret).0 secret ≡ (
          if ltb (expiry now params) later
          then session_expired
          else opened (defined (create_session_token node now iv id params secret).1))
  unfolding create_session_token
  decrypt-create now later iv id params secret h k back =
      decrypt-encrypt node faithful later iv (new_session node now id params) secret h back
        (new_session-Distinct now id params)
      ∙ rw (is_expired-new now later id params k) refl

  -- A rotated token is opened with the same secret, until it expires, as a session in which each
  -- property that the updates name has the updates' value, one that they set to `undefined` is missing,
  -- and each other property keeps the value it had.
  pub decrypt-rotate :
      (now : ℕ) (iv : List ℕ) (current updates : SessionData) (secret : Text)
      → length iv ≡ 16
      → Distinct current
      → Distinct updates
      → IsReadBack node (spread current updates)
      → is_expired node now (spread current updates) ≡ false
      → (session : SessionData) × (decrypt_session node now
            (rotate_session_token node iv current updates secret)
            secret
          ≡ opened session)
        × ((name : Text)
            → value_of name session ≡ join (or_else (get name updates) (get name current)))
  unfolding rotate_session_token
  decrypt-rotate now iv current updates secret h d e back live =
      let distinct = Distinct-spread current updates d in
      (
        defined (spread current updates),
        decrypt-encrypt node faithful now iv (spread current updates) secret h back distinct
            ∙ rw live refl,
        λ name.
            value_of-defined name (spread current updates) distinct
            ∙ value_of-spread name current updates e,
      )
