-- ===== src/SessionToken.antt =====
-- app/lib/session-token.ts: the encrypted session tokens of the agent API. Node's cipher, hash,
-- encodings, JSON and dates are parameters; the random bytes are arguments.
pub mod Entries
pub mod Opens
pub mod Lifetime
pub mod Samples
mod Examples
use self_agent_id.Base.{
  ◌*◌, suc, ℕ, ◌+◌, ◌-◌, Bool, true, false, not, Option, none, some, List, [], ◌∷◌, ◌++◌, Text,
  codes, ltb, get, set, keep, length, take, drop, if◌then◌else◌, ◌==◌, map, print_nat, get_or_else,
  is_empty,
}
use self_agent_id.Base.Int.{ℤ, pos, negsuc}
use self_agent_id.A2aTypes.{
  Json, Items, Fields, null, boolean, number, string, array, object, end, item, no_more, field,
}

-- What the code calls of Node; `none` is a thrown error, and the time of an invalid date.
pub record Node : Type 0 where
  pub sha256 : Text → List ℕ
  -- AES-256-GCM: key, iv and plain bytes to encrypted bytes and tag.
  pub gcm_encrypt : (key iv plain : List ℕ) → List ℕ × List ℕ
  pub gcm_decrypt : (key iv auth_tag encrypted : List ℕ) → Option (List ℕ)
  pub to_base64 : List ℕ → Text
  pub from_base64 : Text → List ℕ
  pub to_utf8 : Text → List ℕ
  pub from_utf8 : List ℕ → Text
  pub stringify : Json → Text
  pub parse : Text → Option Json
  pub to_iso : ℕ → Text
  pub date_of : Json → Option ℤ
  pub to_hex : List ℕ → Text

abbrev pub iv_length : ℕ
iv_length = 16

abbrev pub auth_tag_length : ℕ
auth_tag_length = 16

-- The properties of a session object, in order; `none` is a property that is `undefined`. The names
-- are no array indices.
abbrev pub SessionData : Type 0
SessionData = List (Text × Option Json)

abbrev pub join {ℓ} : {A : Type ℓ} → Option (Option A) → Option A
join none = none
join (some o) = o

-- `data.name`
unfoldable pub value_of : Text → SessionData → Option Json
unfolding get
value_of name session = join (get name session)

-- The object as JSON writes it: a property that is undefined is left out.
abbrev pub defined_fields : SessionData → Fields
defined_fields [] = no_more
defined_fields ((name, none) ∷ session) = defined_fields session
defined_fields ((name, some value) ∷ session) = field name value (defined_fields session)

abbrev pub session_json : SessionData → Json
session_json session = object (defined_fields session)

abbrev pub entries_of_fields : Fields → SessionData
entries_of_fields no_more = []
entries_of_fields (field name value rest) = (name, some value) ∷ entries_of_fields rest

unfoldable pub entries_of_items : ℕ → Items → SessionData
unfolding print_nat
entries_of_items i end = []
entries_of_items i (item value rest) = (print_nat i, some value) ∷ entries_of_items (suc i) rest

-- The properties of a parsed value whose `typeof` is "object"; null, which is falsy, has none.
abbrev pub entries_of : Json → Option SessionData
entries_of (object fields) = some (entries_of_fields fields)
entries_of (array items) = some (entries_of_items 0 items)
entries_of _ = none

abbrev pub truthy_json : Json → Bool
truthy_json null = false
truthy_json (boolean b) = b
truthy_json (number (pos n)) = ltb 0 n
truthy_json (number (negsuc n)) = true
truthy_json (string s) = not (is_empty s)
truthy_json (array items) = true
truthy_json (object fields) = true

-- `.replace(/\+/g, "-").replace(/\//g, "_")`
abbrev pub url_code : ℕ → ℕ
url_code c = if c == b'+' then b'-' else (if c == b'/' then b'_' else c)

-- `.replace(/-/g, "+").replace(/_/g, "/")`
abbrev pub plain_code : ℕ → ℕ
plain_code c = if c == b'-' then b'+' else (if c == b'_' then b'/' else c)

abbrev pub strip_cons : ℕ → Text → Text
strip_cons c [] = if c == b'=' then [] else c ∷ []
strip_cons c (d ∷ rest) = c ∷ d ∷ rest

-- `.replace(/=+$/, "")`
abbrev pub strip_equals : Text → Text
strip_equals [] = []
strip_equals (c ∷ s) = strip_cons c (strip_equals s)

pub data Opened : Type 0 where
  opened : SessionData → Opened
  too_short not_authentic not_json invalid_payload session_expired : Opened

-- `date < now`, false for an invalid date.
abbrev pub is_before : Option ℤ → ℕ → Bool
is_before none now = false
is_before (some (pos t)) now = ltb t now
is_before (some (negsuc t)) now = true

-- The arguments of `createSessionToken`.
pub record SessionParams : Type 0 where
  pub type : Text
  pub mode : Option Text
  pub network : Option Text
  pub agent_private_key : Option Text
  pub human_address : Option Text
  pub agent_address : Option Text
  pub ttl_ms : Option ℕ

abbrev pub text_value : Option Text → Option Json
text_value none = none
text_value (some s) = some (string s)

-- `{ ...data, ...updates }`
unfoldable pub spread : SessionData → SessionData → SessionData
unfolding set
spread session [] = session
spread session ((name, value) ∷ updates) = spread (set name value session) updates

module _ (node : Node) where
  abbrev pub derive_key : Text → List ℕ
  derive_key secret = node.sha256 secret

  abbrev pub plaintext : SessionData → List ℕ
  plaintext session = node.to_utf8 (node.stringify (session_json session))

  -- The iv, the encrypted bytes and the tag, one after the other.
  abbrev pub sealed_bytes : List ℕ → List ℕ → List ℕ → List ℕ
  sealed_bytes iv plain key =
      let (encrypted, tag) = node.gcm_encrypt key iv plain in iv ++ (encrypted ++ tag)

  unfoldable pub encrypt_session : List ℕ → SessionData → Text → Text
  encrypt_session iv session secret =
      strip_equals
        (map url_code (node.to_base64 (sealed_bytes iv (plaintext session) (derive_key secret))))

  -- `data.expiresAt && new Date(data.expiresAt) < new Date()`
  unfoldable pub is_expired : ℕ → SessionData → Bool
  unfolding value_of
  is_expired now session = elim (value_of (codes "expiresAt") session) [
    | none ↦ false
    | some value ↦ if truthy_json value then is_before (node.date_of value) now else false
  ]

  -- The tests of the parsed value.
  unfoldable pub check_session : ℕ → Option SessionData → Opened
  unfolding is_expired
  check_session now none = invalid_payload
  check_session now (some session) =
      if is_expired now session then session_expired else opened session

  abbrev pub read_json : ℕ → Option Json → Opened
  read_json now none = not_json
  read_json now (some parsed) = check_session now (entries_of parsed)

  -- The decrypted bytes.
  abbrev pub read_payload : ℕ → List ℕ → Opened
  read_payload now plain = read_json now (node.parse (node.from_utf8 plain))

  unfoldable pub decrypt_session : ℕ → Text → Text → Opened
  decrypt_session now token secret =
      let combined = node.from_base64 (map plain_code token) in
      if ltb (length combined) (iv_length + auth_tag_length + 1)
      then too_short
      else (let iv = take iv_length combined in
          let auth_tag = drop (length combined - auth_tag_length) combined in
          let encrypted = drop iv_length (take (length combined - auth_tag_length) combined) in
          elim (node.gcm_decrypt (derive_key secret) iv auth_tag encrypted) [
            | none ↦ not_authentic
            | some plain ↦ read_payload now plain
          ])

  -- The data of a new session; `id` holds the random bytes of its name.
  unfoldable pub new_session : ℕ → List ℕ → SessionParams → SessionData
  new_session now id params =
      (codes "id", some (string (node.to_hex id)))
      ∷ (codes "type", some (string params.type))
      ∷ (codes "mode", text_value params.mode)
      ∷ (codes "stage", some (string (codes "pending")))
      ∷ (codes "network", text_value params.network)
      ∷ (codes "agentPrivateKey", text_value params.agent_private_key)
      ∷ (codes "humanAddress", text_value params.human_address)
      ∷ (codes "agentAddress", text_value params.agent_address)
      ∷ (codes "createdAt", some (string (node.to_iso now)))
      ∷ (
        codes "expiresAt",
        some (string (node.to_iso (now + get_or_else params.ttl_ms (30 * 60000)))),
      )
      ∷ []

  unfoldable pub create_session_token :
      ℕ → (iv id : List ℕ) → SessionParams → Text → Text × SessionData
  unfolding encrypt_session new_session
  create_session_token now iv id params secret =
      (encrypt_session iv (new_session now id params) secret, new_session now id params)

  unfoldable pub rotate_session_token : List ℕ → SessionData → SessionData → Text → Text
  unfolding encrypt_session
  rotate_session_token iv current updates secret =
      encrypt_session iv (spread current updates) secret
