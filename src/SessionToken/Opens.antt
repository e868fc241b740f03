-- ===== src/SessionToken/Opens.antt =====
-- A session token is opened again with the secret that it was sealed with.
use self_agent_id.Base.{
  append_assoc, ℕ, ◌+◌, ◌-◌, ◌≤◌, ◌≡◌, refl, ap, sym, ◌∙◌, false, some, List, [], ◌∷◌, ◌++◌, Text,
  codes, ltb, length, take, drop, take-append, drop-append, length-append, if◌then◌else◌, ◌==◌, map,
  is_empty, Distinct, All, arith, le→ltb,
}
use self_agent_id.Base.Int.{pos}
use self_agent_id.A2aTypes.{string}
use self_agent_id.SessionToken.{
  read_json, check_session, strip_cons, Node, SessionData, opened, session_expired, session_json,
  url_code, plain_code, strip_equals, plaintext, derive_key, encrypt_session, decrypt_session,
  is_expired, read_payload,
}
use self_agent_id.SessionToken.Entries.{defined, entries_of-session_json, value_of-defined}

-- What Node's functions do: base64 has its own letters and is read without its padding, the cipher
-- keeps lengths and is undone with the same key and iv, and a date is read from its text.
pub record IsFaithful (node : Node) : Type 0 where
  pub base64_letters :
      (bytes : List ℕ)
      → All (λ c. ((c == b'-') ≡ false) × ((c == b'_') ≡ false)) (node.to_base64 bytes)
  pub decodes : (bytes : List ℕ) → node.from_base64 (strip_equals (node.to_base64 bytes)) ≡ bytes
  pub tag_size : (key iv plain : List ℕ) → length (node.gcm_encrypt key iv plain).1 ≡ 16
  pub same_size : (key iv plain : List ℕ) → length (node.gcm_encrypt key iv plain).0 ≡ length plain
  pub decrypts :
      (key iv plain : List ℕ)
      → node.gcm_decrypt key iv (node.gcm_encrypt key iv plain).1 (node.gcm_encrypt key iv plain).0
        ≡ some plain
  pub dates :
      (t : ℕ)
      → t ≤ 8640000000000000
      → (node.date_of (string (node.to_iso t)) ≡ some (pos t)) × (is_empty (node.to_iso t) ≡ false)

-- That the session's JSON text is not empty and is read back.
pub record IsReadBack (node : Node) (session : SessionData) : Type 0 where
  pub some_text : 1 ≤ length (plaintext node session)
  pub reads_back :
      node.parse (node.from_utf8 (plaintext node session)) ≡ some (session_json session)

plain_code-url_code :
    (c : ℕ) → (c == b'-') ≡ false → (c == b'_') ≡ false → plain_code (url_code c) ≡ c
plain_code-url_code c h k = ground arith

url_code_equals : (c : ℕ) → (url_code c == b'=') ≡ (c == b'=')
url_code_equals c = ground arith

strip_cons-url :
    (c : ℕ) (s : Text) → strip_cons (url_code c) (map url_code s) ≡ map url_code (strip_cons c s)
strip_cons-url c [] = ground (arith, url_code_equals c)
strip_cons-url c (d ∷ s) = refl

strip_equals-url : (s : Text) → strip_equals (map url_code s) ≡ map url_code (strip_equals s)
strip_equals-url [] = refl
strip_equals-url (c ∷ s) = rw (strip_equals-url s) (strip_cons-url c (strip_equals s))

All-strip_cons : (P : ℕ → Type 0) (c : ℕ) (s : Text) → P c → All P s → All P (strip_cons c s)
All-strip_cons P c [] p h = ground arith
All-strip_cons P c (d ∷ s) p h = (p, h)

All-strip_equals : (P : ℕ → Type 0) (s : Text) → All P s → All P (strip_equals s)
All-strip_equals P [] h = tt
All-strip_equals P (c ∷ s) (p, h) = All-strip_cons P c (strip_equals s) p (All-strip_equals P s h)

plain-url :
    (s : Text)
    → All (λ c. ((c == b'-') ≡ false) × ((c == b'_') ≡ false)) s
    → map plain_code (map url_code s) ≡ s
plain-url [] h = refl
plain-url (c ∷ s) ((h, k), rest) = rw (plain_code-url_code c h k, plain-url s rest) refl

-- The text of the token stands for the bytes that were sealed.
from_base64-token :
    (node : Node) (bytes : List ℕ)
    → IsFaithful node
    → node.from_base64 (map plain_code (strip_equals (map url_code (node.to_base64 bytes)))) ≡ bytes
from_base64-token node bytes faithful =
    let text = node.to_base64 bytes in
    rw
      (
        strip_equals-url text,
        plain-url (strip_equals text) (All-strip_equals _ text (faithful.base64_letters bytes)),
      )
      (faithful.decodes bytes)

-- The three parts that `decryptSession` cuts the bytes into.
abbrev combined : (iv encrypted auth_tag : List ℕ) → List ℕ
combined iv encrypted auth_tag = iv ++ (encrypted ++ auth_tag)

module _ (iv encrypted auth_tag : List ℕ) (h : length iv ≡ 16) (k : length auth_tag ≡ 16) where
  length-combined : length (combined iv encrypted auth_tag) ≡ length encrypted + 32
  length-combined =
      omega (arith, length-append iv (encrypted ++ auth_tag), length-append encrypted auth_tag)

  cut_iv : take 16 (combined iv encrypted auth_tag) ≡ iv
  cut_iv = rw (← h) (take-append iv (encrypted ++ auth_tag))

  split_tag : combined iv encrypted auth_tag ≡ (iv ++ encrypted) ++ auth_tag
  split_tag = sym (append_assoc iv encrypted auth_tag)

  cut_length : length (combined iv encrypted auth_tag) - 16 ≡ length (iv ++ encrypted)
  cut_length = omega (arith, length-combined, length-append iv encrypted)

  cut_tag :
      drop (length (combined iv encrypted auth_tag) - 16) (combined iv encrypted auth_tag)
      ≡ auth_tag
  cut_tag = rw (cut_length, split_tag) (drop-append (iv ++ encrypted) auth_tag)

  cut_encrypted :
      drop 16 (take (length (combined iv encrypted auth_tag) - 16) (combined iv encrypted auth_tag))
      ≡ encrypted
  cut_encrypted =
      let front : take (length (combined iv encrypted auth_tag) - 16)
            (combined iv encrypted auth_tag)
          ≡ iv ++ encrypted =
        rw (cut_length, split_tag) (take-append (iv ++ encrypted) auth_tag) in
      rw front (rw (← h) (drop-append iv encrypted))

module _ (node : Node) (faithful : IsFaithful node) where
  is_expired-defined :
      (now : ℕ) (session : SessionData)
      → Distinct session
      → is_expired node now (defined session) ≡ is_expired node now session
  unfolding is_expired
  is_expired-defined now session d =
      rw (value_of-defined (codes "expiresAt") session d, is_expired) refl

  read_payload-plaintext :
      (now : ℕ) (session : SessionData)
      → IsReadBack node session
      → Distinct session
      → read_payload node now (plaintext node session)
        ≡ (if is_expired node now session then session_expired else opened (defined session))
  unfolding check_session
  read_payload-plaintext now session back d =
      ap (read_json node now) back.reads_back
      ∙ ap (check_session node now) (entries_of-session_json session)
      ∙ rw (is_expired-defined now session d) refl

  pub decrypt-encrypt :
      (now : ℕ) (iv : List ℕ) (session : SessionData) (secret : Text)
      → length iv ≡ 16
      → IsReadBack node session
      → Distinct session
      → decrypt_session node now (encrypt_session node iv session secret) secret
        ≡ (if is_expired node now session then session_expired else opened (defined session))
  unfolding decrypt_session encrypt_session
  decrypt-encrypt now iv session secret h back d =
      let key = derive_key node secret in
      let plain = plaintext node session in
      let encrypted = (node.gcm_encrypt key iv plain).0 in
      let auth_tag = (node.gcm_encrypt key iv plain).1 in
      let k = faithful.tag_size key iv plain in
      let long : ltb (length (combined iv encrypted auth_tag)) 33 ≡ false = le→ltb _ _ (
        omega (
          arith,
          length-combined iv encrypted auth_tag h k,
          faithful.same_size key iv plain,
          back.some_text,
        )) in
      rw
        (
          from_base64-token node (combined iv encrypted auth_tag) faithful,
          long,
          cut_iv iv encrypted auth_tag h k,
          cut_tag iv encrypted auth_tag h k,
          cut_encrypted iv encrypted auth_tag h k,
          faithful.decrypts key iv plain,
        )
        (read_payload-plaintext now session back d)
