-- ===== src/Middleware/Request.antt =====
-- What of a request the middleware hands on: its headers and its body.
use self_agent_id.Base.{List, get, ◌≡◌, refl, Option, none, some, Text, Option-cases, inl, inr}
use self_agent_id.Middleware.{
  Value, string, buffer, falsy, object, as_string, parsed_body, Platform, MiddlewareReq, header,
  request_body, Stringified, json, undefined, fails,
}

-- The body that is verified: the raw body where the request has one, as text; else the body, a text as
-- it is and any other value as `JSON.stringify` writes it.
abbrev pub IsStringified : Stringified → Option Text → Type 0
IsStringified (json text) body = body ≡ some text
IsStringified undefined body = body ≡ none
IsStringified fails body = ⊥

abbrev pub IsParsedBody : {J : Type 0} → Platform J → Value J → Option Text → Type 0
IsParsedBody platform (string s) body = body ≡ some s
IsParsedBody platform falsy body = body ≡ none
IsParsedBody platform (buffer bytes) body = IsStringified (platform.stringify_buffer bytes) body
IsParsedBody platform (object value) body = IsStringified (platform.stringify value) body

abbrev pub IsBody : {J : Type 0} → Platform J → (raw parsed : Value J) → Option Text → Type 0
IsBody platform (string s) parsed body = body ≡ some s
IsBody platform (buffer bytes) parsed body = body ≡ some (platform.to_utf8_string bytes)
IsBody platform falsy parsed body = IsParsedBody platform parsed body
IsBody platform (object value) parsed body = IsParsedBody platform parsed body

-- The value of a header that is there as a string.
abbrev pub string_header : {J : Type 0} → Text → Option (List (Text × Value J)) → Option Text
string_header name none = none
string_header name (some headers) = elim (get name headers) [
  | none ↦ none
  | some value ↦ as_string value
]

pub header_lem :
    {J : Type 0} (name : Text) (req : MiddlewareReq J)
    → header name req ≡ string_header name req.headers
unfolding header
header_lem name req = elim (Option-cases req.headers) [
  | inl e ↦ rw (e, header) refl
  | inr (headers, e) ↦ rw (e, header) refl
]

module _ {J : Type 0} (platform : Platform J) where
  parsed_body_lem :
      (value : Value J) (body : Option Text)
      → IsStringified (parsed_body platform value) body
      → IsParsedBody platform value body
  parsed_body_lem (string s) body h = h
  parsed_body_lem falsy body h = h
  parsed_body_lem (buffer bytes) body h = h
  parsed_body_lem (object value) body h = h

  body_lem :
      (raw parsed : Value J) (body : Option Text)
      → IsStringified
          (elim raw [
            | string s ↦ json s
            | buffer bytes ↦ json (platform.to_utf8_string bytes)
            | _ ↦ parsed_body platform parsed
          ])
          body
      → IsBody platform raw parsed body
  body_lem (string s) parsed body h = h
  body_lem (buffer bytes) parsed body h = h
  body_lem falsy parsed body h = parsed_body_lem parsed body h
  body_lem (object value) parsed body h = parsed_body_lem parsed body h

  pub request_body_lem :
      (req : MiddlewareReq J) (body : Option Text)
      → IsStringified (request_body platform req) body
      → IsBody platform req.raw_body req.body body
  unfolding request_body
  request_body_lem req body h = body_lem req.raw_body req.body body h
