-- ===== src/ReplayGuard/Agrees.antt =====
-- The replay guard's copy of the signing functions against the originals and against `verify`.
use self_agent_id.Base.{ℕ, sym, ◌∙◌, ◌≡◌, refl, Option, none, some, Text, codes, arith}
use self_agent_id.Signing.{
  Ethers, UrlParser, UrlParts, canonicalize_signing_url, compute_signing_message, signing_text,
  compute_body_hash, path_and_search,
}
use self_agent_id.Signing.Canonical.{HasRootedPaths, IsHttpUrl}
use self_agent_id.Verifier.Auth.{World, VerifyParams, Signed, signed, authenticate}
use self_agent_id.Verifier.Signer.{authenticate-signed}
use self_agent_id.AgentSdk.Signs.{message_received}
use self_agent_id.ReplayGuard.{compute_message, canonicalize_url, path_or}

path_or_agrees : (o : Option UrlParts) (url : Text) → path_or url o ≡ path_and_search o url
path_or_agrees none url = refl
path_or_agrees (some parsed) url = refl

canonicalize_url-eq :
    (parser : UrlParser) (url : Text)
    → canonicalize_url parser url ≡ canonicalize_signing_url parser url
unfolding canonicalize_url canonicalize_signing_url
canonicalize_url-eq parser url = ground (
  arith,
  path_or_agrees (parser.parse url none) url,
  path_or_agrees (parser.parse url (some (codes "http://self.local"))) url,
)

compute_message-eq :
    (ethers : Ethers) (parser : UrlParser) (timestamp method url : Text) (body : Option Text)
    → compute_message ethers parser timestamp method url body
      ≡ compute_signing_message ethers parser timestamp method url body
unfolding compute_message compute_signing_message signing_text compute_body_hash
compute_message-eq ethers parser timestamp method url body =
    rw (compute_message, canonicalize_url-eq parser url) refl

-- The replay guard of the app and the verifier of the SDK take a request for the same one. Where
-- `verify` proves the signer of a request, by whatever kind of key, the message that the guard puts in
-- its key is the one that the signature was checked against, and also the one that the agent signs for
-- this timestamp, method, URL and body. `verify` canonicalizes the URL twice, and the guard and the
-- agent once, so the URL has to begin with `http://`, `https://`, `?` or `/`, or to have no colon: for
-- such URLs the URL parser's paths are taken to be empty or to begin with a slash.
pub compute_message-signed :
    (w : World) (max_age : ℕ) (params : VerifyParams) (s : Signed)
    → HasRootedPaths w.parser
    → IsHttpUrl params.url
    → authenticate w max_age params ≡ signed s
    → (compute_message w.ethers w.parser params.timestamp params.method params.url params.body
        ≡ s.message)
      × (s.message
          ≡ compute_signing_message w.ethers w.parser params.timestamp params.method params.url
              params.body)
compute_message-signed w max_age params s rooted http proved =
    let checked = (authenticate-signed w max_age params s proved).2 in
    let sent =
      message_received w params.timestamp params.method params.url params.body params rooted http
        refl refl refl refl in
    (
      compute_message-eq w.ethers w.parser params.timestamp params.method params.url params.body
          ∙ sym (checked ∙ sent),
      checked ∙ sent,
    )
