-- ===== src/ReplayGuard.antt =====
-- app/lib/replayGuard.ts: the replay guard of the API routes on the security store. It has its own
-- copy of the functions of typescript-sdk/src/signing.ts.
pub mod Agrees
pub mod Window
mod Examples
use self_agent_id.Base.{
  ℕ, ◌+◌, ◌-◌, ◌*◌, Bool, true, false, ◌||◌, Option, none, some, [], ◌∷◌, ◌++◌, Text, codes, max,
  if◌then◌else◌, get_or_else, is_empty, starts_with, to_upper, to_lower,
}
use self_agent_id.Base.Int.{ℤ, add_ℕ}
use self_agent_id.Signing.{Ethers, UrlParser, UrlParts, parse_int}
use self_agent_id.SecurityStore.{Store, set_if_absent_with_ttl}

abbrev pub default_guard_age_ms : ℕ
default_guard_age_ms = 5 * 60 * 1000

abbrev pub path_or : Text → Option UrlParts → Text
path_or url none = url
path_or url (some parsed) =
    (if is_empty parsed.pathname then codes "/" else parsed.pathname) ++ parsed.search

unfoldable pub canonicalize_url : UrlParser → Text → Text
canonicalize_url parser url =
    if is_empty url
    then []
    else (if starts_with url (codes "http://") || starts_with url (codes "https://")
        then path_or url (parser.parse url none)
        else (if starts_with url (codes "?")
            then codes "/" ++ url
            else (if starts_with url (codes "/")
                then url
                else path_or url (parser.parse url (some (codes "http://self.local"))))))

pub record GuardParams : Type 0 where
  pub signature : Text
  pub timestamp : Text
  pub method : Text
  pub url : Text
  pub body : Option Text
  pub max_age_ms : Option ℕ
  pub scope : Option Text

pub data GuardResult : Type 0 where
  ok invalid_timestamp replay_detected : GuardResult

module _ (ethers : Ethers) (parser : UrlParser) where
  unfoldable pub compute_message : Text → Text → Text → Option Text → Text
  unfolding canonicalize_url
  compute_message timestamp method url body =
      let body_hash = ethers.keccak256 (ethers.to_utf8_bytes (get_or_else body [])) in
      ethers.keccak256 (
        ethers.to_utf8_bytes
          (timestamp ++ (to_upper method ++ (canonicalize_url parser url ++ body_hash))))

  unfoldable pub guard_key : GuardParams → Text
  unfolding compute_message
  guard_key params =
      codes "replay:"
      ++ (get_or_else params.scope (codes "self")
          ++ (codes ":"
              ++ (to_lower params.signature
                  ++ (codes ":"
                      ++ to_lower (
                          compute_message params.timestamp params.method params.url params.body)))))

  -- The time to live of the key, at the reading `now` of the clock.
  abbrev pub guard_ttl : ℕ → ℤ → GuardParams → ℕ
  guard_ttl now ts params =
      max 1 (add_ℕ ts (get_or_else params.max_age_ms default_guard_age_ms) - now)

  abbrev pub guard_answer : Bool → GuardResult
  guard_answer inserted = if inserted then ok else replay_detected

  -- `checkAndRecordReplay`: the store reads the clock again, at `stored`.
  unfoldable pub check_and_record_replay :
      {S : Type 0} → ℕ → ℕ → GuardParams → Store S → GuardResult × Store S
  unfolding guard_key
  check_and_record_replay now stored params store = elim (parse_int params.timestamp) [
    | none ↦ (invalid_timestamp, store)
    | some ts ↦
        let out =
          set_if_absent_with_ttl stored (guard_key params) (guard_ttl now ts params) store in
        (guard_answer out.0, out.1)
  ]
