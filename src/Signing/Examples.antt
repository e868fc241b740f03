-- ===== src/Signing/Examples.antt =====
-- Tests of signing, and its theorems at concrete requests.
use self_agent_id.Base.{
  ◌≡◌, refl, some, none, codes, to_upper, starts_with, [], Text, trim_start, is_white,
}
use self_agent_id.Base.Int.{pos, negsuc}
use self_agent_id.Signing.{
  canonicalize_signing_url, compute_signing_message, compute_body_hash, signing_text, parse_int,
}
use self_agent_id.Signing.Samples.{sample_ethers, sample_parser, length-sample}
use self_agent_id.Signing.Binding.{Signable, message_binds}

program : Unit {0}
unfolding canonicalize_signing_url compute_signing_message compute_body_hash signing_text parse_int
    to_upper starts_with trim_start is_white
program = tt

abbrev lower : Signable
lower = record {
  timestamp = codes "1700";
  method = codes "post";
  url = codes "/a?b=1";
  body = none;
}

abbrev upper : Signable
upper = record lower { method = codes "POST"; body = some [] }

-- `parseInt` skips white space, reads a sign and Stops at the first character that is no digit.
parse_int_tests :
    (parse_int (codes " +12ab") ≡ some (pos 12))
    × (parse_int (codes "-7") ≡ some (negsuc 6))
    × (parse_int (codes "ab") ≡ none)
unfolding program
parse_int_tests = (refl, refl, refl)

query_only : canonicalize_signing_url sample_parser (codes "?q") ≡ codes "/?q"
unfolding program
query_only = refl

message_binds_example :
    (lower.timestamp ≡ upper.timestamp)
    × (to_upper lower.method ≡ to_upper upper.method)
    × (canonicalize_signing_url sample_parser lower.url
        ≡ canonicalize_signing_url sample_parser upper.url)
    × (◌≡◌ {A = Text} [] [])
unfolding program
message_binds_example =
    message_binds sample_ethers sample_parser lower upper
      (record { digits = refl; letters = refl; rooted = refl })
      (record { digits = refl; letters = refl; rooted = refl }) length-sample (λ _. refl)
      (λ _. refl) (λ _. refl) refl
