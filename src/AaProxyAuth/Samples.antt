-- ===== src/AaProxyAuth/Samples.antt =====
-- Concrete encodings in the place of Node's, for the theorems at concrete requests: a payload is
-- written with the lengths of its texts, and bytes are moved out of the way of the dot.
use self_agent_id.Base.{
  ℕ, ◌+◌, ◌-◌, ◌≡◌, refl, ◌==◌, false, Option, none, some, List, [], ◌∷◌, ◌++◌, Text, length, take,
  drop, take-append, drop-append, All, arith, if◌then◌else◌,
}
use mathlib.Core.Option
use self_agent_id.Base.Int.{ℤ, pos, negsuc}
use self_agent_id.AaProxyAuth.{Node, TokenPayload, payload_json, payload_of}
use self_agent_id.AaProxyAuth.Issue.{IsFaithful, payload_of-payload_json}

abbrev write_int : ℤ → Text → Text
write_int (pos n) rest = 0 ∷ n ∷ rest
write_int (negsuc n) rest = 1 ∷ n ∷ rest

abbrev read_int : ℕ → ℕ → ℤ
read_int s n = if s == 0 then pos n else negsuc n

abbrev write : TokenPayload → Text
write p = write_int p.exp (length p.chain_id ∷ (p.chain_id ++ (length p.ip ∷ (p.ip ++ p.ua_hash))))

abbrev read_texts : ℤ → Text → Text → Option TokenPayload
read_texts exp chain_id [] = none
read_texts exp chain_id (m ∷ rest) =
    some (record { exp = exp; chain_id = chain_id; ip = take m rest; ua_hash = drop m rest })

abbrev read : Text → Option TokenPayload
read (s ∷ n ∷ l ∷ rest) = read_texts (read_int s n) (take l rest) (drop l rest)
read _ = none

abbrev payload : ℤ → Text → Text → Text → TokenPayload
payload exp chain_id ip ua_hash = record {
  exp = exp;
  chain_id = chain_id;
  ip = ip;
  ua_hash = ua_hash;
}

texts_lem :
    (exp : ℤ) (c i u : Text)
    → read_texts exp
        (take (length c) (c ++ (length i ∷ (i ++ u))))
        (drop (length c) (c ++ (length i ∷ (i ++ u))))
      ≡ some (payload exp c i u)
texts_lem exp c i u =
    rw
      (
        take-append c (length i ∷ (i ++ u)),
        drop-append c (length i ∷ (i ++ u)),
        take-append i u,
        drop-append i u,
      )
      refl

read-write : (exp : ℤ) (c i u : Text) → read (write (payload exp c i u)) ≡ some (payload exp c i u)
read-write (pos n) c i u = texts_lem (pos n) c i u
read-write (negsuc n) c i u = texts_lem (negsuc n) c i u

abbrev shift : List ℕ → Text
shift [] = []
shift (b ∷ bytes) = (b + 47) ∷ shift bytes

abbrev unshift : Text → List ℕ
unshift [] = []
unshift (c ∷ s) = (c - 47) ∷ unshift s

unshift-shift : (bytes : List ℕ) → unshift (shift bytes) ≡ bytes
unshift-shift [] = refl
unshift-shift (b ∷ bytes) =
    let back : b + 47 - 47 ≡ b = omega arith in rw (back, unshift-shift bytes) refl

abbrev start : Text → List ℕ
start [] = []
start (c ∷ s) = unshift s

abbrev write_option : Option TokenPayload → Text
write_option none = []
write_option (some p) = write p

abbrev pub sample_node : Node
unfolding payload_of
sample_node = record {
  hmac_sha256 = λ secret text. secret ++ text;
  sha256_hex = λ text. text;
  to_base64_url = λ bytes. 65 ∷ shift bytes;
  from_base64_url = start;
  to_utf8 = λ text. text;
  from_utf8 = λ bytes. bytes;
  stringify = λ json. write_option (payload_of json);
  parse = λ text. Option.map payload_json (read text);
  parse_url = λ text. some (record { origin = text; host = text });
}

shift_no_dot : (bytes : List ℕ) → All (λ c. (c == b'.') ≡ false) (shift bytes)
shift_no_dot [] = tt
shift_no_dot (b ∷ bytes) = (ground arith, shift_no_dot bytes)

pub sample_node-IsFaithful : IsFaithful sample_node
unfolding payload_of
sample_node-IsFaithful = record {
  reads_back = λ p.
      rw (payload_of-payload_json p)
        (rw (unshift-shift (write p)) (rw (read-write p.exp p.chain_id p.ip p.ua_hash) refl));
  no_dot = λ bytes. (refl, shift_no_dot bytes);
  payload_text = λ p e. cc;
  digest_text = λ secret text e. cc;
}
