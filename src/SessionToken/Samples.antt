-- ===== src/SessionToken/Samples.antt =====
-- Concrete functions in the place of Node's, for the theorems at concrete sessions: a cipher whose
-- tag is made from the key, letters far from those of base64, and a JSON of objects of texts.
use self_agent_id.Base.{
  suc, false, ℕ, zero, suc, ◌+◌, ◌-◌, ◌≡◌, refl, Option, none, some, List, [], ◌∷◌, ◌++◌, Text,
  eq_text, eq_text_refl, length, take, drop, All, arith, if◌then◌else◌, ◌==◌, head_or,
}
use self_agent_id.Base.Int.{pos, ℤ}
use self_agent_id.A2aTypes.{Json, Fields, string, object, field, no_more}
use self_agent_id.SessionToken.{Node, strip_equals, strip_cons}
use self_agent_id.SessionToken.Opens.{IsFaithful}

abbrev shift : List ℕ → Text
shift [] = []
shift (b ∷ bytes) = (b + 100) ∷ shift bytes

abbrev unshift : Text → List ℕ
unshift [] = []
unshift (c ∷ s) = (c - 100) ∷ unshift s

unshift-shift : (bytes : List ℕ) → unshift (shift bytes) ≡ bytes
unshift-shift [] = refl
unshift-shift (b ∷ bytes) =
    let back : b + 100 - 100 ≡ b = omega arith in rw (back, unshift-shift bytes) refl

strip_cons-shift : (b : ℕ) (s : Text) → strip_cons (b + 100) s ≡ (b + 100) ∷ s
strip_cons-shift b [] = ground arith
strip_cons-shift b (d ∷ s) = refl

strip_equals-shift : (bytes : List ℕ) → strip_equals (shift bytes) ≡ shift bytes
strip_equals-shift [] = refl
strip_equals-shift (b ∷ bytes) = rw (strip_equals-shift bytes) (strip_cons-shift b (shift bytes))

letters-shift :
    (bytes : List ℕ) → All (λ c. ((c == b'-') ≡ false) × ((c == b'_') ≡ false)) (shift bytes)
letters-shift [] = tt
letters-shift (b ∷ bytes) = ((ground arith, ground arith), letters-shift bytes)

abbrev tag_of : List ℕ → List ℕ
tag_of key = head_or 0 key ∷ length key ∷ 0 ∷ 0 ∷ 0 ∷ 0 ∷ 0 ∷ 0 ∷ 0 ∷ 0 ∷ 0 ∷ 0 ∷ 0 ∷ 0 ∷ 0 ∷ 0 ∷ []

abbrev unseal : (key iv auth_tag encrypted : List ℕ) → Option (List ℕ)
unseal key iv auth_tag encrypted = if eq_text auth_tag (tag_of key) then some encrypted else none

abbrev write_fields : Fields → Text
write_fields (field name (string s) rest) =
    length name ∷ (name ++ (length s ∷ (s ++ write_fields rest)))
write_fields _ = []

abbrev write : Json → Text
write (object fields) = 123 ∷ write_fields fields
write _ = []

-- A text with its length in front, and what follows it.
abbrev read_text : Text → Text × Text
read_text [] = ([], [])
read_text (n ∷ rest) = (take n rest, drop n rest)

abbrev read_fields : ℕ → Text → Fields
read_fields zero s = no_more
read_fields (suc fuel) [] = no_more
read_fields (suc fuel) (n ∷ s) =
    let (name, rest) = read_text (n ∷ s) in
    let (value, more) = read_text rest in field name (string value) (read_fields fuel more)

abbrev read : Text → Option Json
read [] = none
read (c ∷ s) = some (object (read_fields (length s) s))

abbrev read_date : Json → Option ℤ
read_date (string (t ∷ [])) = some (pos t)
read_date _ = none

abbrev pub sample_node : Node
sample_node = record {
  sha256 = λ text. text;
  gcm_encrypt = λ key iv plain. (plain, tag_of key);
  gcm_decrypt = unseal;
  to_base64 = shift;
  from_base64 = unshift;
  to_utf8 = λ text. text;
  from_utf8 = λ bytes. bytes;
  stringify = write;
  parse = read;
  to_iso = λ t. t ∷ [];
  date_of = read_date;
  to_hex = λ bytes. bytes;
}

pub sample_node-IsFaithful : IsFaithful sample_node
sample_node-IsFaithful = record {
  base64_letters = letters-shift;
  decodes = λ bytes. rw (strip_equals-shift bytes) (unshift-shift bytes);
  tag_size = λ key iv plain. refl;
  same_size = λ key iv plain. refl;
  decrypts = λ key iv plain. rw (eq_text_refl (tag_of key)) refl;
  dates = λ t h. (refl, refl);
}
