-- ===== src/Signing/Canonical.antt =====
-- The canonical URL: `verify` canonicalizes the URL before it calls
-- `computeSigningMessage`, which canonicalizes it again.
use self_agent_id.Base.{
  Bool-cases, Option-cases, ap, Text, Option, none, some, ◌≡◌, refl, ◌⊎◌, inl, inr, true,
  starts_with, is_empty, codes, arith, All, Bool, false, ◌==◌, [], ◌∷◌, ◌++◌, ◌||◌,
}
use self_agent_id.Signing.{UrlParser, UrlParts, canonicalize_signing_url, path_and_search}

abbrev pub IsRooted : UrlParts → Type 0
IsRooted parts = (is_empty parts.pathname ≡ true) ⊎ (starts_with parts.pathname (codes "/") ≡ true)

abbrev pub is_absolute : Text → Bool
is_absolute url = starts_with url (codes "http://") || starts_with url (codes "https://")

-- Without a colon no part of a URL is read as its scheme.
abbrev pub NoColon : Text → Type 0
NoColon url = All (λ c. (c == b':') ≡ false) url

-- What the URL standard says of the paths of http URLs: they are empty or begin with "/". A relative
-- URL without a scheme takes that of its base.
pub record HasRootedPaths (parser : UrlParser) : Type 0 where
  pub absolute :
      (url : Text) (parts : UrlParts)
      → is_absolute url ≡ true
      → parser.parse url none ≡ some parts
      → IsRooted parts
  pub relative :
      (url : Text) (parts : UrlParts)
      → NoColon url
      → parser.parse url (some (codes "http://self.local")) ≡ some parts
      → IsRooted parts

-- A URL of the scheme http or https: absolute, a query, a path from the root, or another relative URL,
-- which has no colon. Others, such as `mailto:x`, name a scheme of their own.
abbrev pub IsHttpUrl : Text → Type 0
IsHttpUrl url =
    ((is_absolute url || starts_with url (codes "?") || starts_with url (codes "/")) ≡ true)
    ⊎ NoColon url

canonical_of_slash :
    (parser : UrlParser) (url : Text)
    → starts_with url (codes "/") ≡ true
    → canonicalize_signing_url parser url ≡ url
unfolding canonicalize_signing_url starts_with
canonical_of_slash parser [] h = cc
canonical_of_slash parser (c ∷ url) h = ground arith

starts_with-append :
    (s t : Text) → starts_with s (codes "/") ≡ true → starts_with (s ++ t) (codes "/") ≡ true
unfolding starts_with
starts_with-append [] t h = cc
starts_with-append (c ∷ s) t h = ground arith

path_and_search_rooted :
    (parts : UrlParts) (url : Text)
    → IsRooted parts
    → starts_with (path_and_search (some parts) url) (codes "/") ≡ true
unfolding starts_with
path_and_search_rooted parts url rooted = elim (Bool-cases (is_empty parts.pathname)) [
  | inl empty ↦ rw empty refl
  | inr full ↦ rw full (starts_with-append parts.pathname parts.search (ground arith))
]

-- A URL that failed to parse is its own canonical form; a parsed one begins with "/".
parsed_shape :
    (parser : UrlParser) (url : Text) (base : Option Text)
    → ((parts : UrlParts) → parser.parse url base ≡ some parts → IsRooted parts)
    → (path_and_search (parser.parse url base) url ≡ url)
      ⊎ (starts_with (path_and_search (parser.parse url base) url) (codes "/") ≡ true)
parsed_shape parser url base rooted = elim (Option-cases (parser.parse url base)) [
  | inl failed ↦ inl (rw failed)
  | inr (parts, parsed) ↦ inr (rw parsed (path_and_search_rooted parts url (rooted parts parsed)))
]

no_colon :
    (url : Text)
    → IsHttpUrl url
    → is_absolute url ≡ false
    → starts_with url (codes "?") ≡ false
    → starts_with url (codes "/") ≡ false
    → NoColon url
no_colon url (inr plain) h k l = plain
no_colon url (inl e) h k l = absurd (ground arith)

pub canonical_shape :
    (parser : UrlParser) (url : Text)
    → HasRootedPaths parser
    → IsHttpUrl url
    → (canonicalize_signing_url parser url ≡ url)
      ⊎ (starts_with (canonicalize_signing_url parser url) (codes "/") ≡ true)
unfolding canonicalize_signing_url starts_with
canonical_shape parser [] rooted http = inl refl
canonical_shape parser (c ∷ s) rooted http =
    let url : Text = c ∷ s in
    elim (Bool-cases (is_absolute url)) [
      | inl absolute ↦
          rw (absolute, canonicalize_signing_url)
            (parsed_shape parser url none (λ parts. rooted.absolute url parts absolute))
      | inr relative ↦ elim (Bool-cases (starts_with url (codes "?"))) [
        | inl query ↦ rw (relative, query, canonicalize_signing_url) (inr refl)
        | inr path ↦ elim (Bool-cases (starts_with url (codes "/"))) [
          | inl rooted_path ↦ rw (relative, path, rooted_path, canonicalize_signing_url) (inl refl)
          | inr bare ↦
              rw (relative, path, bare, canonicalize_signing_url)
                (parsed_shape parser url (some (codes "http://self.local"))
                  (λ parts. rooted.relative url parts (no_colon url http relative path bare)))
        ]
      ]
    ]

-- Canonicalizing a second time changes nothing, for each kind of http URL: empty, absolute, query
-- only, rooted, relative and malformed.
pub canonicalize_idempotent :
    (parser : UrlParser) (url : Text)
    → HasRootedPaths parser
    → IsHttpUrl url
    → canonicalize_signing_url parser (canonicalize_signing_url parser url)
      ≡ canonicalize_signing_url parser url
canonicalize_idempotent parser url rooted http = elim (canonical_shape parser url rooted http) [
  | inl same ↦ ap (canonicalize_signing_url parser) same
  | inr slash ↦ canonical_of_slash parser (canonicalize_signing_url parser url) slash
]
