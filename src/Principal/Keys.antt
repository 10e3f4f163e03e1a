-- ===== src/Principal/Keys.antt =====
-- API keys of src/principal.rs: `ApiKey::parse`, `ApiKeys::parse` and `ApiKeys::authenticate`.
pub mod Config
pub mod Matching
mod Tests
use typst_mcp.Common.{
  ℕ, zero, suc, ◌+◌, ◌-◌, ◌*◌, ◌/◌, ◌%◌, ◌^◌, ◌≤◌, ◌<◌, ◌≡◌, refl, sym, ap, ◌∙◌, ◌≢◌, ◌↔◌, ◌⊎◌, inl,
  inr, Bool, true, false, ◌&&◌, ◌||◌, Option, none, some, List, [], ◌∷◌, ◌++◌, map, arith, ltb, leb,
  ◌==◌, if◌then◌else◌, not, Bool-cases, Option-cases, is_some, is_none, length, All, any, all, sum,
  Has, Has-All, AreDistinct, take, drop, get_or, Result, ok, err, ◌>>=◌, ok_or, map_err, bind-eq-ok,
  map_err-eq-ok,
}
use typst_mcp.Common.Text.{
  Str, lit, bytes, len, str_eq, is_empty, is_ascii_alphanumeric, trim, split, split_once,
}
use typst_mcp.Principal.{Principal, service, min_api_key_bytes, max_api_key_label_bytes}

pub record ApiKey : Type 0 where
  pub label : Str
  pub secret : Str
  pub fingerprint : Str

pub data ApiKeyConfigError : Type 0 where
  empty_entry malformed : (position : ℕ) → ApiKeyConfigError
  secret_too_short : (position actual : ℕ) → ApiKeyConfigError
  duplicate_label : (label : Str) → ApiKeyConfigError
  duplicate_secret : (position : ℕ) → ApiKeyConfigError

unfoldable pub is_label_byte : ℕ → Bool
is_label_byte b = is_ascii_alphanumeric b || b == b'.' || b == b'_' || b == b'-'

pub is_malformed : Str → Str → Bool
is_malformed label secret =
    is_empty label
    || is_empty secret
    || not (str_eq (trim label) label)
    || not (str_eq (trim secret) secret)
    || ltb max_api_key_label_bytes (len label)
    || not (all is_label_byte (bytes label))

-- `HashSet::contains` of texts or digests.
pub contains : List ℕ → List (List ℕ) → Bool
contains s set = any (λ t. str_eq t s) set

-- `ApiKey::principal`.
pub principal : ApiKey → Principal
principal key = service key.label

module _ (sha256 : List ℕ → List ℕ) where
  -- `ApiKey::matches`: digests are compared.
  pub matches : ApiKey → Str → Bool
  matches key presented = str_eq (sha256 (bytes key.secret)) (sha256 (bytes presented))

  authenticate_from : Option ApiKey → List ApiKey → Str → Option ApiKey
  authenticate_from found [] presented = found
  authenticate_from found (key ∷ keys) presented =
      authenticate_from (if matches key presented then some key else found) keys presented

  -- `ApiKeys::authenticate`: every entry is looked at, and the last match is returned.
  pub authenticate : List ApiKey → Str → Option ApiKey
  unfolding authenticate_from
  authenticate keys presented = authenticate_from none keys presented

module _ (sha256 : List ℕ → List ℕ) (hex : List ℕ → Str) where
  -- `fingerprint`: the first 16 hexadecimal digits of the digest.
  pub fingerprint : Str → Str
  fingerprint secret = take 16 (hex (sha256 (bytes secret)))

  check_parts : Str → Str → ℕ → Result ApiKey ApiKeyConfigError
  check_parts label secret position =
      if is_malformed label secret
      then err (malformed position)
      else if ltb (len secret) min_api_key_bytes
      then err (secret_too_short position (len secret))
      else ok (record { label = label; secret = secret; fingerprint = fingerprint secret })

  -- `ApiKey::parse`.
  pub parse_key : Str → ℕ → Result ApiKey ApiKeyConfigError
  unfolding check_parts
  parse_key raw position =
      let entry = trim raw in
      if is_empty entry then err (empty_entry position) else do
        parts ← ok_or (split_once b':' entry) (malformed position)
        check_parts parts.0 parts.1 position

  -- The loop of `ApiKeys::parse`; `index` counts from 0.
  pub parse_entries :
      ℕ → List Str → List Str → List (List ℕ) → List ApiKey → Result (List ApiKey) ApiKeyConfigError
  parse_entries index [] labels secrets keys = ok keys
  parse_entries index (entry ∷ entries) labels secrets keys = do
    key ← parse_key entry (index + 1)
    if contains key.label labels
        then err (duplicate_label key.label)
        else if contains (sha256 (bytes key.secret)) secrets
        then err (duplicate_secret (index + 1))
        else parse_entries (index + 1) entries (key.label ∷ labels)
            (sha256 (bytes key.secret) ∷ secrets) (keys ++ key ∷ [])

  -- `ApiKeys::parse`.
  pub parse_keys : Str → Result (List ApiKey) ApiKeyConfigError
  unfolding parse_entries
  parse_keys value =
      if is_empty (trim value) then ok [] else parse_entries 0 (split b',' value) [] [] []
