-- ===== src/Auth.antt =====
-- src/auth.rs: the two doors, for API keys and for OIDC tokens. What reads a header as text and what
-- validates a token are parameters; the metrics are the list of the reasons that were counted.
pub mod Doors
use typst_mcp.Common.{
  ℕ, zero, suc, ◌+◌, ◌-◌, ◌*◌, ◌/◌, ◌%◌, ◌^◌, ◌≤◌, ◌<◌, ◌≡◌, refl, sym, ap, ◌∙◌, ◌≢◌, ◌↔◌, ◌⊎◌, inl,
  inr, Bool, true, false, ◌&&◌, ◌||◌, Option, none, some, List, [], ◌∷◌, ◌++◌, map, arith, ltb, leb,
  ◌==◌, if◌then◌else◌, not, Bool-cases, Option-cases, is_some, is_none, length, All, any, all, sum,
  Has, Has-All, AreDistinct, take, drop, get_or, Result, ok, err, ◌>>=◌, ok_or, map_err, bind-eq-ok,
  map_err-eq-ok, Result-cases, if-cases, unwrap_or,
}
use typst_mcp.Common.Text.{Str, lit, is_empty, trim_start, split_once, eq_ignore_ascii_case}
use typst_mcp.Oidc.{
  TokenError, token_malformed, unknown_key, token_rejected, token_provider_unavailable,
}
use typst_mcp.Principal.{Principal, display}
use typst_mcp.Principal.Keys
use typst_mcp.Principal.Keys.{ApiKey}

pub record Authenticated : Type 0 where
  pub principal : Principal
  pub fingerprint : Str

pub data AuthError : Type 0 where
  missing malformed rejected unavailable provider_unavailable : AuthError

-- `AuthError::metric_reason`.
pub metric_reason : AuthError → Str
metric_reason missing = lit "missing"
metric_reason malformed = lit "malformed"
metric_reason rejected = lit "rejected"
metric_reason unavailable = lit "unconfigured"
metric_reason provider_unavailable = lit "provider_unavailable"

-- `AuthError::message`.
pub message : AuthError → Str
message missing = lit "this endpoint requires an Authorization: Bearer credential"
message malformed = lit "the Authorization header must be `Bearer <credential>`"
message rejected = lit "the credential was not accepted"
message unavailable = lit "this endpoint is not configured on this server"
message provider_unavailable =
    lit "the identity provider could not be reached; this is a server-side "
    ++ lit "problem, so retry rather than re-authenticating"

-- `AuthError::status`.
unfoldable pub status : AuthError → ℕ
status provider_unavailable = 503
status _ = 401

-- The credential of a header that is there and readable.
pub credential_of : Str → Result Str AuthError
credential_of value = do
  parts ← ok_or (split_once b' ' value) malformed
  if not (eq_ignore_ascii_case parts.0 (lit "bearer"))
      then err malformed
      else if is_empty (trim_start parts.1)
      then err malformed
      else ok (trim_start parts.1)

module _ (to_str : List ℕ → Option Str) where
  -- `bearer`, on the Authorization header.
  pub bearer : Option (List ℕ) → Result Str AuthError
  unfolding credential_of
  bearer header = do
    raw ← ok_or header missing
    value ← ok_or (to_str raw) malformed
    credential_of value

-- A failure is counted.
counted : Result Authenticated AuthError → List Str → Result Authenticated AuthError × List Str
unfolding metric_reason
counted (ok a) metrics = (ok a, metrics)
counted (err e) metrics = (err e, metrics ++ metric_reason e ∷ [])

module _ (to_str : List ℕ → Option Str) (sha256 : List ℕ → List ℕ) where
  check_key : List ApiKey → Option (List ℕ) → Result Authenticated AuthError
  unfolding bearer
  check_key keys header = if length keys == 0 then err unavailable else do
    presented ← bearer to_str header
    key ← ok_or (Keys.authenticate sha256 keys presented) rejected
    ok (record { principal = Keys.principal key; fingerprint = key.fingerprint })

  -- `ApiKeyAuth::authenticate`.
  pub authenticate_key :
      List ApiKey → Option (List ℕ) → List Str → Result Authenticated AuthError × List Str
  unfolding check_key counted
  authenticate_key keys header metrics = counted (check_key keys header) metrics

module _ (to_str : List ℕ → Option Str) (sha256 : List ℕ → List ℕ) (hex : List ℕ → Str) where
  abbrev door_error : TokenError → AuthError
  door_error token_provider_unavailable = provider_unavailable
  door_error token_malformed = malformed
  door_error unknown_key = rejected
  door_error token_rejected = rejected

  check_token :
      Option (Str → Result Principal TokenError) → Option (List ℕ) → Result Authenticated AuthError
  unfolding bearer
  check_token none header = err unavailable
  check_token (some validate) header = do
    token ← bearer to_str header
    principal ← map_err door_error (validate token)
    ok (record {
      principal = principal;
      fingerprint = Keys.fingerprint sha256 hex (display principal);
    })

  -- `OidcAuth::authenticate`.
  pub authenticate_token :
      Option (Str → Result Principal TokenError)
      → Option (List ℕ)
      → List Str
      → Result Authenticated AuthError × List Str
  unfolding check_token counted
  authenticate_token validator header metrics = counted (check_token validator header) metrics

-- The challenge of `OidcAuth::with_metrics`.
pub oidc_challenge : Option Str → Str → Str
oidc_challenge none metadata_url = lit "Bearer"
oidc_challenge (some scope) metadata_url =
    lit "Bearer resource_metadata=\"" ++ metadata_url ++ lit "\", scope=\"" ++ scope ++ lit "\""

-- `require_api_key` and `require_oidc`: a caller that is authenticated goes on to the handler, and any
-- other is answered with its error and the challenge.
pub require {ℓ} :
    {R : Type ℓ}
    → (Authenticated → R)
    → (AuthError → Str → R)
    → Str
    → Result Authenticated AuthError
    → R
require next unauthorized challenge (ok a) = next a
require next unauthorized challenge (err e) = unauthorized e challenge
