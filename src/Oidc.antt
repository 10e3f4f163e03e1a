-- ===== src/Oidc.antt =====
-- src/oidc.rs: validation of access tokens. What reads and verifies a token, and what fetches over
-- the network, come from other packages and are parameters; a time is a number of nanoseconds.
pub mod Keys
pub mod Validate
use typst_mcp.Common.{
  ℕ, zero, suc, ◌+◌, ◌-◌, ◌*◌, ◌/◌, ◌%◌, ◌^◌, ◌≤◌, ◌<◌, ◌≡◌, refl, sym, ap, ◌∙◌, ◌≢◌, ◌↔◌, ◌⊎◌, inl,
  inr, Bool, true, false, ◌&&◌, ◌||◌, Option, none, some, List, [], ◌∷◌, ◌++◌, map, arith, ltb, leb,
  ◌==◌, if◌then◌else◌, not, Bool-cases, Option-cases, is_some, is_none, length, All, any, all, sum,
  Has, Has-All, AreDistinct, take, drop, get_or, Result, ok, err, ◌>>=◌, ok_or, map_err, bind-eq-ok,
  map_err-eq-ok, Result-cases, if-cases, unwrap_or,
}
use typst_mcp.Common.Text.{Str, lit, str_eq, split_whitespace, last_piece, join}

abbrev pub second : ℕ
second = 1000000000

abbrev pub jwks_ttl : ℕ
jwks_ttl = 3600 * second

abbrev pub jwks_refresh_interval : ℕ
jwks_refresh_interval = 30 * second

abbrev pub fetch_failure_backoff : ℕ
fetch_failure_backoff = 5 * second

abbrev pub unknown_kid_ttl : ℕ
unknown_kid_ttl = 30 * second

abbrev pub unknown_kid_cap : ℕ
unknown_kid_cap = 1024

abbrev pub max_kid_bytes : ℕ
max_kid_bytes = 256

abbrev pub clock_skew_seconds : ℕ
clock_skew_seconds = 60

pub data TokenError : Type 0 where
  token_malformed unknown_key token_rejected token_provider_unavailable : TokenError

-- `OidcConfig` of src/config.rs.
pub record OidcConfig : Type 0 where
  pub issuer : Str
  pub tenant_id : Option Str
  pub audience : Str
  pub scope : Str
  pub extra_audiences : List Str

pub data Audience : Type 0 where
  one : Str → Audience
  many : List Str → Audience
  absent : Audience

-- `Audience::contains`.
pub accepts : Audience → Str → Bool
accepts (one value) wanted = str_eq value wanted
accepts (many values) wanted = any (λ v. str_eq v wanted) values
accepts absent wanted = false

-- `Audience::fmt`, for the log.
pub show_audience : Audience → Str
show_audience (one value) = value
show_audience (many values) = join (lit ",") values
show_audience absent = lit "<absent>"

pub record Claims : Type 0 where
  pub sub : Str
  pub iss : Str
  pub aud : Audience
  pub tid : Option Str
  pub scp : Option Str
  pub roles : List Str
  pub name : Option Str

-- The closure `matches` of `has_scope`.
pub is_scope : Str → Str → Bool
is_scope wanted value = str_eq value wanted || str_eq (last_piece b'/' value) wanted

pub any_scope : Str → Option Str → Bool
unfolding is_scope
any_scope wanted none = false
any_scope wanted (some scp) = any (is_scope wanted) (split_whitespace scp)

-- `TokenValidator::has_scope`.
pub has_scope : OidcConfig → Claims → Bool
unfolding any_scope
has_scope config claims =
    any_scope config.scope claims.scp || any (is_scope config.scope) claims.roles
