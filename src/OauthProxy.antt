-- ===== src/OauthProxy.antt =====
-- src/oauth_proxy.rs: the OAuth proxy in front of the identity provider. The HMAC, the hash, the
-- encoders and the URL parser come from other packages and are parameters; the clock is an argument.
pub mod Sealing
pub mod Params
pub mod Requests
use typst_mcp.Common.{
  ℕ, zero, suc, ◌+◌, ◌-◌, ◌*◌, ◌/◌, ◌%◌, ◌^◌, ◌≤◌, ◌<◌, ◌≡◌, refl, sym, ap, ◌∙◌, ◌≢◌, ◌↔◌, ◌⊎◌, inl,
  inr, Bool, true, false, ◌&&◌, ◌||◌, Option, none, some, List, [], ◌∷◌, ◌++◌, map, arith, ltb, leb,
  ◌==◌, if◌then◌else◌, not, Bool-cases, Option-cases, is_some, is_none, length, All, any, all, sum,
  Has, Has-All, AreDistinct, take, drop, get_or, Result, ok, err, ◌>>=◌, ok_or, map_err, bind-eq-ok,
  map_err-eq-ok, Result-cases, if-cases, unwrap_or,
}
use typst_mcp.Common.Text.{Str, lit, bytes}
use typst_mcp.OauthRedirect.{Url}

abbrev pub pending_ttl : ℕ
pending_ttl = 600

abbrev pub max_client_state_bytes : ℕ
max_client_state_bytes = 4096

abbrev pub max_upstream_code_bytes : ℕ
max_upstream_code_bytes = 8192

-- What the state parameter carries through the identity provider.
pub record Pending : Type 0 where
  pub client_redirect_uri : Str
  pub client_state : Option Str
  pub code_challenge : Str
  pub issued_at : ℕ

-- What the code carries that the client redeems.
pub record PendingCode : Type 0 where
  pub upstream_code : Str
  pub client_redirect_uri : Str
  pub code_challenge : Str
  pub issued_at : ℕ

-- The code of other packages that the proxy calls.
pub record Packages : Type 0 where
  pub hmac : List ℕ → List ℕ → List ℕ
  pub sha256 : List ℕ → List ℕ
  pub base64url : List ℕ → Str
  pub decode_base64url : Str → Option (List ℕ)
  pub pending_json : Pending → Option (List ℕ)
  pub parse_pending : List ℕ → Option Pending
  pub code_json : PendingCode → Option (List ℕ)
  pub parse_code : List ℕ → Option PendingCode
  pub parse_url : Str → Option Url

-- `Inner`, without the client of the network.
pub record Proxy : Type 0 where
  pub entra_authorize : Str
  pub entra_token : Str
  pub callback_url : Str
  pub mcp_resource : Str
  pub api_scope : Str
  pub client_id : Str
  pub allowed_redirect_uris : List Str
  pub state_key : List ℕ
