-- ===== src/OauthMetadata.antt =====
-- src/oauth_metadata.rs: the metadata documents, and the registration of clients. A document is a
-- record; its JSON is of another package.
pub mod Registration
use typst_mcp.Common.{
  ℕ, zero, suc, ◌+◌, ◌-◌, ◌*◌, ◌/◌, ◌%◌, ◌^◌, ◌≤◌, ◌<◌, ◌≡◌, refl, sym, ap, ◌∙◌, ◌≢◌, ◌↔◌, ◌⊎◌, inl,
  inr, Bool, true, false, ◌&&◌, ◌||◌, Option, none, some, List, [], ◌∷◌, ◌++◌, map, arith, ltb, leb,
  ◌==◌, if◌then◌else◌, not, Bool-cases, Option-cases, is_some, is_none, length, All, any, all, sum,
  Has, Has-All, AreDistinct, take, drop, get_or, Result, ok, err, ◌>>=◌, ok_or, map_err, bind-eq-ok,
  map_err-eq-ok, Result-cases, if-cases, unwrap_or,
}
use typst_mcp.Common.Text.{Str, lit, strip_prefix, trim_end_slashes, trim_end_text}
use typst_mcp.Oidc.{OidcConfig}
use typst_mcp.OauthRedirect.{Url, is_allowed_redirect_uri}
use typst_mcp.Config.{Access, mcp_resource_url}

pub scopes_supported : OidcConfig → List Str
scopes_supported oidc = lit "openid" ∷ lit "profile" ∷ lit "offline_access" ∷ oidc.scope ∷ []

pub record ProtectedResourceMetadata : Type 0 where
  pub resource : Str
  pub authorization_servers : List Str
  pub bearer_methods_supported : List Str
  pub scopes_supported : List Str

-- `ProtectedResourceMetadata::from_config`.
pub resource_metadata : Access → OidcConfig → ProtectedResourceMetadata
unfolding scopes_supported
resource_metadata config oidc = record {
  resource = mcp_resource_url config;
  authorization_servers = config.public_url ∷ [];
  bearer_methods_supported = lit "header" ∷ [];
  scopes_supported = scopes_supported oidc;
}

pub record AuthorizationServerMetadata : Type 0 where
  pub issuer : Str
  pub authorization_endpoint : Str
  pub token_endpoint : Str
  pub jwks_uri : Str
  pub registration_endpoint : Option Str
  pub response_types_supported : List Str
  pub grant_types_supported : List Str
  pub code_challenge_methods_supported : List Str
  pub token_endpoint_auth_methods_supported : List Str
  pub scopes_supported : List Str
  pub response_modes_supported : List Str
  pub subject_types_supported : List Str
  pub id_token_signing_alg_values_supported : List Str

pub entra_tenant_base : Str → Str
entra_tenant_base issuer = trim_end_text (lit "/v2.0") (trim_end_slashes issuer)

pub entra_jwks_uri : Str → Str
unfolding entra_tenant_base
entra_jwks_uri issuer = entra_tenant_base issuer ++ lit "/discovery/v2.0/keys"

pub entra_authorize_url : Str → Str
unfolding entra_tenant_base
entra_authorize_url issuer = entra_tenant_base issuer ++ lit "/oauth2/v2.0/authorize"

pub entra_token_url : Str → Str
unfolding entra_tenant_base
entra_token_url issuer = entra_tenant_base issuer ++ lit "/oauth2/v2.0/token"

-- `AuthorizationServerMetadata::from_config`.
pub server_metadata : Access → OidcConfig → AuthorizationServerMetadata
unfolding scopes_supported entra_jwks_uri
server_metadata config oidc = record {
  issuer = config.public_url;
  authorization_endpoint = config.public_url ++ lit "/authorize";
  token_endpoint = config.public_url ++ lit "/token";
  jwks_uri = entra_jwks_uri oidc.issuer;
  registration_endpoint = elim config.dcr_client_id [
    | none ↦ none
    | some id ↦ some (config.public_url ++ lit "/register")
  ];
  response_types_supported = lit "code" ∷ [];
  grant_types_supported = lit "authorization_code" ∷ lit "refresh_token" ∷ [];
  code_challenge_methods_supported = lit "S256" ∷ [];
  token_endpoint_auth_methods_supported = lit "none" ∷ [];
  scopes_supported = scopes_supported oidc;
  response_modes_supported = lit "query" ∷ [];
  subject_types_supported = lit "public" ∷ [];
  id_token_signing_alg_values_supported = lit "RS256" ∷ [];
}

-- A status and a body.
pub data Refused : Type 0 where
  refused : ℕ → Str → Refused

-- `protected_resource_metadata` and `authorization_server_metadata`.
pub protected_resource_metadata :
    Access → Option OidcConfig → Result ProtectedResourceMetadata Refused
unfolding resource_metadata
protected_resource_metadata config none =
    err (refused 404 (lit "this server does not accept OIDC credentials"))
protected_resource_metadata config (some oidc) = ok (resource_metadata config oidc)

pub authorization_server_metadata :
    Access → Option OidcConfig → Result AuthorizationServerMetadata Refused
unfolding server_metadata
authorization_server_metadata config none =
    err (refused 404 (lit "this server does not accept OIDC credentials"))
authorization_server_metadata config (some oidc) = ok (server_metadata config oidc)

-- `str::contains` of a text.
pub contains_text : Str → Str → Bool
contains_text p [] = is_some (strip_prefix p [])
contains_text p (c ∷ s) = is_some (strip_prefix p (c ∷ s)) || contains_text p s

pub qualified_api_scope : Str → Str → Str
unfolding contains_text
qualified_api_scope audience scope =
    if contains_text (lit "://") scope || is_some (strip_prefix audience scope)
    then scope
    else trim_end_slashes audience ++ b'/' ∷ scope

-- The document that answers a registration.
pub record Registered : Type 0 where
  pub client_id : Str
  pub token_endpoint_auth_method : Str
  pub grant_types : List Str
  pub response_types : List Str
  pub redirect_uris : List Str
  pub scope : Str
  pub client_id_issued_at : ℕ

scope_of : Option OidcConfig → Str
unfolding qualified_api_scope
scope_of none = lit "openid profile offline_access"
scope_of (some oidc) =
    lit "openid profile offline_access " ++ qualified_api_scope oidc.audience oidc.scope

module _ (parse_url : Str → Option Url) where
  -- `register`, with the texts among the `redirect_uris` of the body, and the time.
  pub register : Access → Option OidcConfig → List Str → ℕ → Result Registered Refused
  unfolding scope_of
  register config oidc redirect_uris now_unix = elim config.dcr_client_id [
    | none ↦ err (refused 404 (lit "dynamic client registration is not configured\n"))
    | some client_id ↦
        if any (λ uri. not (is_allowed_redirect_uri parse_url config.oauth_redirect_uris uri))
          redirect_uris
        then err (refused 400 (lit "unregistered redirect_uri\n"))
        else ok (record {
          client_id = client_id;
          token_endpoint_auth_method = lit "none";
          grant_types = lit "authorization_code" ∷ lit "refresh_token" ∷ [];
          response_types = lit "code" ∷ [];
          redirect_uris = redirect_uris;
          scope = scope_of oidc;
          client_id_issued_at = now_unix;
        })
  ]
