-- ===== src/Config.antt =====
-- src/config.rs: the configuration, from a source of variables. What parses a socket address is of
-- the standard library and a parameter; a duration is a number of seconds and a path is its text.
pub mod Startup
use typst_mcp.Common.{
  ℕ, zero, suc, ◌+◌, ◌-◌, ◌*◌, ◌/◌, ◌%◌, ◌^◌, ◌≤◌, ◌<◌, ◌≡◌, refl, sym, ap, ◌∙◌, ◌≢◌, ◌↔◌, ◌⊎◌, inl,
  inr, Bool, true, false, ◌&&◌, ◌||◌, Option, none, some, List, [], ◌∷◌, ◌++◌, map, arith, ltb, leb,
  ◌==◌, if◌then◌else◌, not, Bool-cases, Option-cases, is_some, is_none, length, All, any, all, sum,
  Has, Has-All, AreDistinct, take, drop, get_or, Result, ok, err, ◌>>=◌, ok_or, map_err, bind-eq-ok,
  map_err-eq-ok, Result-cases, if-cases, unwrap_or,
}
use typst_mcp.Common.Text.{
  Str, lit, len, bytes, is_empty, trim, trim_end_slashes, trim_start_matches, split,
}
use typst_mcp.Common.Text.Decimal.{parse_unsigned}
use typst_mcp.Principal.Keys.{ApiKey, ApiKeyConfigError, parse_keys}
use typst_mcp.OauthRedirect.{Url, RedirectError, parse_allowlist}
use typst_mcp.Oidc.{OidcConfig}
use typst_mcp.Store.{Limits}

abbrev pub min_secret_bytes : ℕ
min_secret_bytes = 32

pub data ConfigError : Type 0 where
  missing : (name : Str) → ConfigError
  secret_too_short : (name : Str) (actual : ℕ) → ConfigError
  invalid : (name value expected : Str) → ConfigError
  api_keys : ApiKeyConfigError → ConfigError
  no_credentials : ConfigError

-- The variables, without their prefix.
abbrev pub Source : Type 0
Source = Str → Option Str

-- `filter(|v| !v.trim().is_empty())`.
pub filled : Option Str → Option Str
filled none = none
filled (some v) = if is_empty (trim v) then none else some v

pub required : Source → Str → Result Str ConfigError
unfolding filled
required get name = elim (filled (get name)) [ none ↦ err (missing name) | some v ↦ ok (trim v) ]

pub secret : Source → Str → Result (List ℕ) ConfigError
unfolding required
secret get name = do
  v ← required get name
  if ltb (len v) min_secret_bytes then err (secret_too_short name (len v)) else ok (bytes v)

pub path : Source → Str → Str → Str
unfolding filled
path get name default = unwrap_or (filled (get name)) default

-- `number` of an unsigned type below `bound`.
pub number : Source → Str → ℕ → ℕ → Result ℕ ConfigError
unfolding filled
number get name bound default = elim (filled (get name)) [
  | none ↦ ok default
  | some v ↦ ok_or (parse_unsigned bound (trim v)) (invalid name v (lit "number"))
]

pub parse : {A : Type 0} → (Str → Option A) → Source → Str → Str → Str → Result A ConfigError
unfolding filled
parse from_str get name default expected =
    let v = unwrap_or (filled (get name)) default in
    ok_or (from_str (trim v)) (invalid name v expected)

-- What the last letter of a duration multiplies by.
abbrev unit_of : ℕ → Option ℕ
unit_of c =
    if c == b's'
    then some 1
    else if c == b'm'
    then some 60
    else if c == b'h'
    then some 3600
    else if c == b'd'
    then some 86400
    else none

-- The digits and the multiplier.
pub split_unit : Str → Str × ℕ
split_unit [] = ([], 1)
split_unit (c ∷ []) = elim (unit_of c) [ none ↦ (c ∷ [], 1) | some unit ↦ ([], unit) ]
split_unit (c ∷ d ∷ s) = let (digits, unit) = split_unit (d ∷ s) in (c ∷ digits, unit)

-- `duration` of a text that is there.
pub parse_duration : Str → Option ℕ
unfolding split_unit
parse_duration s =
    let (digits, unit) = split_unit s in
    elim (parse_unsigned (2 ^ 64) digits) [
      | none ↦ none
      | some amount ↦ if ltb (amount * unit) (2 ^ 64) then some (amount * unit) else none
    ]

pub duration : Source → Str → ℕ → Result ℕ ConfigError
unfolding filled parse_duration
duration get name default_secs = elim (filled (get name)) [
  | none ↦ ok default_secs
  | some raw ↦
      ok_or (parse_duration (trim raw))
        (invalid name raw (lit "duration such as 30s, 15m, 2h or 7d"))
]

-- What runs in parallel at most, as the system tells.
pub default_concurrency : Option ℕ → ℕ
default_concurrency none = 4
default_concurrency (some n) = if ltb n 4 then n else 4

-- The fields of `Config` that say who may do what, in the order in which they are read.
pub record Access : Type 0 where
  pub public_url : Str
  pub tenant_salt : List ℕ
  pub signing_secret : List ℕ
  pub api_keys : List ApiKey
  pub dcr_client_id : Option Str
  pub oauth_redirect_uris : List Str
  pub oidc : Option OidcConfig

-- The other fields.
pub record Settings (A : Type 0) : Type 0 where
  pub bind_addr : A
  pub metrics_bind_addr : A
  pub data_dir : Str
  pub template_dir : Str
  pub font_dirs : List Str
  pub signed_url_ttl : ℕ
  pub worker_exe : Option Str
  pub compile_timeout : ℕ
  pub max_concurrent_compiles : ℕ
  pub max_mcp_sessions : ℕ
  pub worker_memory_bytes : ℕ
  pub max_bundle_bytes : ℕ
  pub max_upload_bytes : ℕ
  pub max_pages : ℕ
  pub preview_max_px : ℕ
  pub limits : Limits

pub record Config (A : Type 0) : Type 0 where
  pub access : Access
  pub settings : Settings A

abbrev drop_empty : List Str → List Str
drop_empty [] = []
drop_empty (s ∷ ss) = if is_empty s then drop_empty ss else s ∷ drop_empty ss

-- The first of the audiences and the others.
pub oidc_of : Source → Str → Str → List Str → Result OidcConfig ConfigError
unfolding filled
oidc_of get public_url issuer [] =
    err (invalid (lit "OIDC_AUDIENCE") [] (lit "at least one audience"))
oidc_of get public_url issuer (audience ∷ audiences) = ok (record {
  issuer = trim_end_slashes (trim issuer);
  tenant_id = filled (get (lit "OIDC_TENANT_ID"));
  audience = audience;
  scope = unwrap_or (get (lit "OIDC_SCOPE")) (lit "render");
  extra_audiences = audiences ++ (public_url ++ lit "/mcp") ∷ [];
})

pub read_oidc : Source → Str → Option Str → Result (Option OidcConfig) ConfigError
unfolding required oidc_of
read_oidc get public_url none = ok none
read_oidc get public_url (some issuer) = do
  listed ← required get (lit "OIDC_AUDIENCE")
  oidc ← oidc_of get public_url issuer (drop_empty (map trim (split b',' listed)))
  ok (some oidc)

-- The second part of `from_source`.
pub read_settings :
    {A : Type 0} → (Str → Option A) → Option ℕ → Source → Result (Settings A) ConfigError
unfolding parse path number duration default_concurrency filled
read_settings socket parallelism get = do
  bind_addr ← parse socket get (lit "BIND_ADDR") (lit "0.0.0.0:3000") (lit "socket address")
  metrics_bind_addr ←
      parse socket get (lit "METRICS_BIND_ADDR") (lit "0.0.0.0:9090") (lit "socket address")
  signed_url_ttl ← duration get (lit "SIGNED_URL_TTL") (15 * 60)
  compile_timeout ← duration get (lit "COMPILE_TIMEOUT") 20
  concurrent ← number get (lit "MAX_CONCURRENT_COMPILES") (2 ^ 64) (default_concurrency parallelism)
  sessions ← number get (lit "MAX_MCP_SESSIONS") (2 ^ 64) 256
  memory ← number get (lit "WORKER_MEMORY_BYTES") (2 ^ 64) (512 * 1024 * 1024)
  bundle ← number get (lit "MAX_BUNDLE_BYTES") (2 ^ 64) (8 * 1024 * 1024)
  upload ← number get (lit "MAX_UPLOAD_BYTES") (2 ^ 64) (16 * 1024 * 1024)
  pages ← number get (lit "MAX_PAGES") (2 ^ 64) 200
  preview ← number get (lit "PREVIEW_MAX_PX") (2 ^ 32) 2000
  output_ttl ← duration get (lit "OUTPUT_TTL") (2 * 60 * 60)
  asset_ttl ← duration get (lit "ASSET_TTL") (24 * 60 * 60)
  template_ttl ← duration get (lit "TEMPLATE_TTL") (7 * 24 * 60 * 60)
  tenant_bytes ← number get (lit "MAX_TENANT_BYTES") (2 ^ 64) (512 * 1024 * 1024)
  store_bytes ← number get (lit "MAX_STORE_BYTES") (2 ^ 64) (2 * 1024 * 1024 * 1024)
  tenant_entries ← number get (lit "MAX_TENANT_ENTRIES") (2 ^ 64) 10000
  store_entries ← number get (lit "MAX_STORE_ENTRIES") (2 ^ 64) 50000
  ok (record {
    bind_addr = bind_addr;
    metrics_bind_addr = metrics_bind_addr;
    data_dir = path get (lit "DATA_DIR") (lit "/data");
    template_dir = path get (lit "TEMPLATE_DIR") (lit "/usr/share/typst-mcp/templates");
    font_dirs = elim (filled (get (lit "FONT_DIRS"))) [
      | none ↦ lit "/usr/share/fonts/typst" ∷ []
      | some v ↦ split b':' v
    ];
    signed_url_ttl = signed_url_ttl;
    worker_exe = filled (get (lit "WORKER_EXE"));
    compile_timeout = compile_timeout;
    max_concurrent_compiles = concurrent;
    max_mcp_sessions = sessions;
    worker_memory_bytes = memory;
    max_bundle_bytes = bundle;
    max_upload_bytes = upload;
    max_pages = pages;
    preview_max_px = preview;
    limits = record {
      output_ttl = output_ttl;
      asset_ttl = asset_ttl;
      template_ttl = template_ttl;
      max_tenant_bytes = tenant_bytes;
      max_store_bytes = store_bytes;
      max_tenant_entries = tenant_entries;
      max_store_entries = store_entries;
    };
  })

-- `from_source` behind the redirect URIs, up to the refusal to start open.
pub finish_access :
    Source → Str → List ℕ → List ℕ → List ApiKey → List Str → Option Str → Result Access ConfigError
unfolding read_oidc filled
finish_access get public_url tenant_salt signing_secret keys uris dcr_client_id =
    if is_some dcr_client_id && length uris == 0
    then err (
        invalid (lit "OAUTH_REDIRECT_URIS") []
          (lit "at least one redirect URI when DCR_CLIENT_ID is set"))
    else do
      oidc ← read_oidc get public_url (filled (get (lit "OIDC_ISSUER")))
      if length keys == 0 && is_none oidc
          then err no_credentials
          else ok (record {
            public_url = public_url;
            tenant_salt = tenant_salt;
            signing_secret = signing_secret;
            api_keys = keys;
            dcr_client_id = dcr_client_id;
            oauth_redirect_uris = uris;
            oidc = oidc;
          })

-- The digest, its text, and the parser of URLs are of other packages.
module _ (sha256 : List ℕ → List ℕ) (hex : List ℕ → Str) (parse_url : Str → Option Url) where
  read_keys : Option Str → Result (List ApiKey) ConfigError
  read_keys none = ok []
  read_keys (some v) = map_err ConfigError.api_keys (parse_keys sha256 hex v)

  read_uris : Option Str → Result (List Str) ConfigError
  read_uris none = ok []
  read_uris (some raw) =
      map_err (λ _. invalid (lit "OAUTH_REDIRECT_URIS") raw (lit "comma-separated redirect URIs"))
        (parse_allowlist parse_url raw)

  -- The first part of `from_source`, up to the refusal to start open.
  pub read_access : Source → Result Access ConfigError
  unfolding required secret filled read_keys read_uris finish_access
  read_access get = do
    url ← required get (lit "PUBLIC_URL")
    tenant_salt ← secret get (lit "TENANT_SALT")
    signing_secret ← secret get (lit "SIGNING_SECRET")
    keys ← read_keys (filled (get (lit "API_KEYS")))
    uris ← read_uris (filled (get (lit "OAUTH_REDIRECT_URIS")))
    finish_access get (trim_end_slashes url) tenant_salt signing_secret keys uris
        (filled (get (lit "DCR_CLIENT_ID")))

  -- `Config::from_source`.
  pub from_source :
      {A : Type 0} → (Str → Option A) → Option ℕ → Source → Result (Config A) ConfigError
  unfolding read_access read_settings
  from_source socket parallelism get = do
    access ← read_access get
    settings ← read_settings socket parallelism get
    ok (record { access = access; settings = settings })

-- `Config::url`, and two that are made of it.
pub url : Access → Str → Str
url access p = access.public_url ++ b'/' ∷ trim_start_matches (λ c. c == b'/') p

pub mcp_resource_url : Access → Str
unfolding url
mcp_resource_url access = url access (lit "mcp")

pub metadata_url : Access → Str
unfolding url
metadata_url access = url access (lit ".well-known/oauth-protected-resource/mcp")
