-- ===== src/Config/Startup/Tests.antt =====
-- A configuration of src/config.rs with an identity provider.
use typst_mcp.Common.{ℕ, ◌≡◌, refl, Option, none, some, List, if◌then◌else◌, ok}
use typst_mcp.Common.Text.{
  Str, lit, len, bytes, utf8, trim, trim_start, trim_start_matches, trim_end_matches,
  trim_end_slashes, is_whitespace, str_eq, split,
}
use typst_mcp.OauthRedirect.{Url}
use typst_mcp.Config.{
  Source, filled, required, secret, path, number, parse, duration, default_concurrency, oidc_of,
  read_oidc, read_keys, read_uris, finish_access, read_access, read_settings, from_source, Config,
}
use typst_mcp.Config.Startup.{IsSafe, from_source-IsSafe}

abbrev long_text : Str
long_text = lit "0123456789abcdef0123456789abcdef"

abbrev variables : Source
variables name =
    if str_eq name (lit "PUBLIC_URL")
    then some (lit "https://typst.example/")
    else if str_eq name (lit "TENANT_SALT")
    then some long_text
    else if str_eq name (lit "SIGNING_SECRET")
    then some long_text
    else if str_eq name (lit "OIDC_ISSUER")
    then some (lit "https://id.example/")
    else if str_eq name (lit "OIDC_AUDIENCE")
    then some (lit "api://typst, guid")
    else none

abbrev socket : Str → Option Str
socket s = some s

abbrev sha256 : List ℕ → List ℕ
sha256 b = b

abbrev hex : List ℕ → Str
hex b = b

abbrev parse_url : Str → Option Url
parse_url s = none

accepted : (c : Config Str) × (from_source sha256 hex parse_url socket none variables ≡ ok c)
unfolding from_source read_access read_settings finish_access filled required secret path number
    parse duration default_concurrency oidc_of read_oidc read_keys read_uris len bytes utf8 trim
    trim_start trim_start_matches trim_end_matches trim_end_slashes is_whitespace str_eq split
accepted = (_, refl)

from_source-IsSafe_example : IsSafe sha256 hex parse_url accepted.0.access
from_source-IsSafe_example =
    from_source-IsSafe sha256 hex parse_url socket none variables accepted.0 accepted.1
