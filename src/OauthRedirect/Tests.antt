-- ===== src/OauthRedirect/Tests.antt =====
-- Concrete redirect URIs (src/oauth_redirect.rs).
use typst_mcp.Common.{◌≡◌, ◌↔◌, ◌⊎◌, true, Option, none, some, List, [], ◌∷◌, Has, ok}
use typst_mcp.Common.Text.{Str, lit}
use typst_mcp.OauthRedirect.{Url, validate_redirect_uri, is_allowed_redirect_uri}
use typst_mcp.OauthRedirect.Allowlist.{IsLoopback, HasTwin, is_allowed_redirect_uri_iff}

-- A parser that reads every text as the same callback on the local machine.
abbrev read_url : Str → Option Url
read_url uri = some (record {
  scheme = lit "http";
  host_str = some (lit "localhost");
  path = lit "/callback";
  query = none;
  fragment = none;
  username = [];
  password = none;
})

abbrev allowed : List Str
allowed = lit "http://localhost:8787/callback" ∷ []

abbrev drawn : Str
drawn = lit "http://localhost:3118/callback"

is_allowed_redirect_uri_iff_example : (is_allowed_redirect_uri read_url allowed drawn ≡ true) ↔ (
    (validate_redirect_uri read_url drawn ≡ ok tt)
    × (Has drawn allowed
        ⊎ ((r : Url) × (read_url drawn ≡ some r) × IsLoopback r × HasTwin read_url allowed r)))
is_allowed_redirect_uri_iff_example = is_allowed_redirect_uri_iff read_url allowed drawn
