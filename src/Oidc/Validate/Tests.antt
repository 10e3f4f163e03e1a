-- ===== src/Oidc/Validate/Tests.antt =====
-- `validate` of src/oidc.rs at a concrete token.
use typst_mcp.Common.{ℕ, ◌≡◌, ◌↔◌, Option, none, some, [], ◌∷◌, ◌==◌, if◌then◌else◌, Result, ok}
use typst_mcp.Common.Text.{Str, lit}
use typst_mcp.Principal.{Principal, user}
use typst_mcp.Oidc.{TokenError, OidcConfig, one, Claims}
use typst_mcp.Oidc.Validate.{rs256, Header, Validation, validate}
use typst_mcp.Oidc.Validate.Acceptance.{IsAccepted, validate_iff}

abbrev config : OidcConfig
config = record {
  issuer = lit "https://id.example/v2";
  tenant_id = some (lit "t1");
  audience = lit "api://typst";
  scope = lit "render";
  extra_audiences = lit "typst" ∷ [];
}

abbrev claims : Claims
claims = record {
  sub = lit "u1";
  iss = lit "https://id.example/v2";
  aud = one (lit "typst");
  tid = some (lit "t1");
  scp = some (lit "openid api://typst/render");
  roles = [];
  name = none;
}

abbrev decode_header : Str → Option Header
decode_header token = some (record { alg = rs256; kid = some (lit "k1") })

abbrev decode : Str → ℕ → Validation → Option Claims
decode token key validation = if key == 7 then some claims else none

abbrev lookup : Str → Result (Option ℕ) TokenError
lookup kid = ok (some 7)

abbrev caller : Principal
caller = user (lit "u1") (lit "https://id.example/v2") none

validate_iff_example :
    (validate decode_header decode config lookup (lit "x.y.z") ≡ ok caller)
    ↔ IsAccepted decode_header decode config lookup (lit "x.y.z") caller
validate_iff_example = validate_iff decode_header decode config lookup (lit "x.y.z") caller
