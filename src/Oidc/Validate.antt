-- ===== src/Oidc/Validate.antt =====
-- `TokenValidator::validate` of src/oidc.rs.
pub mod Entitlement
pub mod Acceptance
mod Tests
use typst_mcp.Common.{
  ℕ, zero, suc, ◌+◌, ◌-◌, ◌*◌, ◌/◌, ◌%◌, ◌^◌, ◌≤◌, ◌<◌, ◌≡◌, refl, sym, ap, ◌∙◌, ◌≢◌, ◌↔◌, ◌⊎◌, inl,
  inr, Bool, true, false, ◌&&◌, ◌||◌, Option, none, some, List, [], ◌∷◌, ◌++◌, map, arith, ltb, leb,
  ◌==◌, if◌then◌else◌, not, Bool-cases, Option-cases, is_some, is_none, length, All, any, all, sum,
  Has, Has-All, AreDistinct, take, drop, get_or, Result, ok, err, ◌>>=◌, ok_or, map_err, bind-eq-ok,
  map_err-eq-ok, Result-cases, if-cases, unwrap_or,
}
use typst_mcp.Common.Text.{Str, lit, len, str_eq}
use typst_mcp.Principal.{Principal, user}
use typst_mcp.Oidc.{
  max_kid_bytes, clock_skew_seconds, TokenError, token_malformed, unknown_key, token_rejected,
  OidcConfig, Audience, accepts, Claims, has_scope,
}

-- The algorithms of the JWT package that the code names, and any other.
pub data Algorithm : Type 0 where
  rs256 rs384 rs512 other_algorithm : Algorithm

pub record Header : Type 0 where
  pub alg : Algorithm
  pub kid : Option Str

-- `Validation`, as far as the code sets it.
pub record Validation : Type 0 where
  pub algorithm : Algorithm
  pub audiences : List Str
  pub issuers : List Str
  pub validate_exp : Bool
  pub validate_nbf : Bool
  pub leeway : ℕ

pub is_rsa : Algorithm → Bool
is_rsa other_algorithm = false
is_rsa _ = true

-- The re-check of the audience.
pub aud_ok : OidcConfig → Claims → Bool
aud_ok config claims =
    accepts claims.aud config.audience || any (λ a. accepts claims.aud a) config.extra_audiences

-- The check of the directory.
pub tenant_ok : Option Str → Option Str → Bool
tenant_ok none tid = true
tenant_ok (some expected) none = false
tenant_ok (some expected) (some tid) = str_eq tid expected

-- What `validate` asks of the decoder.
pub validation_for : OidcConfig → Algorithm → Validation
validation_for config alg = record {
  algorithm = alg;
  audiences = config.audience ∷ config.extra_audiences;
  issuers = config.issuer ∷ [];
  validate_exp = true;
  validate_nbf = true;
  leeway = clock_skew_seconds;
}

-- The checks behind the decoder.
pub check_claims : OidcConfig → Claims → Result Principal TokenError
unfolding aud_ok tenant_ok
check_claims config claims =
    if not (str_eq claims.iss config.issuer) || not (aud_ok config claims)
    then err token_rejected
    else if not (tenant_ok config.tenant_id claims.tid)
    then err token_rejected
    else if not (has_scope config claims)
    then err token_rejected
    else ok (user claims.sub claims.iss claims.name)

-- The decoder of the JWT package: the header of a token, and its claims if it is genuine.
module _ {K : Type 0} (decode_header : Str → Option Header)
    (decode : Str → K → Validation → Option Claims) (config : OidcConfig) where
  -- The key id that `validate` looks up.
  pub kid_of : Str → Result (Str × Algorithm) TokenError
  unfolding is_rsa
  kid_of token = do
    header ← ok_or (decode_header token) token_malformed
    if not (is_rsa header.alg) then err token_rejected else do
      kid ← ok_or header.kid token_malformed
      if ltb max_kid_bytes (len kid) then err token_malformed else ok (kid, header.alg)

  -- What `validate` does with the key.
  pub accept : Str → Algorithm → Result (Option K) TokenError → Result Principal TokenError
  unfolding check_claims validation_for
  accept token alg looked_up = do
    found ← looked_up
    key ← ok_or found unknown_key
    claims ← ok_or (decode token key (validation_for config alg)) token_rejected
    check_claims config claims

  -- `validate`, with what `key` gives for the key id.
  pub validate : (Str → Result (Option K) TokenError) → Str → Result Principal TokenError
  unfolding kid_of accept
  validate lookup token = do (kid, alg) ← kid_of token; accept token alg (lookup kid)
