-- ===== src/Signing.antt =====
-- src/signing.rs: short-lived signed URLs. The HMAC and the base64 encoder come from other packages
-- and are parameters; the clock is an argument.
pub mod Links
mod Tests
use typst_mcp.Common.{
  ℕ, zero, suc, ◌+◌, ◌-◌, ◌*◌, ◌/◌, ◌%◌, ◌^◌, ◌≤◌, ◌<◌, ◌≡◌, refl, sym, ap, ◌∙◌, ◌≢◌, ◌↔◌, ◌⊎◌, inl,
  inr, Bool, true, false, ◌&&◌, ◌||◌, Option, none, some, List, [], ◌∷◌, ◌++◌, map, arith, ltb, leb,
  ◌==◌, if◌then◌else◌, not, Bool-cases, Option-cases, is_some, is_none, length, All, any, all, sum,
  Has, Has-All, AreDistinct, take, drop, get_or, Result, ok, err, ◌>>=◌, ok_or, map_err, bind-eq-ok,
  map_err-eq-ok,
}
use typst_mcp.Common.Text.{Str, lit, bytes, str_eq}
use typst_mcp.Common.Text.Decimal.{show, parse_unsigned, u64_mod}
use typst_mcp.Principal.{TenantId}

abbrev pub signature_bytes : ℕ
signature_bytes = 16

abbrev pub domain : Str
domain = lit "typst-mcp/file/v1"

pub data SignatureError : Type 0 where
  expired invalid missing : SignatureError

-- `message`: the fields are joined by `|`.
pub message : TenantId → Str → ℕ → Str
message tenant id expires_at =
    domain ++ b'|' ∷ (tenant.text ++ b'|' ∷ (id ++ b'|' ∷ show expires_at))

-- The hash and the encoder that `Signer` calls, and its secret.
pub record Signer : Type 0 where
  pub hmac : List ℕ → List ℕ → List ℕ
  pub base64url : List ℕ → Str
  pub secret : List ℕ

-- `Signer::sign`.
pub sign : Signer → TenantId → Str → ℕ → Str
sign s tenant id expires_at =
    s.base64url (take signature_bytes (s.hmac s.secret (bytes (message tenant id expires_at))))

-- `Signer::sign_for`, at the time `now`; the sum wraps.
pub sign_for : Signer → ℕ → TenantId → Str → ℕ → Str × ℕ
sign_for s now tenant id ttl_seconds =
    let expires_at = (now + ttl_seconds) % u64_mod in (sign s tenant id expires_at, expires_at)

-- `Signer::verify`, at the time `now`.
pub verify : Signer → ℕ → TenantId → Str → ℕ → Str → Result (Unit {0}) SignatureError
verify s now tenant id expires_at presented =
    if leb expires_at now
    then err expired
    else if str_eq (bytes (sign s tenant id expires_at)) (bytes presented)
    then ok tt
    else err invalid

-- `Signer::verify_params`.
pub verify_params :
    Signer → ℕ → TenantId → Str → Option Str → Option Str → Result (Unit {0}) SignatureError
verify_params s now tenant id none signature = err missing
verify_params s now tenant id (some exp) none = err missing
verify_params s now tenant id (some exp) (some sig) = do
  expires_at ← ok_or (parse_unsigned u64_mod exp) invalid
  verify s now tenant id expires_at sig
