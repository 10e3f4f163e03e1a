-- ===== src/ApiError/Challenge.antt =====
-- What the errors of refused credentials (src/error.rs) keep.
use typst_mcp.Common.{◌≡◌, refl, ◌≢◌, ◌↔◌, ◌⊎◌, inl, true, false, some, arith, is_some}
use typst_mcp.Common.Text.{Str}
use typst_mcp.Auth.{
  AuthError, missing, malformed, rejected, unavailable, provider_unavailable, status,
}
use typst_mcp.ApiError.{ErrorCode, ApiError, new, auth_error, internal_error}
use typst_mcp.ApiError.Contract.{status_for}

-- The contract: the status is that of the category, an internal error tells nothing but that, and a
-- challenge comes with a 401 and with no other status.
pub record IsPublic (e : ApiError) : Type 0 where
  pub failed : e.envelope.is_ok ≡ false
  pub status : e.status ≡ status_for e.envelope.error
  pub opaque : (e.envelope.error ≢ ErrorCode.internal) ⊎ (e ≡ internal_error)
  pub challenged : (is_some e.challenge ≡ true) ↔ (e.status ≡ 401)

unauthorized_of : (code : ErrorCode) → status_for code ≡ 401 → code ≡ ErrorCode.unauthorized
unauthorized_of code h = ground (arith, h)

-- The contract for an error that carries no challenge.
new-IsPublic :
    (code : ErrorCode) (message : Str)
    → code ≢ ErrorCode.internal
    → code ≢ ErrorCode.unauthorized
    → IsPublic (new (status_for code) code message)
unfolding new
new-IsPublic code message n u = record {
  failed = refl;
  status = refl;
  opaque = inl n;
  challenged = (λ h. cc, λ h. absurd (u (unauthorized_of code h)));
}

challenged-IsPublic :
    (message challenge : Str)
    → IsPublic (record (new 401 ErrorCode.unauthorized message) { challenge = some challenge })
unfolding new
challenged-IsPublic message challenge = record {
  failed = refl;
  status = refl;
  opaque = inl (λ e. cc);
  challenged = (λ h. refl, λ h. refl);
}

-- A refused credential gives a public error too: a challenge comes with a 401, and with nothing
-- else.
pub auth_error-IsPublic : (e : AuthError) (challenge : Str) → IsPublic (auth_error e challenge)
unfolding auth_error new status
auth_error-IsPublic provider_unavailable challenge =
    new-IsPublic ErrorCode.provider_unavailable _ (λ e. cc) (λ e. cc)
auth_error-IsPublic missing challenge = challenged-IsPublic _ challenge
auth_error-IsPublic malformed challenge = challenged-IsPublic _ challenge
auth_error-IsPublic rejected challenge = challenged-IsPublic _ challenge
auth_error-IsPublic unavailable challenge = challenged-IsPublic _ challenge
