-- ===== src/Signing/Tests.antt =====
-- Concrete links (src/signing.rs).
use typst_mcp.Common.{
  ℕ, ◌+◌, ◌<◌, ◌≡◌, refl, ◌≢◌, ◌↔◌, some, [], ◌∷◌, ◌++◌, drop, arith, ltb, if◌then◌else◌, ok, err,
}
use typst_mcp.Common.Text.{Str, lit, bytes, utf8}
use typst_mcp.Common.Text.Decimal.{show}
use typst_mcp.Principal.{TenantId}
use typst_mcp.Signing.{expired, message, Signer, sign, sign_for, verify, verify_params}
use typst_mcp.Signing.Links.{tag_of, message_inj, verify-sign_iff, verify_params-sign_for}

abbrev tenant_a : TenantId
tenant_a = record { text = lit "a0" }

abbrev doc : Str
doc = lit "job_1"

-- A hash that is easy to compute.
abbrev signer : Signer
signer = record { hmac = λ k m. k ++ m; base64url = λ b. b; secret = 7 ∷ [] }

message_inj_example : (tenant_a ≡ tenant_a) × (doc ≡ doc) × (◌≡◌ {A = ℕ} 5 5)
message_inj_example =
    message_inj tenant_a tenant_a doc doc 5 5 (ground arith) (ground arith) (ground arith)
      (ground arith) refl

-- Another document, whose link has another signature under this hash.
abbrev other : Str
other = lit "b"

abbrev short : Str
short = lit "a"

-- A hash that is the identity, behind the common beginning of the messages.
abbrev transparent : Signer
transparent = record { hmac = λ k m. drop 18 m; base64url = λ b. b; secret = 7 ∷ [] }

tags_differ :
    tag_of transparent (message tenant_a other 5) ≢ tag_of transparent (message tenant_a short 5)
unfolding message show bytes utf8
tags_differ h = let same : lit "a0|b|5" ≡ lit "a0|a|5" = h in ground (arith, same)

verify-sign_iff_example :
    (verify transparent 3 tenant_a short 5 (sign transparent tenant_a other 5) ≡ ok tt)
    ↔ ((3 < 5) × (tenant_a ≡ tenant_a) × (short ≡ other) × (◌≡◌ {A = ℕ} 5 5))
verify-sign_iff_example =
    verify-sign_iff transparent 3 tenant_a tenant_a short other 5 5 (ground arith) (ground arith)
      (ground arith) (ground arith) (λ h. absurd (tags_differ h))

verify_params-sign_for_example :
    let (signature, expires_at) = sign_for signer 2 tenant_a doc 3 in
    verify_params signer 4 tenant_a doc (some (show expires_at)) (some signature)
    ≡ (if ltb 4 (2 + 3) then ok tt else err expired)
verify_params-sign_for_example = verify_params-sign_for signer 2 4 tenant_a doc 3 (omega arith)
