-- ===== src/Principal/Tests.antt =====
-- Concrete callers and tenants (src/principal.rs).
use typst_mcp.Common.{ℕ, ◌≡◌, ◌↔◌, none, List, [], ◌∷◌, arith, take}
use typst_mcp.Common.Text.{lit}
use typst_mcp.Principal.{Principal, user, service, identity, derive_from}
use typst_mcp.Principal.Identity.{IsSameCaller, identity_iff}
use typst_mcp.Principal.Tenant.{IsDigest, derive_from_iff}

abbrev ada : Principal
ada = user (lit "ada") (lit "https://issuer") none

identity_iff_example :
    (identity ada ≡ identity (service (lit "ci"))) ↔ IsSameCaller ada (service (lit "ci"))
identity_iff_example = identity_iff ada (service (lit "ci")) (ground arith) tt

abbrev digest : List ℕ
digest =
    0 ∷ 1 ∷ 2 ∷ 3 ∷ 4 ∷ 250 ∷ 251 ∷ 252 ∷ 253 ∷ 255 ∷ 0 ∷ 1 ∷ 2 ∷ 3 ∷ 4 ∷ 250 ∷ 251 ∷ 252 ∷ 253
    ∷ 255 ∷ 0 ∷ 1 ∷ 2 ∷ 3 ∷ 4 ∷ 250 ∷ 251 ∷ 252 ∷ 253 ∷ 255 ∷ 30 ∷ 31 ∷ []

digest-IsDigest : IsDigest digest
digest-IsDigest = ground arith

derive_from_iff_example :
    (derive_from digest ≡ derive_from digest) ↔ (take 10 digest ≡ take 10 digest)
derive_from_iff_example = derive_from_iff digest digest digest-IsDigest digest-IsDigest
