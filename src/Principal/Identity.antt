-- ===== src/Principal/Identity.antt =====
-- `Principal::identity` of src/principal.rs tells callers apart.
use typst_mcp.Common.{◌≡◌, ◌↔◌, arith}
use typst_mcp.Common.Text.Split.{Lacks, append_sep_inj}
use typst_mcp.Principal.{Principal, user, service, identity}

-- The issuer does not hold the separator.
abbrev pub HasCleanIssuer : Principal → Type 0
HasCleanIssuer (user subject issuer name) = Lacks 0 issuer
HasCleanIssuer (service label) = Unit

-- One caller; the display name of a person may differ.
abbrev pub IsSameCaller : Principal → Principal → Type 0
IsSameCaller (user subject issuer name) (user subject' issuer' name') =
    (subject ≡ subject') × (issuer ≡ issuer')
IsSameCaller (service label) (service label') = label ≡ label'
IsSameCaller _ _ = ⊥

-- Two principals whose issuers lack the separator have the same identity exactly when they are the
-- same caller: the same subject of the same issuer, or the same service label.
pub identity_iff :
    (p q : Principal)
    → HasCleanIssuer p
    → HasCleanIssuer q
    → (identity p ≡ identity q) ↔ IsSameCaller p q
unfolding identity
identity_iff (user s i n) (user s' i' n') h k =
    (λ e. let (a, b) = append_sep_inj 0 i s i' s' h k (ground arith) in (b, a), λ e. ground arith)
identity_iff (user s i n) (service l) h k = (λ e. ground arith, λ e. absurd e)
identity_iff (service l) (user s i n) h k = (λ e. ground arith, λ e. absurd e)
identity_iff (service l) (service l') h k = (λ e. ground arith, λ e. ground arith)
