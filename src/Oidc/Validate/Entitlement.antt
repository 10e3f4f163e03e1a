-- ===== src/Oidc/Validate/Entitlement.antt =====
-- The checks of `validate` of src/oidc.rs: what it asks of the decoder, and what claims pass.
use typst_mcp.Common.{
  ◌≡◌, refl, sym, ap, ◌↔◌, inl, inr, Bool, true, Option, none, some, List, [], ◌∷◌, arith,
  Bool-cases, any, Has, ok,
}
use mathlib.Core.Path.{subst}
use typst_mcp.Common.Text.{Str, str_eq}
use typst_mcp.Common.Text.Laws.{str_eq_iff}
use typst_mcp.Principal.{Principal, user}
use typst_mcp.Oidc.{OidcConfig, Audience, one, many, absent, accepts, Claims, has_scope}
use typst_mcp.Oidc.Validate.{Algorithm, Validation, aud_ok, tenant_ok, validation_for, check_claims}

-- The audiences that a token names.
abbrev pub Names : Audience → Str → Type 0
Names (one value) a = a ≡ value
Names (many values) a = Has a values
Names absent a = ⊥

abbrev pub IsTenant : Option Str → Option Str → Type 0
IsTenant none tid = Unit
IsTenant (some expected) tid = tid ≡ some expected

-- The checks that the decoder is asked for: expiry and start with a leeway of a minute, a configured
-- audience, the configured issuer, and the algorithm of the header and no other.
pub record IsStrict (config : OidcConfig) (alg : Algorithm) (asked : Validation) : Type 0 where
  pub exp : asked.validate_exp ≡ true
  pub nbf : asked.validate_nbf ≡ true
  pub leeway : asked.leeway ≡ 60
  pub issuers : asked.issuers ≡ config.issuer ∷ []
  pub audiences : asked.audiences ≡ config.audience ∷ config.extra_audiences
  pub algorithm : asked.algorithm ≡ alg

pub validation_for-IsStrict :
    (config : OidcConfig) (alg : Algorithm) → IsStrict config alg (validation_for config alg)
unfolding validation_for
validation_for-IsStrict config alg = record {
  exp = refl;
  nbf = refl;
  leeway = refl;
  issuers = refl;
  audiences = refl;
  algorithm = refl;
}

pub validation_for_of :
    (config : OidcConfig) (alg : Algorithm) (asked : Validation)
    → IsStrict config alg asked
    → asked ≡ validation_for config alg
unfolding validation_for
validation_for_of config alg asked h =
    ground (arith, h.exp, h.nbf, h.leeway, h.issuers, h.audiences, h.algorithm)

-- What the claims of an accepted token satisfy.
pub record IsEntitled (config : OidcConfig) (claims : Claims) : Type 0 where
  pub issuer : claims.iss ≡ config.issuer
  pub audience : (a : Str) × Names claims.aud a × Has a (config.audience ∷ config.extra_audiences)
  pub tenant : IsTenant config.tenant_id claims.tid
  pub scope : has_scope config claims ≡ true

any-eq-true :
    (p : Str → Bool) (xs : List Str) → any p xs ≡ true → (x : Str) × Has x xs × (p x ≡ true)
unfolding any
any-eq-true p [] h = cc
any-eq-true p (x ∷ xs) h = elim (Bool-cases (p x)) [
  | inl e ↦ (x, inl refl, e)
  | inr e ↦ let (y, m, q) = any-eq-true p xs (rw e at h) in (y, inr m, q)
]

any_of : (p : Str → Bool) (x : Str) (xs : List Str) → Has x xs → p x ≡ true → any p xs ≡ true
unfolding any
any_of p x [] m e = absurd m
any_of p x (y ∷ ys) (inl same) e = ground (arith, same, e)
any_of p x (y ∷ ys) (inr m) e = ground (arith, any_of p x ys m e)

accepts_iff : (aud : Audience) (a : Str) → (accepts aud a ≡ true) ↔ Names aud a
unfolding accepts
accepts_iff (one value) a =
    (λ h. sym ((str_eq_iff value a).0 h), λ h. (str_eq_iff value a).1 (sym h))
accepts_iff (many values) a = (
  λ h.
      let (v, m, e) = any-eq-true (λ v. str_eq v a) values h in
      subst (λ x. Has x values) ((str_eq_iff v a).0 e) m,
  λ m. any_of (λ v. str_eq v a) a values m ((str_eq_iff a a).1 refl),
)
accepts_iff absent a = (λ h. cc, λ h. absurd h)

aud_ok_iff :
    (config : OidcConfig) (claims : Claims)
    → (aud_ok config claims ≡ true)
      ↔ ((a : Str) × Names claims.aud a × Has a (config.audience ∷ config.extra_audiences))
unfolding aud_ok any
aud_ok_iff config claims = (
  λ h.
      let (a, m, p) =
        any-eq-true (accepts claims.aud) (config.audience ∷ config.extra_audiences) h in
      (a, (accepts_iff claims.aud a).0 p, m),
  λ (a, n, m).
      any_of (accepts claims.aud) a (config.audience ∷ config.extra_audiences) m
        ((accepts_iff claims.aud a).1 n),
)

tenant_ok_iff : (wanted tid : Option Str) → (tenant_ok wanted tid ≡ true) ↔ IsTenant wanted tid
unfolding tenant_ok
tenant_ok_iff none tid = (λ h. tt, λ h. refl)
tenant_ok_iff (some w) none = (λ h. cc, λ h. cc)
tenant_ok_iff (some w) (some t) =
    (λ h. ap some ((str_eq_iff t w).0 h), λ h. (str_eq_iff t w).1 (cc h))

pub check_claims-IsEntitled :
    (config : OidcConfig) (claims : Claims) (who : Principal)
    → check_claims config claims ≡ ok who
    → IsEntitled config claims × (who ≡ user claims.sub claims.iss claims.name)
unfolding check_claims
check_claims-IsEntitled config claims who h =
    let same = (str_eq_iff claims.iss config.issuer).0 (ground (arith, h)) in
    let aud = (aud_ok_iff config claims).0 (ground (arith, h)) in
    let tenant = (tenant_ok_iff config.tenant_id claims.tid).0 (ground (arith, h)) in
    let scope : has_scope config claims ≡ true = ground (arith, h) in
    (record { issuer = same; audience = aud; tenant = tenant; scope = scope }, ground (arith, h))

pub check_claims_of :
    (config : OidcConfig) (claims : Claims)
    → IsEntitled config claims
    → check_claims config claims ≡ ok (user claims.sub claims.iss claims.name)
unfolding check_claims
check_claims_of config claims e =
    let same = (str_eq_iff claims.iss config.issuer).1 e.issuer in
    let aud = (aud_ok_iff config claims).1 e.audience in
    let tenant = (tenant_ok_iff config.tenant_id claims.tid).1 e.tenant in
    let scope = e.scope in ground (arith, same, aud, tenant, scope)
