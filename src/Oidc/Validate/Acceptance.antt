-- ===== src/Oidc/Validate/Acceptance.antt =====
-- Which tokens `validate` of src/oidc.rs accepts.
use typst_mcp.Common.{
  ◌≤◌, ◌≡◌, refl, ap, ◌∙◌, ◌↔◌, inl, inr, true, Option, none, some, arith, Option-cases, Result, ok,
  err, bind-eq-ok,
}
use typst_mcp.Common.Text.{Str, len}
use typst_mcp.Principal.{Principal, user}
use typst_mcp.Oidc.{max_kid_bytes, TokenError, OidcConfig, Claims}
use typst_mcp.Oidc.Validate.{
  Algorithm, Header, Validation, is_rsa, validation_for, check_claims, kid_of, accept, validate,
}
use typst_mcp.Oidc.Validate.Entitlement.{
  IsStrict, validation_for-IsStrict, validation_for_of, IsEntitled, check_claims-IsEntitled,
  check_claims_of,
}

module _ {K : Type 0} (decode_header : Str → Option Header)
    (decode : Str → K → Validation → Option Claims) (config : OidcConfig)
    (lookup : Str → Result (Option K) TokenError) where
  -- What stands behind an accepted token: an RSA header with a short key id, a key for it, and
  -- entitled claims that the decoder read with that key and the checks the code asks of it.
  pub record IsAccepted (token : Str) (who : Principal) : Type 0 where
    pub header : Header
    pub kid : Str
    pub key : K
    pub asked : Validation
    pub claims : Claims
    pub opened : decode_header token ≡ some header
    pub rsa : is_rsa header.alg ≡ true
    pub named : header.kid ≡ some kid
    pub short : len kid ≤ max_kid_bytes
    pub found : lookup kid ≡ ok (some key)
    pub strict : IsStrict config header.alg asked
    pub decoded : decode token key asked ≡ some claims
    pub entitled : IsEntitled config claims
    pub caller : who ≡ user claims.sub claims.iss claims.name

  kid_of-eq-ok :
      (token kid : Str) (alg : Algorithm)
      → kid_of decode_header decode config token ≡ ok (kid, alg)
      → (h : Header) × (decode_header token ≡ some h)
        × (is_rsa h.alg ≡ true)
        × (h.kid ≡ some kid)
        × (len kid ≤ max_kid_bytes)
        × (alg ≡ h.alg)
  unfolding kid_of
  kid_of-eq-ok token kid alg e = elim (Option-cases (decode_header token)) [
    | inl m ↦ absurd (cc (rw m at e))
    | inr (h, m) ↦ elim (Option-cases h.kid) [
      | inl n ↦ absurd (ground (arith, m, n, e))
      | inr (k, n) ↦
          let rsa : is_rsa h.alg ≡ true = ground (arith, m, n, e) in
          let short : len k ≤ max_kid_bytes = ground (arith, m, n, e) in
          let same : (k ≡ kid) × (alg ≡ h.alg) = ground (arith, m, n, e) in
          (h, m, rsa, n ∙ ap some same.0, rw same.0 at short, same.1)
    ]
  ]

  accept-eq-ok :
      (token : Str) (alg : Algorithm) (looked_up : Result (Option K) TokenError) (who : Principal)
      → accept decode_header decode config token alg looked_up ≡ ok who
      → (key : K) × (looked_up ≡ ok (some key))
        × (claims : Claims) × (decode token key (validation_for config alg) ≡ some claims)
        × (check_claims config claims ≡ ok who)
  unfolding accept
  accept-eq-ok token alg (err e) who h = cc
  accept-eq-ok token alg (ok none) who h = cc
  accept-eq-ok token alg (ok (some key)) who h =
      elim (Option-cases (decode token key (validation_for config alg))) [
        | inl m ↦ absurd (cc (rw m at h))
        | inr (claims, m) ↦ (key, refl, claims, m, rw m at h)
      ]

  validate-IsAccepted :
      (token : Str) (who : Principal)
      → validate decode_header decode config lookup token ≡ ok who
      → IsAccepted token who
  unfolding validate
  validate-IsAccepted token who h =
      let ((kid, alg), named, accepted) =
        bind-eq-ok (kid_of decode_header decode config token)
          (λ (kid, alg). accept decode_header decode config token alg (lookup kid)) h in
      let (header, opened, rsa, has_kid, short, same) = kid_of-eq-ok token kid alg named in
      let (key, found, claims, decoded, checked) =
        accept-eq-ok token alg (lookup kid) who accepted in
      let (entitled, caller) = check_claims-IsEntitled config claims who checked in
      record {
        header = header;
        kid = kid;
        key = key;
        asked = validation_for config header.alg;
        strict = validation_for-IsStrict config header.alg;
        claims = claims;
        opened = opened;
        rsa = rsa;
        named = has_kid;
        short = short;
        found = found;
        decoded = rw same at decoded;
        entitled = entitled;
        caller = caller;
      }

  validate_of :
      (token : Str) (who : Principal)
      → IsAccepted token who
      → validate decode_header decode config lookup token ≡ ok who
  unfolding validate kid_of accept
  validate_of token who a =
      let opened = a.opened in
      let rsa = a.rsa in
      let named = a.named in
      let short = a.short in
      let found = a.found in
      let decoded = rw (validation_for_of config a.header.alg a.asked a.strict) at a.decoded in
      let checked = check_claims_of config a.claims a.entitled in
      let caller = a.caller in
      ground (arith, opened, rsa, named, short, found, decoded, checked, caller)

  -- A token is accepted exactly when its header names an RSA algorithm and a key id of at most 256
  -- bytes, the provider has a key for it, the decoder reads claims from it with that key,
  -- that algorithm alone and the checks of expiry and start with a leeway of a minute, of the audience
  -- and of the issuer switched on, and the claims are of the
  -- configured issuer, for a configured audience, of the configured tenant if there is one, and
  -- with the scope; the caller is then the subject of the claims.
  pub validate_iff :
      (token : Str) (who : Principal)
      → (validate decode_header decode config lookup token ≡ ok who) ↔ IsAccepted token who
  validate_iff token who = (validate-IsAccepted token who, validate_of token who)
