-- ===== src/OauthMetadata/Registration.antt =====
-- Whom `register` of src/oauth_metadata.rs registers.
use typst_mcp.Common.{
  ℕ, ◌≡◌, ap, ◌∙◌, inl, inr, Bool, true, false, Option, some, List, [], ◌∷◌, arith, not, Bool-cases,
  Option-cases, All, any, ok,
}
use mathlib.Core.Path.{subst}
use typst_mcp.Common.Text.{Str}
use typst_mcp.Oidc.{OidcConfig}
use typst_mcp.OauthRedirect.{Url, is_allowed_redirect_uri}
use typst_mcp.Config.{Access}
use typst_mcp.OauthMetadata.{Registered, register}

not-any-All :
    (p : Str → Bool) (xs : List Str) → any (λ x. not (p x)) xs ≡ false → All (λ x. p x ≡ true) xs
unfolding any
not-any-All p [] h = tt
not-any-All p (x ∷ xs) h = (ground (arith, h), not-any-All p xs (ground (arith, h)))

-- A client that is registered gets the one configured client id, and each redirect URI that the
-- answer repeats is in the allowlist.
pub register-IsAllowed :
    (parse_url : Str → Option Url) (config : Access) (oidc : Option OidcConfig)
    (redirect_uris : List Str) (now : ℕ) (r : Registered)
    → register parse_url config oidc redirect_uris now ≡ ok r
    → (config.dcr_client_id ≡ some r.client_id)
      × All
          (λ uri. is_allowed_redirect_uri parse_url config.oauth_redirect_uris uri ≡ true)
          r.redirect_uris
unfolding register
register-IsAllowed parse_url config oidc redirect_uris now r h =
    elim (Option-cases config.dcr_client_id) [
      | inl e ↦ absurd (cc (rw e at h))
      | inr (client_id, e) ↦
          let allowed =
            λ (uri : Str). is_allowed_redirect_uri parse_url config.oauth_redirect_uris uri in
          elim (Bool-cases (any (λ uri. not (allowed uri)) redirect_uris)) [
            | inl f ↦ absurd (cc (rw (e, f) at h))
            | inr f ↦
                let same_id : client_id ≡ r.client_id = cc (rw (e, f) at h) in
                let same : redirect_uris ≡ r.redirect_uris = cc (rw (e, f) at h) in
                (
                  e ∙ ap some same_id,
                  subst (All (λ uri. allowed uri ≡ true)) same
                      (not-any-All allowed redirect_uris f),
                )
          ]
    ]
