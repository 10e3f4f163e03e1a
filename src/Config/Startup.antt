-- ===== src/Config/Startup.antt =====
-- What holds of every configuration with which src/config.rs lets the server start.
mod Tests
use typst_mcp.Common.{
  ℕ, zero, suc, ◌+◌, ◌-◌, ◌*◌, ◌/◌, ◌%◌, ◌^◌, ◌≤◌, ◌<◌, ◌≡◌, refl, sym, ap, ◌∙◌, ◌≢◌, ◌↔◌, ◌⊎◌, inl,
  inr, Bool, true, false, ◌&&◌, ◌||◌, Option, none, some, List, [], ◌∷◌, ◌++◌, map, arith, ltb, leb,
  ◌==◌, if◌then◌else◌, not, Bool-cases, Option-cases, is_some, is_none, length, All, any, all, sum,
  Has, Has-All, AreDistinct, take, drop, get_or, Result, ok, err, ◌>>=◌, ok_or, map_err, bind-eq-ok,
  map_err-eq-ok, Result-cases, if-cases, unwrap_or,
}
use mathlib.Core.Path.{subst}
use typst_mcp.Common.Lists.{Has-snoc}
use typst_mcp.Common.Text.{Str, lit, len, bytes, trim, trim_end_slashes, split}
use typst_mcp.Principal.Keys.{ApiKey, ApiKeyConfigError, parse_keys}
use typst_mcp.Principal.Keys.Config.{AreSound, parse_keys-AreSound}
use typst_mcp.OauthRedirect.{Url}
use typst_mcp.Oidc.{OidcConfig}
use typst_mcp.Config.{
  min_secret_bytes, drop_empty, no_credentials, ConfigError, Source, filled, required, secret,
  Access, Settings, Config, oidc_of, read_oidc, read_keys, read_uris, finish_access, read_access,
  read_settings, from_source,
}

abbrev pub AcceptsResource : Str → Option OidcConfig → Type 0
AcceptsResource public_url none = Unit
AcceptsResource public_url (some oidc) = Has (public_url ++ lit "/mcp") oidc.extra_audiences

secret-long :
    (get : Source) (name : Str) (s : List ℕ) → secret get name ≡ ok s → min_secret_bytes ≤ length s
unfolding secret len
secret-long get name s h =
    let (v, there, h₁) = bind-eq-ok (required get name) _ h in
    elim (Bool-cases (ltb (len v) min_secret_bytes)) [
      | inl e ↦ absurd (cc (rw e at h₁))
      | inr e ↦ let same : bytes v ≡ s = cc (rw e at h₁) in rw (← same) (ground (arith, e))
    ]

oidc_of-AcceptsResource :
    (get : Source) (public_url issuer : Str) (audiences : List Str) (oidc : OidcConfig)
    → oidc_of get public_url issuer audiences ≡ ok oidc
    → Has (public_url ++ lit "/mcp") oidc.extra_audiences
unfolding oidc_of
oidc_of-AcceptsResource get public_url issuer [] oidc h = absurd (cc h)
oidc_of-AcceptsResource get public_url issuer (audience ∷ audiences) oidc h =
    let same : audiences ++ (public_url ++ lit "/mcp") ∷ [] ≡ oidc.extra_audiences = cc h in
    subst (Has (public_url ++ lit "/mcp")) same
      (Has-snoc (public_url ++ lit "/mcp") (public_url ++ lit "/mcp") audiences (inr refl))

read_oidc-AcceptsResource :
    (get : Source) (public_url : Str) (issuer : Option Str) (oidc : Option OidcConfig)
    → read_oidc get public_url issuer ≡ ok oidc
    → AcceptsResource public_url oidc
unfolding read_oidc oidc_of
read_oidc-AcceptsResource get public_url none oidc h =
    let same : none ≡ oidc = cc h in subst (AcceptsResource public_url) same tt
read_oidc-AcceptsResource get public_url (some issuer) oidc h =
    let (listed, there, h₁) = bind-eq-ok (required get (lit "OIDC_AUDIENCE")) _ h in
    let (made, parts, h₂) =
      bind-eq-ok (oidc_of get public_url issuer (drop_empty (map trim (split b',' listed)))) _ h₁ in
    let same : some made ≡ oidc = cc h₂ in
    subst (AcceptsResource public_url) same (
      oidc_of-AcceptsResource get public_url issuer (drop_empty (map trim (split b',' listed))) made
        parts)

module _ (sha256 : List ℕ → List ℕ) (hex : List ℕ → Str) (parse_url : Str → Option Url) where
  pub record IsSafe (a : Access) : Type 0 where
    pub salted : min_secret_bytes ≤ length a.tenant_salt
    pub signed : min_secret_bytes ≤ length a.signing_secret
    pub closed : (a.api_keys ≢ []) ⊎ (is_some a.oidc ≡ true)
    pub registered : (a.dcr_client_id ≡ none) ⊎ (a.oauth_redirect_uris ≢ [])
    pub keys : AreSound sha256 a.api_keys
    pub resource : AcceptsResource a.public_url a.oidc

  no_keys-AreSound : AreSound sha256 []
  no_keys-AreSound = record { sound = tt; labels = tt; secrets = tt }

  read_keys-AreSound :
      (v : Option Str) (keys : List ApiKey)
      → read_keys sha256 hex parse_url v ≡ ok keys
      → AreSound sha256 keys
  unfolding read_keys
  read_keys-AreSound none keys h = let same : [] ≡ keys = cc h in rw (← same) no_keys-AreSound
  read_keys-AreSound (some v) keys h =
      parse_keys-AreSound sha256 hex v keys (map_err-eq-ok _ (parse_keys sha256 hex v) h)

  nonempty : {A : Type 0} (xs : List A) → (length xs == 0) ≡ false → xs ≢ []
  nonempty [] h e = cc h
  nonempty (x ∷ xs) h e = cc e

  -- What the two refusals of `read_access` leave.
  registered_of :
      (dcr : Option Str) (uris : List Str)
      → (is_some dcr && length uris == 0) ≡ false
      → (dcr ≡ none) ⊎ (uris ≢ [])
  registered_of none uris h = inl refl
  registered_of (some id) uris h = inr (nonempty uris h)

  closed_of :
      (keys : List ApiKey) (oidc : Option OidcConfig)
      → (length keys == 0 && is_none oidc) ≡ false
      → (keys ≢ []) ⊎ (is_some oidc ≡ true)
  closed_of keys (some oidc) h = inr refl
  closed_of keys none h = inl (nonempty keys (ground (arith, h)))

  finish_access-IsSafe :
      (get : Source) (public_url : Str) (tenant_salt signing_secret : List ℕ) (keys : List ApiKey)
      (uris : List Str) (dcr : Option Str) (a : Access)
      → min_secret_bytes ≤ length tenant_salt
      → min_secret_bytes ≤ length signing_secret
      → AreSound sha256 keys
      → finish_access get public_url tenant_salt signing_secret keys uris dcr ≡ ok a
      → IsSafe a
  unfolding finish_access
  finish_access-IsSafe get public_url tenant_salt signing_secret keys uris dcr a salted signed sound
        h =
      elim (Bool-cases (is_some dcr && length uris == 0)) [
        | inl e ↦ absurd (cc (rw e at h))
        | inr e ↦
            let (oidc, read, h₁) =
              bind-eq-ok (read_oidc get public_url (filled (get (lit "OIDC_ISSUER")))) _
                (rw e at h) in
            elim (Bool-cases (length keys == 0 && is_none oidc)) [
              | inl f ↦ absurd (cc (rw f at h₁))
              | inr f ↦
                  let made : Access = record {
                    public_url = public_url;
                    tenant_salt = tenant_salt;
                    signing_secret = signing_secret;
                    api_keys = keys;
                    dcr_client_id = dcr;
                    oauth_redirect_uris = uris;
                    oidc = oidc;
                  } in
                  let same : made ≡ a = cc (rw f at h₁) in
                  subst IsSafe same (record {
                    salted = salted;
                    signed = signed;
                    closed = closed_of keys oidc f;
                    registered = registered_of dcr uris e;
                    keys = sound;
                    resource = read_oidc-AcceptsResource get public_url _ oidc read;
                  })
            ]
      ]

  read_access-IsSafe :
      (get : Source) (a : Access) → read_access sha256 hex parse_url get ≡ ok a → IsSafe a
  unfolding read_access read_keys
  read_access-IsSafe get a h =
      let (url, named, h₁) = bind-eq-ok (required get (lit "PUBLIC_URL")) _ h in
      let (tenant_salt, salted, h₂) = bind-eq-ok (secret get (lit "TENANT_SALT")) _ h₁ in
      let (signing_secret, signed, h₃) = bind-eq-ok (secret get (lit "SIGNING_SECRET")) _ h₂ in
      let (keys, read, h₄) =
        bind-eq-ok (read_keys sha256 hex parse_url (filled (get (lit "API_KEYS")))) _ h₃ in
      let (uris, listed, h₅) =
        bind-eq-ok (read_uris sha256 hex parse_url (filled (get (lit "OAUTH_REDIRECT_URIS")))) _
          h₄ in
      let dcr = filled (get (lit "DCR_CLIENT_ID")) in
      finish_access-IsSafe get (trim_end_slashes url) tenant_salt signing_secret keys uris dcr a
        (secret-long get _ tenant_salt salted) (secret-long get _ signing_secret signed)
        (read_keys-AreSound _ keys read) h₅

  -- Every configuration that is accepted is safe: both secrets have at least 32 bytes, there is an
  -- API key or an identity provider, a registered client comes with a redirect allowlist, the API
  -- keys are sound, and tokens for this server's own resource are accepted.
  pub from_source-IsSafe :
      {A : Type 0} (socket : Str → Option A) (parallelism : Option ℕ) (get : Source) (c : Config A)
      → from_source sha256 hex parse_url socket parallelism get ≡ ok c
      → IsSafe c.access
  unfolding from_source
  from_source-IsSafe socket parallelism get c h =
      let (a, first, h₁) = bind-eq-ok (read_access sha256 hex parse_url get) _ h in
      let (settings, second, h₂) = bind-eq-ok (read_settings socket parallelism get) _ h₁ in
      let same : a ≡ c.access = cc h₂ in subst IsSafe same (read_access-IsSafe get a first)
