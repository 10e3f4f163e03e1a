-- ===== src/OauthRedirect/Allowlist.antt =====
-- What the redirect allowlist (src/oauth_redirect.rs) lets through.
use typst_mcp.Common.{
  ◌≡◌, refl, sym, ap, ◌∙◌, ◌↔◌, ◌⊎◌, inl, inr, true, ◌||◌, Option, none, some, List, [], ◌∷◌, arith,
  Bool-cases, Option-cases, any, Has, ok, Result-cases,
}
use mathlib.Core.Path.{subst}
use typst_mcp.Common.Text.{Str, lit, str_eq}
use typst_mcp.Common.Text.Laws.{str_eq_iff}
use typst_mcp.OauthRedirect.{
  Url, opt_eq, contains, is_loopback_host, loopback_matches_ignoring_port, loopback_http,
  validate_redirect_uri, parse_loopback_http, any_loopback_matches, is_allowed_redirect_uri,
}

opt_eq_iff : (s t : Option Str) → (opt_eq s t ≡ true) ↔ (s ≡ t)
unfolding opt_eq
opt_eq_iff none none = (λ e. refl, λ e. refl)
opt_eq_iff none (some t) = (λ e. ground arith, λ e. ground arith)
opt_eq_iff (some s) none = (λ e. ground arith, λ e. ground arith)
opt_eq_iff (some s) (some t) =
    (λ e. ground (arith, str_eq_iff s t), λ e. ground (arith, str_eq_iff s t))

contains_iff : (uri : Str) (uris : List Str) → (contains uri uris ≡ true) ↔ Has uri uris
unfolding contains any
contains_iff uri [] = (λ e. ground arith, λ e. absurd e)
contains_iff uri (u ∷ uris) = (
  λ e. ground (arith, contains_iff uri uris, str_eq_iff u uri),
  λ e. ground (arith, contains_iff uri uris, str_eq_iff u uri),
)

-- A cleartext URL on the local machine.
abbrev pub IsLoopback : Url → Type 0
IsLoopback url =
    (url.scheme ≡ lit "http")
    × ((host : Str) × (url.host_str ≡ some host) × (is_loopback_host host ≡ true))

-- Two URLs that differ at most in what the code does not read, the port above all.
abbrev pub IsSameButPort : Url → Url → Type 0
IsSameButPort e r = (e.host_str ≡ r.host_str) × (e.path ≡ r.path) × (e.query ≡ r.query)

loopback_matches_iff : (e r : Url) → (loopback_matches_ignoring_port e r ≡ true) ↔ IsSameButPort e r
unfolding loopback_matches_ignoring_port
loopback_matches_iff e r = (
  λ h. ground (
    arith,
    opt_eq_iff e.host_str r.host_str,
    str_eq_iff e.path r.path,
    opt_eq_iff e.query r.query,
  ),
  λ h. ground (
    arith,
    opt_eq_iff e.host_str r.host_str,
    str_eq_iff e.path r.path,
    opt_eq_iff e.query r.query,
  ),
)

loopback_http_iff : (url e : Url) → (loopback_http url ≡ some e) ↔ ((url ≡ e) × IsLoopback e)
unfolding loopback_http
loopback_http_iff url e = elim (Bool-cases (str_eq url.scheme (lit "http"))) [
  | inr other ↦
      (λ h. absurd (cc (rw (other) at h)), λ h. ground (arith, str_eq_iff url.scheme (lit "http")))
  | inl same ↦ elim (Option-cases url.host_str) [
    | inl n ↦ (λ h. absurd (cc (rw (same, n) at h)), λ h. ground arith)
    | inr (host, n) ↦ elim (Bool-cases (is_loopback_host host)) [
      | inr far ↦ (λ h. absurd (cc (rw (same, n) at h)), λ h. ground arith)
      | inl near ↦ (
        λ h.
            let e' : some url ≡ some e = rw near at (rw (same, n) at h) in
            let eq : url ≡ e = cc e' in
            subst (λ x. (url ≡ x) × IsLoopback x) eq
              (refl, ((str_eq_iff url.scheme (lit "http")).0 same, (host, n, near))),
        λ h. rw (same, n) (rw near (ap some h.0)),
      )
    ]
  ]
]

module _ (parse : Str → Option Url) where
  parse_loopback_http_iff :
      (uri : Str) (e : Url)
      → (parse_loopback_http parse uri ≡ some e) ↔ ((parse uri ≡ some e) × IsLoopback e)
  unfolding parse_loopback_http
  parse_loopback_http_iff uri e = elim (Option-cases (parse uri)) [
    | inl n ↦ rw n (λ h. ground arith, λ h. ground arith)
    | inr (url, f) ↦
        rw f (
          λ h. ground (arith, loopback_http_iff url e),
          λ h. ground (arith, loopback_http_iff url e),
        )
  ]

  -- A loopback entry of the list, with the same host, path and query.
  abbrev pub HasTwin : List Str → Url → Type 0
  HasTwin allowed r =
      (a : Str) × (e : Url) × Has a allowed × (parse a ≡ some e) × IsLoopback e × IsSameButPort e r

  any_loopback_matches-none :
      (a : Str) (allowed : List Str) (r : Url)
      → parse_loopback_http parse a ≡ none
      → any_loopback_matches parse (a ∷ allowed) r ≡ any_loopback_matches parse allowed r
  unfolding any_loopback_matches
  any_loopback_matches-none a allowed r n = rw (n, any_loopback_matches) refl

  any_loopback_matches-some :
      (a : Str) (allowed : List Str) (r e : Url)
      → parse_loopback_http parse a ≡ some e
      → any_loopback_matches parse (a ∷ allowed) r
        ≡ (loopback_matches_ignoring_port e r || any_loopback_matches parse allowed r)
  unfolding any_loopback_matches
  any_loopback_matches-some a allowed r e n = rw (n, any_loopback_matches) refl

  HasTwin-of_any :
      (allowed : List Str) (r : Url)
      → any_loopback_matches parse allowed r ≡ true
      → HasTwin allowed r
  unfolding any_loopback_matches
  HasTwin-of_any [] r h = absurd (cc h)
  HasTwin-of_any (a ∷ allowed) r h = elim (Option-cases (parse_loopback_http parse a)) [
    | inl n ↦
        let later = HasTwin-of_any allowed r (sym (any_loopback_matches-none a allowed r n) ∙ h) in
        (later.0, later.1, inr later.2, later.3, later.4, later.5)
    | inr (e, n) ↦ elim (Bool-cases (loopback_matches_ignoring_port e r)) [
      | inl same ↦
          let (f, near) = (parse_loopback_http_iff a e).0 n in
          (a, e, inl refl, f, near, (loopback_matches_iff e r).0 same)
      | inr other ↦
          let rest : any_loopback_matches parse allowed r ≡ true =
            ground (arith, any_loopback_matches-some a allowed r e n) in
          let later = HasTwin-of_any allowed r rest in
          (later.0, later.1, inr later.2, later.3, later.4, later.5)
    ]
  ]

  any-of_HasTwin :
      (allowed : List Str) (r : Url)
      → HasTwin allowed r
      → any_loopback_matches parse allowed r ≡ true
  any-of_HasTwin [] r (a', e, there, f, near, equal) = absurd there
  any-of_HasTwin (a ∷ allowed) r (a', e, inl same, f, near, equal) =
      let n = (parse_loopback_http_iff a e).1 (ap parse (sym same) ∙ f, near) in
      let m = (loopback_matches_iff e r).1 equal in
      any_loopback_matches-some a allowed r e n ∙ rw m refl
  any-of_HasTwin (a ∷ allowed) r (a', e, inr there, f, near, equal) =
      let rest = any-of_HasTwin allowed r (a', e, there, f, near, equal) in
      elim (Option-cases (parse_loopback_http parse a)) [
        | inl n ↦ any_loopback_matches-none a allowed r n ∙ rest
        | inr (d, n) ↦ ground (arith, any_loopback_matches-some a allowed r d n)
      ]

  -- The list or the local machine.
  abbrev IsListed : List Str → Str → Type 0
  IsListed allowed uri =
      Has uri allowed ⊎ ((r : Url) × (parse uri ≡ some r) × IsLoopback r × HasTwin allowed r)

  is_allowed-of_valid :
      (allowed : List Str) (uri : Str)
      → validate_redirect_uri parse uri ≡ ok tt
      → (is_allowed_redirect_uri parse allowed uri ≡ true) ↔ IsListed allowed uri
  unfolding is_allowed_redirect_uri
  is_allowed-of_valid allowed uri good = elim (Bool-cases (contains uri allowed)) [
    | inl there ↦ (
      λ h. inl ((contains_iff uri allowed).0 there),
      λ h. rw (good, is_allowed_redirect_uri) (rw there refl),
    )
    | inr missing ↦ elim (Option-cases (parse_loopback_http parse uri)) [
      | inl n ↦ (
        λ h. absurd (cc (rw n at (rw missing at (rw (good, is_allowed_redirect_uri) at h)))),
        λ h. elim h [
          | inl there ↦ absurd (cc (missing, (contains_iff uri allowed).1 there))
          | inr (r, f, near, _) ↦ absurd (cc (n, (parse_loopback_http_iff uri r).1 (f, near)))
        ],
      )
      | inr (r, n) ↦ (
        λ h.
            let (f, near) = (parse_loopback_http_iff uri r).0 n in
            inr (
              r,
              f,
              near,
              HasTwin-of_any allowed r
                  (rw n at (rw missing at (rw (good, is_allowed_redirect_uri) at h))),
            ),
        λ h. elim h [
          | inl there ↦ absurd (cc (missing, (contains_iff uri allowed).1 there))
          | inr (d, f, near, twin) ↦
              let same : some d ≡ some r = sym ((parse_loopback_http_iff uri d).1 (f, near)) ∙ n in
              let eq : d ≡ r = cc same in
              rw (good, is_allowed_redirect_uri)
                (rw missing
                  (rw n (any-of_HasTwin allowed r (subst (λ x. HasTwin allowed x) eq twin))))
        ],
      )
    ]
  ]

  -- A redirect URI is let through exactly when it is valid and is either in the list as it is, or
  -- a cleartext URL on the local machine to which an entry of the list corresponds that is one too
  -- and has the same host, path and query.
  pub is_allowed_redirect_uri_iff :
      (allowed : List Str) (uri : Str)
      → (is_allowed_redirect_uri parse allowed uri ≡ true) ↔ (
          (validate_redirect_uri parse uri ≡ ok tt)
          × (Has uri allowed
              ⊎ ((r : Url) × (parse uri ≡ some r) × IsLoopback r × HasTwin allowed r)))
  unfolding is_allowed_redirect_uri
  is_allowed_redirect_uri_iff allowed uri = elim (Result-cases (validate_redirect_uri parse uri)) [
    | inr (x, bad) ↦
        (λ h. absurd (cc (rw (bad, is_allowed_redirect_uri) at h)), λ h. absurd (cc (bad, h.0)))
    | inl (_, good) ↦
        let both = is_allowed-of_valid allowed uri good in (λ h. (good, both.0 h), λ h. both.1 h.1)
  ]
