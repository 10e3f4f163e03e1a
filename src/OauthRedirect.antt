-- ===== src/OauthRedirect.antt =====
-- src/oauth_redirect.rs: which redirect URIs an OAuth client may use. The URL parser comes from
-- another package and is a parameter.
pub mod Allowlist
mod Tests
use typst_mcp.Common.{
  ℕ, zero, suc, ◌+◌, ◌-◌, ◌*◌, ◌/◌, ◌%◌, ◌^◌, ◌≤◌, ◌<◌, ◌≡◌, refl, sym, ap, ◌∙◌, ◌≢◌, ◌↔◌, ◌⊎◌, inl,
  inr, Bool, true, false, ◌&&◌, ◌||◌, Option, none, some, List, [], ◌∷◌, ◌++◌, map, arith, ltb, leb,
  ◌==◌, if◌then◌else◌, not, Bool-cases, Option-cases, is_some, is_none, length, All, any, all, sum,
  Has, Has-All, AreDistinct, take, drop, get_or, Result, ok, err, ◌>>=◌, ok_or, map_err, bind-eq-ok,
  map_err-eq-ok, Result-cases, if-cases, unwrap_or,
}
use typst_mcp.Common.Text.{Str, lit, str_eq, is_empty, trim, split}

-- What the code reads of a `Url`; the port is not among it.
pub record Url : Type 0 where
  pub scheme : Str
  pub host_str : Option Str
  pub path : Str
  pub query : Option Str
  pub fragment : Option Str
  pub username : Str
  pub password : Option Str

-- The errors, without their texts.
pub data RedirectError : Type 0 where
  surrounding_whitespace unparsable missing_host cleartext_host missing_scheme : RedirectError
  has_fragment has_user_info no_uris : RedirectError

pub opt_eq : Option Str → Option Str → Bool
opt_eq none none = true
opt_eq (some s) (some t) = str_eq s t
opt_eq _ _ = false

-- `iter().any(|allowed| allowed == uri)`.
unfoldable pub contains : Str → List Str → Bool
contains uri uris = any (λ u. str_eq u uri) uris

pub is_loopback_host : Str → Bool
is_loopback_host host =
    str_eq host (lit "localhost")
    || str_eq host (lit "127.0.0.1")
    || str_eq host (lit "[::1]")
    || str_eq host (lit "::1")

pub loopback_matches_ignoring_port : Url → Url → Bool
unfolding opt_eq
loopback_matches_ignoring_port entry requested =
    opt_eq entry.host_str requested.host_str
    && str_eq entry.path requested.path
    && opt_eq entry.query requested.query

-- The match on the scheme in `validate_redirect_uri`.
unfoldable pub check_scheme : Url → Result (Unit {0}) RedirectError
unfolding is_loopback_host
check_scheme url =
    if str_eq url.scheme (lit "https")
    then if is_none url.host_str then err missing_host else ok tt
    else if str_eq url.scheme (lit "http")
    then if is_loopback_host (unwrap_or url.host_str []) then ok tt else err cleartext_host
    else if is_empty url.scheme
    then err missing_scheme
    else ok tt

-- The checks of `validate_redirect_uri` behind the parser.
unfoldable pub check_url : Url → Result (Unit {0}) RedirectError
unfolding check_scheme
check_url url = do
  _ ← check_scheme url
  if is_some url.fragment
      then err has_fragment
      else if not (is_empty url.username) || is_some url.password
      then err has_user_info
      else ok tt

-- `parse_loopback_http` behind the parser.
pub loopback_http : Url → Option Url
unfolding is_loopback_host
loopback_http url = if not (str_eq url.scheme (lit "http")) then none else elim url.host_str [
  | none ↦ none
  | some host ↦ if is_loopback_host host then some url else none
]

module _ (parse : Str → Option Url) where
  unfoldable pub validate_redirect_uri : Str → Result (Unit {0}) RedirectError
  unfolding check_url
  validate_redirect_uri uri =
      if not (str_eq (trim uri) uri) || is_empty uri
      then err surrounding_whitespace
      else do url ← ok_or (parse uri) unparsable; check_url url

  pub parse_loopback_http : Str → Option Url
  unfolding loopback_http
  parse_loopback_http uri = elim (parse uri) [ none ↦ none | some url ↦ loopback_http url ]

  -- `filter_map` and `any` over the allowlist.
  pub any_loopback_matches : List Str → Url → Bool
  unfolding parse_loopback_http loopback_matches_ignoring_port
  any_loopback_matches [] requested = false
  any_loopback_matches (a ∷ allowed) requested =
      let rest = any_loopback_matches allowed requested in
      elim (parse_loopback_http a) [
        | none ↦ rest
        | some entry ↦ loopback_matches_ignoring_port entry requested || rest
      ]

  unfoldable pub is_allowed_redirect_uri : List Str → Str → Bool
  unfolding validate_redirect_uri any_loopback_matches contains
  is_allowed_redirect_uri allowed uri = elim (validate_redirect_uri uri) [
    | err _ ↦ false
    | ok _ ↦ if contains uri allowed then true else elim (parse_loopback_http uri) [
      | none ↦ false
      | some requested ↦ any_loopback_matches allowed requested
    ]
  ]

  -- The loop of `parse_allowlist`.
  pub add_uris : List Str → List Str → Result (List Str) RedirectError
  unfolding validate_redirect_uri contains
  add_uris [] uris = ok uris
  add_uris (part ∷ parts) uris =
      let uri = trim part in
      if is_empty uri then add_uris parts uris else do
        _ ← validate_redirect_uri uri
        add_uris parts (if contains uri uris then uris else uris ++ uri ∷ [])

  pub parse_allowlist : Str → Result (List Str) RedirectError
  unfolding add_uris
  parse_allowlist raw = do
    uris ← add_uris (split b',' raw) []
    if length uris == 0 then err no_uris else ok uris
