-- ===== src/OauthProxy/Requests.antt =====
-- The handlers `authorize`, `callback` and `token` of src/oauth_proxy.rs, on parsed parameters.
pub mod Sent
pub mod Exchanged
pub mod Forms
pub mod Authorizing
pub mod Redeeming
mod Tests
use typst_mcp.Common.{
  ℕ, zero, suc, ◌+◌, ◌-◌, ◌*◌, ◌/◌, ◌%◌, ◌^◌, ◌≤◌, ◌<◌, ◌≡◌, refl, sym, ap, ◌∙◌, ◌≢◌, ◌↔◌, ◌⊎◌, inl,
  inr, Bool, true, false, ◌&&◌, ◌||◌, Option, none, some, List, [], ◌∷◌, ◌++◌, map, arith, ltb, leb,
  ◌==◌, if◌then◌else◌, not, Bool-cases, Option-cases, is_some, is_none, length, All, any, all, sum,
  Has, Has-All, AreDistinct, take, drop, get_or, Result, ok, err, ◌>>=◌, ok_or, map_err, bind-eq-ok,
  map_err-eq-ok, Result-cases, if-cases, unwrap_or,
}
use typst_mcp.Common.Text.{Str, lit, len, str_eq, bytes}
use typst_mcp.OauthRedirect.{is_allowed_redirect_uri}
use typst_mcp.OauthProxy.{
  max_client_state_bytes, max_upstream_code_bytes, Pending, PendingCode, Packages, Proxy,
}
use typst_mcp.OauthProxy.Sealing.{encode_state, decode_state, encode_code, decode_code}
use typst_mcp.OauthProxy.Params.{
  Pair, values_of, exactly_one, valid_code_challenge, valid_code_verifier, challenge_for,
  rewrite_scope, rewrite_resource, without,
}

-- A request that is not sent on: the reason of a 400, or a 500.
pub data Refusal : Type 0 where
  bad_request : Str → Refusal
  internal_server_error : Refusal

pub client_state_of : List Pair → Result (Option Str) Refusal
client_state_of pairs = elim (values_of (lit "state") pairs) [
  | [] ↦ ok none
  | v ∷ [] ↦ ok (some v)
  | v ∷ w ∷ vs ↦ err (bad_request (lit "duplicate state"))
]

-- An early return where a test fails.
abbrev pub ensure : Bool → Refusal → Result (Unit {0}) Refusal
ensure b e = if b then ok tt else err e

abbrev is_long : Option Str → Bool
is_long none = false
is_long (some state) = ltb max_client_state_bytes (len state)

abbrev pub has_value : Str → Option Str → Bool
has_value s none = false
has_value s (some t) = str_eq t s

-- What a pass over the parameters has met.
pub record Seen : Type 0 where
  pub state : Bool
  pub scope : Bool
  pub resource : Bool
  pub dropped : Bool

abbrev pub nothing_seen : Seen
nothing_seen = record { state = false; scope = false; resource = false; dropped = false }

-- The arm of a pass for a `resource`.
abbrev rewrite_resource_pair : Pair → Seen → Option Str → Pair × Seen
rewrite_resource_pair (k, v) seen none = ((k, v), record seen { dropped = true })
rewrite_resource_pair (k, v) seen (some r) = ((k, r), record seen { resource = true })

module _ (proxy : Proxy) where
  -- One round of the loop in `authorize`.
  pub rewrite_authorize_pair : Str → Pair → Seen → Pair × Seen
  rewrite_authorize_pair proxy_state (k, v) seen =
      if str_eq k (lit "redirect_uri")
      then ((k, proxy.callback_url), seen)
      else if str_eq k (lit "state")
      then ((k, proxy_state), record seen { state = true })
      else if str_eq k (lit "scope")
      then ((k, rewrite_scope v proxy.api_scope), record seen { scope = true })
      else if str_eq k (lit "resource")
      then rewrite_resource_pair (k, v) seen (rewrite_resource v proxy.mcp_resource)
      else ((k, v), seen)

  rewrite_authorize_pairs : Str → List Pair → Seen → List Pair × Seen
  unfolding rewrite_authorize_pair
  rewrite_authorize_pairs proxy_state [] seen = ([], seen)
  rewrite_authorize_pairs proxy_state (pair ∷ pairs) seen =
      let (first, seen') = rewrite_authorize_pair proxy_state pair seen in
      let (rest, all_seen) = rewrite_authorize_pairs proxy_state pairs seen' in
      (first ∷ rest, all_seen)

  -- The parameters that `authorize` sends on.
  pub authorize_pairs : Str → List Pair → List Pair
  unfolding rewrite_authorize_pairs
  authorize_pairs proxy_state pairs =
      let (rewritten, seen) = rewrite_authorize_pairs proxy_state pairs nothing_seen in
      let kept = if seen.dropped then without (lit "resource") rewritten else rewritten in
      let with_state = if seen.state then kept else kept ++ (lit "state", proxy_state) ∷ [] in
      let with_scope =
        if seen.scope
        then with_state
        else with_state ++ (lit "scope", rewrite_scope [] proxy.api_scope) ∷ [] in
      if seen.resource then with_scope else with_scope ++ (lit "resource", proxy.mcp_resource) ∷ []

  -- One round of the loop in `token`; the code is replaced if one was redeemed.
  pub rewrite_token_pair : Option Str → Pair → Seen → Pair × Seen
  rewrite_token_pair upstream_code (k, v) seen =
      if str_eq k (lit "redirect_uri")
      then ((k, proxy.callback_url), seen)
      else if str_eq k (lit "code") && is_some upstream_code
      then ((k, unwrap_or upstream_code v), seen)
      else if str_eq k (lit "scope")
      then ((k, rewrite_scope v proxy.api_scope), record seen { scope = true })
      else if str_eq k (lit "resource")
      then rewrite_resource_pair (k, v) seen (rewrite_resource v proxy.mcp_resource)
      else ((k, v), seen)

  pub rewrite_token_pairs : Option Str → List Pair → Seen → List Pair × Seen
  unfolding rewrite_token_pair
  rewrite_token_pairs upstream_code [] seen = ([], seen)
  rewrite_token_pairs upstream_code (pair ∷ pairs) seen =
      let (first, seen') = rewrite_token_pair upstream_code pair seen in
      let (rest, all_seen) = rewrite_token_pairs upstream_code pairs seen' in
      (first ∷ rest, all_seen)

  -- The parameters that `token` sends on.
  pub token_pairs : Option Str → List Pair → List Pair
  unfolding rewrite_token_pairs
  token_pairs upstream_code pairs =
      let (rewritten, seen) = rewrite_token_pairs upstream_code pairs nothing_seen in
      let kept = if seen.dropped then without (lit "resource") rewritten else rewritten in
      if seen.scope || is_some upstream_code
      then kept
      else kept ++ (lit "scope", rewrite_scope [] proxy.api_scope) ∷ []

module _ (p : Packages) (proxy : Proxy) (now : ℕ) where
  -- The checks of `authorize`.
  pub check_authorize : List Pair → Result Pending Refusal
  unfolding client_state_of
  check_authorize pairs = do
    client_id ←
        ok_or (exactly_one pairs (lit "client_id"))
          (bad_request (lit "missing or duplicate client_id"))
    _ ← ensure (str_eq client_id proxy.client_id) (bad_request (lit "unregistered client_id"))
    _ ←
        ensure (has_value (lit "code") (exactly_one pairs (lit "response_type")))
          (bad_request (lit "response_type must be code"))
    redirect_uri ←
        ok_or (exactly_one pairs (lit "redirect_uri")) (bad_request (lit "missing redirect_uri"))
    _ ←
        ensure (is_allowed_redirect_uri p.parse_url proxy.allowed_redirect_uris redirect_uri)
          (bad_request (lit "unregistered redirect_uri"))
    client_state ← client_state_of pairs
    _ ← ensure (not (is_long client_state)) (bad_request (lit "state is too long"))
    challenge ←
        ok_or (exactly_one pairs (lit "code_challenge"))
          (bad_request (lit "missing or duplicate code_challenge"))
    _ ←
        ensure
          (valid_code_challenge challenge
            && has_value (lit "S256") (exactly_one pairs (lit "code_challenge_method")))
          (bad_request (lit "code_challenge_method must be S256 with a valid challenge"))
    ok (record {
      client_redirect_uri = redirect_uri;
      client_state = client_state;
      code_challenge = challenge;
      issued_at = now;
    })

  -- `authorize`: the parameters of the redirect to the identity provider.
  pub authorize : List Pair → Result (List Pair) Refusal
  unfolding check_authorize authorize_pairs
  authorize pairs = do
    pending ← check_authorize pairs
    proxy_state ← ok_or (encode_state p proxy.state_key pending) internal_server_error
    ok (authorize_pairs proxy proxy_state pairs)

  -- The code that goes back to the client, if the identity provider gave one.
  pub callback_code : Pending → Option Str → Result (List Pair) Refusal
  callback_code pending none = ok []
  callback_code pending (some code) =
      if ltb max_upstream_code_bytes (len code)
      then err (bad_request (lit "authorization code is too long"))
      else do
        proxy_code ←
            ok_or
              (encode_code p proxy.state_key (record {
                upstream_code = code;
                client_redirect_uri = pending.client_redirect_uri;
                code_challenge = pending.code_challenge;
                issued_at = now;
              }))
              internal_server_error
        ok ((lit "code", proxy_code) ∷ [])

  abbrev optional_pair : Str → Option Str → List Pair
  optional_pair name none = []
  optional_pair name (some v) = (name, v) ∷ []

  -- `callback`: the URI of the client, and the parameters that are appended to it.
  pub callback : List Pair → Result (Str × List Pair) Refusal
  unfolding callback_code
  callback pairs = do
    state ← ok_or (exactly_one pairs (lit "state")) (bad_request (lit "missing or duplicate state"))
    pending ←
        ok_or (decode_state p proxy.state_key now state)
          (bad_request (lit "unknown or expired state"))
    _ ←
        ensure (is_some (p.parse_url pending.client_redirect_uri))
          (bad_request (lit "bad client redirect_uri"))
    code ← callback_code pending (exactly_one pairs (lit "code"))
    ok (
      pending.client_redirect_uri,
      code
          ++ optional_pair (lit "error") (exactly_one pairs (lit "error"))
          ++ optional_pair (lit "error_description") (exactly_one pairs (lit "error_description"))
          ++ optional_pair (lit "state") pending.client_state,
    )

  -- What a token request redeems: the code of the identity provider.
  pub redeem : List Pair → Result Str Refusal
  redeem pairs = do
    redirect_uri ←
        ok_or (exactly_one pairs (lit "redirect_uri"))
          (bad_request (lit "missing or duplicate redirect_uri"))
    _ ←
        ensure (is_allowed_redirect_uri p.parse_url proxy.allowed_redirect_uris redirect_uri)
          (bad_request (lit "unregistered redirect_uri"))
    code ← ok_or (exactly_one pairs (lit "code")) (bad_request (lit "missing or duplicate code"))
    verifier ←
        ok_or (exactly_one pairs (lit "code_verifier"))
          (bad_request (lit "missing or duplicate code_verifier"))
    _ ← ensure (valid_code_verifier verifier) (bad_request (lit "invalid code_verifier"))
    pending ←
        ok_or (decode_code p proxy.state_key now code)
          (bad_request (lit "unknown or expired authorization code"))
    _ ←
        ensure
          (str_eq pending.client_redirect_uri redirect_uri
            && str_eq (bytes (challenge_for p.sha256 p.base64url verifier))
                (bytes pending.code_challenge))
          (bad_request (lit "authorization code binding mismatch"))
    ok pending.upstream_code

  -- `token`: the form that is sent to the identity provider.
  pub token : List Pair → Result (List Pair) Refusal
  unfolding redeem token_pairs
  token pairs = do
    client_id ←
        ok_or (exactly_one pairs (lit "client_id"))
          (bad_request (lit "missing or duplicate client_id"))
    _ ← ensure (str_eq client_id proxy.client_id) (bad_request (lit "unregistered client_id"))
    grant_type ←
        ok_or (exactly_one pairs (lit "grant_type"))
          (bad_request (lit "missing or duplicate grant_type"))
    if str_eq grant_type (lit "authorization_code")
        then (redeem pairs >>= λ upstream_code. ok (token_pairs proxy (some upstream_code) pairs))
        else if str_eq grant_type (lit "refresh_token")
        then ok (token_pairs proxy none pairs)
        else err (bad_request (lit "unsupported grant_type"))
