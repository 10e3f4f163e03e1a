-- ===== src/OauthProxy/Requests/Authorizing.antt =====
-- What `authorize` (src/oauth_proxy.rs) checks and sends on.
use typst_mcp.Common.{
  ℕ, ◌≡◌, inl, inr, true, some, List, arith, Option-cases, All, Has, ok, ok_or, bind-eq-ok,
}
use mathlib.Core.Path.{subst}
use typst_mcp.Common.Errors.{ok_or-eq-ok}
use typst_mcp.Common.Text.{Str, lit}
use typst_mcp.Common.Text.Laws.{str_eq_iff}
use typst_mcp.OauthRedirect.{is_allowed_redirect_uri}
use typst_mcp.OauthProxy.{Pending, Packages, Proxy}
use typst_mcp.OauthProxy.Sealing.{encode_state}
use typst_mcp.OauthProxy.Params.{Pair, exactly_one, valid_code_challenge}
use typst_mcp.OauthProxy.Params.Laws.{Has-exactly_one}
use typst_mcp.OauthProxy.Requests.{
  internal_server_error, authorize_pairs, check_authorize, authorize,
}
use typst_mcp.OauthProxy.Requests.Sent.{
  IsOwn, authorize_pairs-IsOwn, authorize_pairs-address, authorize_pairs-state,
}

module _ (p : Packages) (proxy : Proxy) (now : ℕ) where
  -- What the checks of `authorize` have found.
  pub record IsAuthorized (pairs : List Pair) (pending : Pending) : Type 0 where
    pub client : exactly_one pairs (lit "client_id") ≡ some proxy.client_id
    pub redirect : exactly_one pairs (lit "redirect_uri") ≡ some pending.client_redirect_uri
    pub allowed :
        is_allowed_redirect_uri p.parse_url proxy.allowed_redirect_uris pending.client_redirect_uri
        ≡ true
    pub challenge : exactly_one pairs (lit "code_challenge") ≡ some pending.code_challenge
    pub valid : valid_code_challenge pending.code_challenge ≡ true
    pub issued : pending.issued_at ≡ now

  check_authorize-IsAuthorized :
      (pairs : List Pair) (pending : Pending)
      → check_authorize p proxy now pairs ≡ ok pending
      → IsAuthorized pairs pending
  unfolding check_authorize
  check_authorize-IsAuthorized pairs pending h =
      elim (Option-cases (exactly_one pairs (lit "client_id"))) [
        | inl n ↦ ground arith
        | inr (c, n) ↦ ground (arith, str_eq_iff c proxy.client_id)
      ]

  -- A request that `authorize` sends on came from the registered client, with one redirect URI that
  -- the list lets through and one valid challenge; the state that goes with it seals these, and
  -- the proxy's own address and that state
  -- are among what the identity provider is told, and every address, state and resource that it is told
  -- is the proxy's own.
  pub authorize_lem :
      (pairs sent : List Pair)
      → authorize p proxy now pairs ≡ ok sent
      → (pending : Pending) × (state : Str) × IsAuthorized pairs pending
        × (encode_state p proxy.state_key pending ≡ some state)
        × All (IsOwn proxy state) sent
        × Has (lit "redirect_uri", proxy.callback_url) sent
        × Has (lit "state", state) sent
  unfolding authorize
  authorize_lem pairs sent h =
      let (pending, checked, h1) = bind-eq-ok (check_authorize p proxy now pairs) _ h in
      let (state, encoded, h2) =
        bind-eq-ok (ok_or (encode_state p proxy.state_key pending) internal_server_error) _ h1 in
      let done : ok (authorize_pairs proxy state pairs) ≡ ok sent = h2 in
      let same : authorize_pairs proxy state pairs ≡ sent = cc done in
      let found = check_authorize-IsAuthorized pairs pending checked in
      let address =
        authorize_pairs-address proxy state pairs pending.client_redirect_uri
          (Has-exactly_one pairs (lit "redirect_uri") pending.client_redirect_uri found.redirect) in
      (
        pending,
        state,
        found,
        ok_or-eq-ok _ _ encoded,
        subst (λ x. All (IsOwn proxy state) x) same (authorize_pairs-IsOwn proxy state pairs),
        subst (λ x. Has (lit "redirect_uri", proxy.callback_url) x) same address,
        subst (λ x. Has (lit "state", state) x) same (authorize_pairs-state proxy state pairs),
      )
