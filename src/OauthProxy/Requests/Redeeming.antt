-- ===== src/OauthProxy/Requests/Redeeming.antt =====
-- What the token endpoint of the proxy (src/oauth_proxy.rs) redeems and sends on.
use typst_mcp.Common.{
  ℕ, ◌≡◌, sym, Option, ◌⊎◌, inl, inr, true, none, some, List, arith, Bool-cases, Option-cases, ok,
  Result-cases,
}
use typst_mcp.Common.Text.{Str, lit, str_eq, bytes}
use typst_mcp.Common.Text.Laws.{str_eq_iff}
use typst_mcp.OauthProxy.{PendingCode, Packages, Proxy}
use typst_mcp.OauthProxy.Sealing.{decode_code}
use typst_mcp.OauthProxy.Params.{Pair, exactly_one, valid_code_verifier, challenge_for}
use typst_mcp.OauthProxy.Requests.{token_pairs, redeem, token}
use typst_mcp.OauthProxy.Requests.Exchanged.{IsFormOf}
use typst_mcp.OauthProxy.Requests.Forms.{token_pairs-IsFormOf}
use mathlib.Core.Path.{subst}

module _ (p : Packages) (proxy : Proxy) (now : ℕ) where
  -- What redeeming a code has found.
  pub record IsRedeemed (pairs : List Pair) (upstream_code : Str) : Type 0 where
    pub redirect_uri : Str
    pub code : Str
    pub verifier : Str
    pub pending : PendingCode
    pub redirect : exactly_one pairs (lit "redirect_uri") ≡ some redirect_uri
    pub presented : exactly_one pairs (lit "code") ≡ some code
    pub known : exactly_one pairs (lit "code_verifier") ≡ some verifier
    pub decoded : decode_code p proxy.state_key now code ≡ some pending
    pub same_redirect : pending.client_redirect_uri ≡ redirect_uri
    pub valid : valid_code_verifier verifier ≡ true
    pub bound : bytes (challenge_for p.sha256 p.base64url verifier) ≡ bytes pending.code_challenge
    pub upstream : upstream_code ≡ pending.upstream_code

  -- A code that is redeemed decodes under the key of the proxy; the request names the one redirect URI
  -- that the code carries and a valid verifier that hashes to the challenge that the code carries,
  -- and what is redeemed is the upstream code that it carries.
  pub redeem-IsRedeemed :
      (pairs : List Pair) (upstream_code : Str)
      → redeem p proxy now pairs ≡ ok upstream_code
      → IsRedeemed pairs upstream_code
  unfolding redeem
  redeem-IsRedeemed pairs upstream_code h =
      elim (Option-cases (exactly_one pairs (lit "redirect_uri"))) [
        | inl n ↦ absurd (ground arith)
        | inr (r, a) ↦ elim (Option-cases (exactly_one pairs (lit "code"))) [
          | inl n ↦ absurd (ground arith)
          | inr (c, b) ↦ elim (Option-cases (exactly_one pairs (lit "code_verifier"))) [
            | inl n ↦ absurd (ground arith)
            | inr (v, d) ↦ elim (Option-cases (decode_code p proxy.state_key now c)) [
              | inl n ↦ absurd (ground arith)
              | inr (pending, e) ↦
                  let challenge = challenge_for p.sha256 p.base64url v in
                  let is_same = str_eq_iff pending.client_redirect_uri r in
                  let is_bound = str_eq_iff (bytes challenge) (bytes pending.code_challenge) in
                  record {
                    redirect_uri = r;
                    code = c;
                    verifier = v;
                    pending = pending;
                    redirect = a;
                    presented = b;
                    known = d;
                    decoded = e;
                    same_redirect = ground arith;
                    valid = ground arith;
                    bound = ground arith;
                    upstream = ground arith;
                  }
            ]
          ]
        ]
      ]

  -- A token request that is sent on came from the registered client; it either redeems a code or is a
  -- refresh. In what is sent every address and every resource is the proxy's own, every scope is a
  -- rewritten one and, if a code is redeemed, every code is what was redeemed; every name of the request but that of a
  -- resource is in it, the other parameters are in it as they were, and no other name is but that of
  -- the scope.
  pub token_lem :
      (pairs sent : List Pair)
      → token p proxy now pairs ≡ ok sent
      → (exactly_one pairs (lit "client_id") ≡ some proxy.client_id)
        × (((upstream_code : Str) × (exactly_one pairs (lit "grant_type")
                ≡ some (lit "authorization_code"))
              × IsRedeemed pairs upstream_code
              × IsFormOf proxy (some upstream_code) pairs sent)
            ⊎ ((exactly_one pairs (lit "grant_type") ≡ some (lit "refresh_token"))
                × IsFormOf proxy none pairs sent))
  unfolding token
  token_lem pairs sent h =
      let form = λ (c : Option Str) (same : sent ≡ token_pairs proxy c pairs).
        subst (λ x. IsFormOf proxy c pairs x) (sym same) (token_pairs-IsFormOf proxy c pairs) in
      elim (Option-cases (exactly_one pairs (lit "client_id"))) [
        | inl n ↦ absurd (ground arith)
        | inr (c, a) ↦ elim (Option-cases (exactly_one pairs (lit "grant_type"))) [
          | inl n ↦ absurd (ground arith)
          | inr (g, b) ↦
              let is_client = str_eq_iff c proxy.client_id in
              let is_code = str_eq_iff g (lit "authorization_code") in
              let is_refresh = str_eq_iff g (lit "refresh_token") in
              elim (Result-cases (redeem p proxy now pairs)) [
                | inl (u, r) ↦
                    let redeemed = redeem-IsRedeemed pairs u r in
                    elim (Bool-cases (str_eq g (lit "authorization_code"))) [
                      | inl e ↦ (
                        ground arith,
                        inl (u, ground arith, redeemed, form (some u) (ground arith)),
                      )
                      | inr e ↦ (ground arith, inr (ground arith, form none (ground arith)))
                    ]
                | inr (x, r) ↦ elim (Bool-cases (str_eq g (lit "authorization_code"))) [
                  | inl e ↦ absurd (ground arith)
                  | inr e ↦ (ground arith, inr (ground arith, form none (ground arith)))
                ]
              ]
        ]
      ]
