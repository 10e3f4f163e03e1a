-- ===== src/OauthProxy/Requests/Exchanged.antt =====
-- The form that `token` (src/oauth_proxy.rs) sends on.
use typst_mcp.Common.{
  ◌≡◌, sym, ap, ◌∙◌, ◌≢◌, ◌⊎◌, inl, inr, false, Option, none, some, List, [], ◌∷◌, arith,
  Option-cases, All, Has,
}
use mathlib.Core.Path.{subst}
use typst_mcp.Common.Text.{Str, lit}
use typst_mcp.Common.Text.Laws.{str_eq_iff}
use typst_mcp.OauthProxy.{Proxy}
use typst_mcp.OauthProxy.Params.{Pair, rewrite_scope, rewrite_resource}
use typst_mcp.OauthProxy.Params.Laws.{rewrite_resource-eq-some}
use typst_mcp.OauthProxy.Requests.{Seen, rewrite_token_pair, rewrite_token_pairs}

-- A parameter that names the proxy's own address, a qualified scope, and the redeemed code if there is
-- one, where it names one of these.
pub record IsTranslated (proxy : Proxy) (redeemed : Option Str) (pair : Pair) : Type 0 where
  pub address : pair.0 ≡ lit "redirect_uri" → pair.1 ≡ proxy.callback_url
  pub scope : pair.0 ≡ lit "scope" → (raw : Str) × (pair.1 ≡ rewrite_scope raw proxy.api_scope)
  pub code : (u : Str) → redeemed ≡ some u → pair.0 ≡ lit "code" → pair.1 ≡ u

-- The same, and the proxy's own resource, where it names one.
pub record IsExchanged (proxy : Proxy) (redeemed : Option Str) (pair : Pair) : Type 0 where
  pub address : pair.0 ≡ lit "redirect_uri" → pair.1 ≡ proxy.callback_url
  pub scope : pair.0 ≡ lit "scope" → (raw : Str) × (pair.1 ≡ rewrite_scope raw proxy.api_scope)
  pub code : (u : Str) → redeemed ≡ some u → pair.0 ≡ lit "code" → pair.1 ≡ u
  pub resource : pair.0 ≡ lit "resource" → pair.1 ≡ proxy.mcp_resource

-- What a form is, of the parameters of the request: its parameters are exchanged, every name but that of
-- the resource is in it as before, the parameters that are none of the proxy's concern are in it as they
-- were, and no other name is in it but that of the scope.
pub record IsFormOf (proxy : Proxy) (redeemed : Option Str) (pairs sent : List Pair) : Type 0 where
  pub exchanged : All (IsExchanged proxy redeemed) sent
  pub named : (k v : Str) → Has (k, v) pairs → k ≢ lit "resource" → (w : Str) × Has (k, w) sent
  pub untouched :
      (k v : Str)
      → Has (k, v) pairs
      → k ≢ lit "redirect_uri"
      → k ≢ lit "scope"
      → k ≢ lit "resource"
      → (k ≢ lit "code") ⊎ (redeemed ≡ none)
      → Has (k, v) sent
  pub nothing_else :
      (k w : Str) → Has (k, w) sent → ((v : Str) × Has (k, v) pairs) ⊎ (k ≡ lit "scope")

module _ (proxy : Proxy) (redeemed : Option Str) where
  pair-IsTranslated :
      (pair : Pair) (seen : Seen)
      → IsTranslated proxy redeemed (rewrite_token_pair proxy redeemed pair seen).0
  unfolding rewrite_token_pair
  pair-IsTranslated (k, v) seen =
      let is_address = str_eq_iff k (lit "redirect_uri") in
      let is_code = str_eq_iff k (lit "code") in
      let is_scope = str_eq_iff k (lit "scope") in
      let is_resource = str_eq_iff k (lit "resource") in
      record {
        address = λ e. ground arith;
        scope = λ e. (v, ground arith);
        code = λ u r e. ground arith;
      }

  -- A resource that is not the own one is noted.
  pair-resource :
      (pair : Pair) (seen : Seen)
      → let r = rewrite_token_pair proxy redeemed pair seen in
        r.1.dropped ≡ false
        → (r.0.0 ≡ lit "resource" → r.0.1 ≡ proxy.mcp_resource) × (seen.dropped ≡ false)
  unfolding rewrite_token_pair
  pair-resource (k, v) seen h =
      let is_address = str_eq_iff k (lit "redirect_uri") in
      let is_code = str_eq_iff k (lit "code") in
      let is_scope = str_eq_iff k (lit "scope") in
      let is_resource = str_eq_iff k (lit "resource") in
      elim (Option-cases (rewrite_resource v proxy.mcp_resource)) [
        | inl n ↦ (λ e. ground arith, ground arith)
        | inr (r, n) ↦
            let same = rewrite_resource-eq-some v proxy.mcp_resource r n in
            (λ e. ground arith, ground arith)
      ]

  pair-name :
      (pair : Pair) (seen : Seen) → (rewrite_token_pair proxy redeemed pair seen).0.0 ≡ pair.0
  unfolding rewrite_token_pair
  pair-name (k, v) seen = elim (Option-cases (rewrite_resource v proxy.mcp_resource)) [
    | inl n ↦ ground arith
    | inr (r, n) ↦ ground arith
  ]

  pair-untouched :
      (k v : Str) (seen : Seen)
      → k ≢ lit "redirect_uri"
      → k ≢ lit "scope"
      → k ≢ lit "resource"
      → (k ≢ lit "code") ⊎ (redeemed ≡ none)
      → (rewrite_token_pair proxy redeemed (k, v) seen).0 ≡ (k, v)
  unfolding rewrite_token_pair
  pair-untouched k v seen a b c d =
      let is_address = str_eq_iff k (lit "redirect_uri") in
      let is_code = str_eq_iff k (lit "code") in
      let is_scope = str_eq_iff k (lit "scope") in
      let is_resource = str_eq_iff k (lit "resource") in ground arith

  pub pairs-IsTranslated :
      (pairs : List Pair) (seen : Seen)
      → All (IsTranslated proxy redeemed) (rewrite_token_pairs proxy redeemed pairs seen).0
  unfolding rewrite_token_pairs
  pairs-IsTranslated [] seen = tt
  pairs-IsTranslated (pair ∷ pairs) seen = (
    pair-IsTranslated pair seen,
    pairs-IsTranslated pairs (rewrite_token_pair proxy redeemed pair seen).1,
  )

  pub pairs-IsExchanged :
      (pairs : List Pair) (seen : Seen)
      → let r = rewrite_token_pairs proxy redeemed pairs seen in
        r.1.dropped ≡ false → All (IsExchanged proxy redeemed) r.0 × (seen.dropped ≡ false)
  unfolding rewrite_token_pairs
  pairs-IsExchanged [] seen h = (tt, h)
  pairs-IsExchanged (pair ∷ pairs) seen h =
      let later = pairs-IsExchanged pairs (rewrite_token_pair proxy redeemed pair seen).1 h in
      let (resource, before) = pair-resource pair seen later.1 in
      let first = pair-IsTranslated pair seen in
      (
        (
          record {
            address = first.address;
            scope = first.scope;
            code = first.code;
            resource = resource;
          },
          later.0,
        ),
        before,
      )

  -- Whatever holds of the names of a request holds of the names behind the pass.
  pub pairs-names :
      (P : Str → Type 0) (pairs : List Pair) (seen : Seen)
      → All (λ q. P q.0) pairs
      → All (λ q. P q.0) (rewrite_token_pairs proxy redeemed pairs seen).0
  unfolding rewrite_token_pairs
  pairs-names P [] seen h = tt
  pairs-names P (pair ∷ pairs) seen h = (
    subst P (sym (pair-name pair seen)) h.0,
    pairs-names P pairs (rewrite_token_pair proxy redeemed pair seen).1 h.1,
  )

  pub pairs-named :
      (pairs : List Pair) (seen : Seen) (k v : Str)
      → Has (k, v) pairs
      → (w : Str) × Has (k, w) (rewrite_token_pairs proxy redeemed pairs seen).0
  unfolding rewrite_token_pairs
  pairs-named [] seen k v m = absurd m
  pairs-named (pair ∷ pairs) seen k v (inl same) =
      let r = (rewrite_token_pair proxy redeemed pair seen).0 in
      let name : r.0 ≡ k = pair-name pair seen ∙ sym (ap (λ q. q.0) same) in
      (r.1, inl (ground (arith, name)))
  pairs-named (pair ∷ pairs) seen k v (inr m) =
      let (w, found) = pairs-named pairs (rewrite_token_pair proxy redeemed pair seen).1 k v m in
      (w, inr found)

  pub pairs-untouched :
      (pairs : List Pair) (seen : Seen) (k v : Str)
      → k ≢ lit "redirect_uri"
      → k ≢ lit "scope"
      → k ≢ lit "resource"
      → (k ≢ lit "code") ⊎ (redeemed ≡ none)
      → Has (k, v) pairs
      → Has (k, v) (rewrite_token_pairs proxy redeemed pairs seen).0
  unfolding rewrite_token_pairs
  pairs-untouched [] seen k v a b c d m = absurd m
  pairs-untouched (pair ∷ pairs) seen k v a b c d (inl same) = inl (
      sym (pair-untouched k v seen a b c d)
      ∙ ap (λ q. (rewrite_token_pair proxy redeemed q seen).0) same)
  pairs-untouched (pair ∷ pairs) seen k v a b c d (inr m) =
      inr (pairs-untouched pairs (rewrite_token_pair proxy redeemed pair seen).1 k v a b c d m)
