-- ===== src/OauthProxy/Requests/Forms.antt =====
-- The form that `token` (src/oauth_proxy.rs) makes of a request.
use typst_mcp.Common.{
  ◌≡◌, refl, ◌≢◌, ◌⊎◌, inl, inr, Bool, true, false, Option, List, [], ◌∷◌, ◌++◌, arith, ◌||◌,
  is_some, if◌then◌else◌, Bool-cases, All, Has, Has-All,
}
use typst_mcp.Common.Lists.{All-append, All-map}
use typst_mcp.Common.Text.{Str, lit}
use typst_mcp.OauthProxy.{Proxy}
use typst_mcp.OauthProxy.Params.{Pair, without}
use typst_mcp.OauthProxy.Params.Laws.{without-All, Has-added, Has-kept}
use typst_mcp.OauthProxy.Requests.{nothing_seen, rewrite_token_pairs, token_pairs}
use typst_mcp.OauthProxy.Requests.Exchanged.{
  IsTranslated, IsExchanged, IsFormOf, pairs-IsTranslated, pairs-IsExchanged, pairs-names,
  pairs-named, pairs-untouched,
}

All-added :
    (P : Pair → Type 0) (b : Bool) (pairs : List Pair) (pair : Pair)
    → All P pairs
    → P pair
    → All P (if b then pairs else pairs ++ pair ∷ [])
All-added P true pairs pair h k = h
All-added P false pairs pair h k = All-append P pairs (pair ∷ []) h (k, tt)

All-kept :
    (P : Pair → Type 0) (b : Bool) (name : Str) (pairs : List Pair)
    → All P pairs
    → All P (if b then without name pairs else pairs)
All-kept P true name pairs h =
    All-map _ P (without name pairs) (λ q k. k.0) (without-All P name pairs h)
All-kept P false name pairs h = h

All-Has : (P : Pair → Type 0) (pairs : List Pair) → ((q : Pair) → Has q pairs → P q) → All P pairs
All-Has P [] f = tt
All-Has P (q ∷ pairs) f = (f q (inl refl), All-Has P pairs (λ r m. f r (inr m)))

module _ (proxy : Proxy) (redeemed : Option Str) (pairs : List Pair) where
  left-IsExchanged :
      let (rewritten, seen) = rewrite_token_pairs proxy redeemed pairs nothing_seen in
      All
        (IsExchanged proxy redeemed)
        (if seen.dropped then without (lit "resource") rewritten else rewritten)
  left-IsExchanged =
      let (rewritten, seen) = rewrite_token_pairs proxy redeemed pairs nothing_seen in
      elim (Bool-cases seen.dropped) [
        | inr e ↦ rw e (pairs-IsExchanged proxy redeemed pairs nothing_seen e).0
        | inl e ↦ rw e (
            All-map _ _ (without (lit "resource") rewritten)
              (λ q h. record {
                address = h.0.address;
                scope = h.0.scope;
                code = h.0.code;
                resource = λ same. absurd (h.1 same);
              })
              (without-All (IsTranslated proxy redeemed) (lit "resource") rewritten
                (pairs-IsTranslated proxy redeemed pairs nothing_seen)))
      ]

  -- The name of a parameter is that of one of the request, or that of the scope.
  abbrev IsKnown : Str → Type 0
  IsKnown k = ((v : Str) × Has (k, v) pairs) ⊎ (k ≡ lit "scope")

  token_pairs-IsKnown : All (λ q. IsKnown q.0) (token_pairs proxy redeemed pairs)
  unfolding token_pairs
  token_pairs-IsKnown =
      let (rewritten, seen) = rewrite_token_pairs proxy redeemed pairs nothing_seen in
      All-added (λ q. IsKnown q.0) (seen.scope || is_some redeemed) _ _
        (All-kept (λ q. IsKnown q.0) seen.dropped (lit "resource") rewritten
          (pairs-names proxy redeemed IsKnown pairs nothing_seen
            (All-Has (λ q. IsKnown q.0) pairs (λ q m. inl (q.1, m)))))
        (inr refl)

  -- A parameter that a pass gives, and that is no resource, is sent on.
  sent_of :
      (q : Pair)
      → q.0 ≢ lit "resource"
      → Has q (rewrite_token_pairs proxy redeemed pairs nothing_seen).0
      → Has q (token_pairs proxy redeemed pairs)
  unfolding token_pairs
  sent_of q ne m =
      let (rewritten, seen) = rewrite_token_pairs proxy redeemed pairs nothing_seen in
      Has-added (seen.scope || is_some redeemed) _ _ _
        (Has-kept seen.dropped (lit "resource") q rewritten ne m)

  token_pairs-IsExchanged : All (IsExchanged proxy redeemed) (token_pairs proxy redeemed pairs)
  unfolding token_pairs
  token_pairs-IsExchanged =
      let seen = (rewrite_token_pairs proxy redeemed pairs nothing_seen).1 in
      All-added (IsExchanged proxy redeemed) (seen.scope || is_some redeemed) _ _ left-IsExchanged
        (record {
          address = λ e. ground arith;
          scope = λ e. ([], refl);
          code = λ u r e. ground arith;
          resource = λ e. ground arith;
        })

  pub token_pairs-IsFormOf : IsFormOf proxy redeemed pairs (token_pairs proxy redeemed pairs)
  token_pairs-IsFormOf = record {
    exchanged = token_pairs-IsExchanged;
    named = λ k v m ne.
        let (w, found) = pairs-named proxy redeemed pairs nothing_seen k v m in
        (w, sent_of (k, w) ne found);
    untouched = λ k v m a b c d.
        sent_of (k, v) c (pairs-untouched proxy redeemed pairs nothing_seen k v a b c d m);
    nothing_else = λ k w m.
        Has-All (λ q. IsKnown q.0) (k, w) (token_pairs proxy redeemed pairs) token_pairs-IsKnown m;
  }
