-- ===== src/OauthProxy/Requests/Sent.antt =====
-- The parameters that `authorize` (src/oauth_proxy.rs) sends on.
use typst_mcp.Common.{
  ◌≡◌, refl, sym, ◌⊎◌, inl, inr, Bool, true, false, List, [], ◌∷◌, ◌++◌, arith, if◌then◌else◌,
  Bool-cases, Option-cases, All, Has,
}
use typst_mcp.Common.Lists.{All-append, All-map, Has-snoc}
use typst_mcp.Common.Text.{Str, lit, str_eq}
use typst_mcp.Common.Text.Laws.{str_eq_iff, str_eq_refl}
use typst_mcp.OauthProxy.{Proxy}
use typst_mcp.OauthProxy.Params.{Pair, rewrite_resource, without}
use typst_mcp.OauthProxy.Params.Laws.{rewrite_resource-eq-some, without-All, Has-added, Has-kept}
use typst_mcp.OauthProxy.Requests.{
  Seen, nothing_seen, rewrite_authorize_pair, rewrite_authorize_pairs, authorize_pairs,
}

-- A parameter that tells the identity provider the proxy's own address, the proxy's own state and
-- the proxy's own resource, where it tells one of these.
pub record IsOwn (proxy : Proxy) (own : Str) (pair : Pair) : Type 0 where
  pub address : pair.0 ≡ lit "redirect_uri" → pair.1 ≡ proxy.callback_url
  pub state : pair.0 ≡ lit "state" → pair.1 ≡ own
  pub resource : pair.0 ≡ lit "resource" → pair.1 ≡ proxy.mcp_resource

-- The same, but for a resource.
record IsOwnButResource (proxy : Proxy) (own : Str) (pair : Pair) : Type 0 where
  address : pair.0 ≡ lit "redirect_uri" → pair.1 ≡ proxy.callback_url
  state : pair.0 ≡ lit "state" → pair.1 ≡ own

module _ (proxy : Proxy) (own : Str) where
  pair-IsOwnButResource :
      (pair : Pair) (seen : Seen)
      → IsOwnButResource proxy own (rewrite_authorize_pair proxy own pair seen).0
  unfolding rewrite_authorize_pair
  pair-IsOwnButResource (k, v) seen =
      let is_address = str_eq_iff k (lit "redirect_uri") in
      let is_state = str_eq_iff k (lit "state") in
      let is_scope = str_eq_iff k (lit "scope") in
      let is_resource = str_eq_iff k (lit "resource") in
      record { address = λ e. ground arith; state = λ e. ground arith }

  -- A resource that is not the own one is noted.
  pair-IsOwn :
      (pair : Pair) (seen : Seen)
      → let r = rewrite_authorize_pair proxy own pair seen in
        r.1.dropped ≡ false → IsOwn proxy own r.0 × (seen.dropped ≡ false)
  unfolding rewrite_authorize_pair
  pair-IsOwn (k, v) seen h =
      let is_address = str_eq_iff k (lit "redirect_uri") in
      let is_state = str_eq_iff k (lit "state") in
      let is_scope = str_eq_iff k (lit "scope") in
      let is_resource = str_eq_iff k (lit "resource") in
      elim (Option-cases (rewrite_resource v proxy.mcp_resource)) [
        | inl n ↦ (
          record {
            address = λ e. ground arith;
            state = λ e. ground arith;
            resource = λ e. ground arith;
          },
          ground arith,
        )
        | inr (r, n) ↦
            let same = rewrite_resource-eq-some v proxy.mcp_resource r n in
            (
              record {
                address = λ e. ground arith;
                state = λ e. ground arith;
                resource = λ e. ground arith;
              },
              ground arith,
            )
      ]

  pairs-IsOwnButResource :
      (pairs : List Pair) (seen : Seen)
      → All (IsOwnButResource proxy own) (rewrite_authorize_pairs proxy own pairs seen).0
  unfolding rewrite_authorize_pairs
  pairs-IsOwnButResource [] seen = tt
  pairs-IsOwnButResource (pair ∷ pairs) seen = (
    pair-IsOwnButResource pair seen,
    pairs-IsOwnButResource pairs (rewrite_authorize_pair proxy own pair seen).1,
  )

  pairs-IsOwn :
      (pairs : List Pair) (seen : Seen)
      → let r = rewrite_authorize_pairs proxy own pairs seen in
        r.1.dropped ≡ false → All (IsOwn proxy own) r.0 × (seen.dropped ≡ false)
  unfolding rewrite_authorize_pairs
  pairs-IsOwn [] seen h = (tt, h)
  pairs-IsOwn (pair ∷ pairs) seen h =
      let later = pairs-IsOwn pairs (rewrite_authorize_pair proxy own pair seen).1 h in
      let first = pair-IsOwn pair seen later.1 in ((first.0, later.0), first.1)

  -- What is left of a pass: the pairs as they are, or without the resources.
  left-IsOwn :
      (pairs : List Pair)
      → let (rewritten, seen) = rewrite_authorize_pairs proxy own pairs nothing_seen in
        All
          (IsOwn proxy own)
          (if seen.dropped then without (lit "resource") rewritten else rewritten)
  left-IsOwn pairs =
      let (rewritten, seen) = rewrite_authorize_pairs proxy own pairs nothing_seen in
      elim (Bool-cases seen.dropped) [
        | inr e ↦ rw e (pairs-IsOwn pairs nothing_seen e).0
        | inl e ↦ rw e (
            All-map _ _ (without (lit "resource") rewritten)
              (λ q h. record {
                address = h.0.address;
                state = h.0.state;
                resource = λ same. absurd (h.1 same);
              })
              (without-All (IsOwnButResource proxy own) (lit "resource") rewritten
                (pairs-IsOwnButResource pairs nothing_seen)))
      ]

  -- One more pair where a test fails.
  added-IsOwn :
      (b : Bool) (pairs : List Pair) (pair : Pair)
      → All (IsOwn proxy own) pairs
      → IsOwn proxy own pair
      → All (IsOwn proxy own) (if b then pairs else pairs ++ pair ∷ [])
  added-IsOwn true pairs pair h k = h
  added-IsOwn false pairs pair h k = All-append (IsOwn proxy own) pairs (pair ∷ []) h (k, tt)

  pub authorize_pairs-IsOwn :
      (pairs : List Pair) → All (IsOwn proxy own) (authorize_pairs proxy own pairs)
  unfolding authorize_pairs
  authorize_pairs-IsOwn pairs =
      let seen = (rewrite_authorize_pairs proxy own pairs nothing_seen).1 in
      added-IsOwn seen.resource _ _
        (added-IsOwn seen.scope _ _
          (added-IsOwn seen.state _ _ (left-IsOwn pairs) (record {
            address = λ e. ground arith;
            state = λ e. refl;
            resource = λ e. ground arith;
          }))
          (record {
            address = λ e. ground arith;
            state = λ e. ground arith;
            resource = λ e. ground arith;
          }))
        (record { address = λ e. ground arith; state = λ e. ground arith; resource = λ e. refl })

pair-state :
    (proxy : Proxy) (own : Str) (pair : Pair) (seen : Seen)
    → let r = rewrite_authorize_pair proxy own pair seen in
      r.1.state ≡ true → (r.0 ≡ (lit "state", own)) ⊎ (seen.state ≡ true)
unfolding rewrite_authorize_pair
pair-state proxy own (k, v) seen h =
    let is_address = str_eq_iff k (lit "redirect_uri") in
    let is_state = str_eq_iff k (lit "state") in
    elim (Bool-cases (str_eq k (lit "state"))) [
      | inl e ↦ inl (ground (arith, is_state, e))
      | inr e ↦ inr (ground (arith, h, e))
    ]

pairs-address :
    (proxy : Proxy) (own : Str) (pairs : List Pair) (seen : Seen) (v : Str)
    → Has (lit "redirect_uri", v) pairs
    → Has (lit "redirect_uri", proxy.callback_url) (rewrite_authorize_pairs proxy own pairs seen).0
unfolding rewrite_authorize_pairs rewrite_authorize_pair
pairs-address proxy own [] seen v m = absurd m
pairs-address proxy own (pair ∷ pairs) seen v (inl same) =
    inl (rw (← same) (rw (str_eq_refl (lit "redirect_uri")) refl))
pairs-address proxy own (pair ∷ pairs) seen v (inr m) =
    inr (pairs-address proxy own pairs (rewrite_authorize_pair proxy own pair seen).1 v m)

-- What is sent on besides.
module _ (proxy : Proxy) (own : Str) where
  -- The state stands in a pass that has seen one.
  pairs-state :
      (pairs : List Pair) (seen : Seen)
      → let r = rewrite_authorize_pairs proxy own pairs seen in
        r.1.state ≡ true → Has (lit "state", own) r.0 ⊎ (seen.state ≡ true)
  unfolding rewrite_authorize_pairs
  pairs-state [] seen h = inr h
  pairs-state (pair ∷ pairs) seen h =
      elim (pairs-state pairs (rewrite_authorize_pair proxy own pair seen).1 h) [
        | inl m ↦ inl (inr m)
        | inr e ↦ elim (pair-state proxy own pair seen e) [
          | inl same ↦ inl (inl (sym same))
          | inr e' ↦ inr e'
        ]
      ]

  pub authorize_pairs-state :
      (pairs : List Pair) → Has (lit "state", own) (authorize_pairs proxy own pairs)
  unfolding authorize_pairs
  authorize_pairs-state pairs =
      let (rewritten, seen) = rewrite_authorize_pairs proxy own pairs nothing_seen in
      Has-added seen.resource _ _ _ (
        Has-added seen.scope _ _ _ (elim (Bool-cases seen.state) [
          | inr e ↦ rw e (Has-snoc _ _ _ (inr refl))
          | inl e ↦ rw e (elim (pairs-state pairs nothing_seen e) [
            | inl m ↦ Has-kept seen.dropped (lit "resource") _ rewritten (λ h. ground (arith, h)) m
            | inr f ↦ absurd (cc f)
          ])
        ]))

  pub authorize_pairs-address :
      (pairs : List Pair) (v : Str)
      → Has (lit "redirect_uri", v) pairs
      → Has (lit "redirect_uri", proxy.callback_url) (authorize_pairs proxy own pairs)
  unfolding authorize_pairs
  authorize_pairs-address pairs v m =
      let (rewritten, seen) = rewrite_authorize_pairs proxy own pairs nothing_seen in
      Has-added seen.resource _ _ _ (
        Has-added seen.scope _ _ _ (
          Has-added seen.state _ _ _ (
            Has-kept seen.dropped (lit "resource") _ rewritten (λ h. ground (arith, h))
              (pairs-address proxy own pairs nothing_seen v m))))
