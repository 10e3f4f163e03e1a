-- ===== src/OauthProxy/Params/Laws.antt =====
-- What the rewriting of parameters (src/oauth_proxy.rs) gives.
use typst_mcp.Common.{
  ◌≡◌, ap, ◌∙◌, ◌≢◌, inl, inr, Bool, true, false, some, List, [], ◌∷◌, ◌++◌, arith, if◌then◌else◌,
  Bool-cases, All, Has,
}
use typst_mcp.Common.Lists.{Has-snoc}
use typst_mcp.Common.Text.{Str, str_eq}
use typst_mcp.Common.Text.Laws.{str_eq_iff}
use typst_mcp.OauthProxy.Params.{Pair, values_of, only, exactly_one, rewrite_resource, without}

pub rewrite_resource-eq-some : (raw own r : Str) → rewrite_resource raw own ≡ some r → r ≡ own
unfolding rewrite_resource
rewrite_resource-eq-some raw own r h = ground arith

-- What is left when a name is dropped has other names, and what held of it before.
pub without-All :
    (P : Pair → Type 0) (name : Str) (pairs : List Pair)
    → All P pairs
    → All (λ q. P q × (q.0 ≢ name)) (without name pairs)
unfolding without
without-All P name [] h = tt
without-All P name ((k, v) ∷ pairs) h = elim (Bool-cases (str_eq k name)) [
  | inl e ↦ rw e (without-All P name pairs h.1)
  | inr e ↦ rw e ((h.0, λ same. ground (arith, str_eq_iff k name)), without-All P name pairs h.1)
]

module _ {A : Type 0} where
  -- What stands in a list stands there too if one more is added where a test fails.
  pub Has-added :
      (b : Bool) (x y : A) (xs : List A) → Has x xs → Has x (if b then xs else xs ++ y ∷ [])
  Has-added true x y xs m = m
  Has-added false x y xs m = Has-snoc x y xs (inl m)

Has-without :
    (name : Str) (q : Pair) (pairs : List Pair)
    → q.0 ≢ name
    → Has q pairs
    → Has q (without name pairs)
unfolding without
Has-without name q [] ne m = absurd m
Has-without name q ((k, v) ∷ pairs) ne m = elim (Bool-cases (str_eq k name)) [
  | inl e ↦ rw e (elim m [
    | inl same ↦ absurd (ne (ap (λ x. x.0) same ∙ (str_eq_iff k name).0 e))
    | inr m' ↦ Has-without name q pairs ne m'
  ])
  | inr e ↦ rw e (elim m [ inl same ↦ inl same | inr m' ↦ inr (Has-without name q pairs ne m') ])
]

-- Dropping a name keeps the parameters of other names.
pub Has-kept :
    (b : Bool) (name : Str) (q : Pair) (pairs : List Pair)
    → q.0 ≢ name
    → Has q pairs
    → Has q (if b then without name pairs else pairs)
Has-kept true name q pairs ne m = Has-without name q pairs ne m
Has-kept false name q pairs ne m = m

only_lem : (values : List Str) (v : Str) → only values ≡ some v → Has v values
only_lem [] v h = absurd (cc h)
only_lem (w ∷ []) v h = inl (cc h)
only_lem (w ∷ x ∷ values) v h = absurd (cc h)

Has-values_of :
    (pairs : List Pair) (name v : Str) → Has v (values_of name pairs) → Has (name, v) pairs
unfolding values_of
Has-values_of [] name v m = absurd m
Has-values_of ((k, w) ∷ pairs) name v m = elim (Bool-cases (str_eq k name)) [
  | inr e ↦ inr (Has-values_of pairs name v (rw e at m))
  | inl e ↦ elim (rw e at m) [
    | inl same ↦ inl (cc ((str_eq_iff k name).0 e, same))
    | inr m' ↦ inr (Has-values_of pairs name v m')
  ]
]

-- The one value of a name comes from a parameter of that name.
pub Has-exactly_one :
    (pairs : List Pair) (name v : Str) → exactly_one pairs name ≡ some v → Has (name, v) pairs
unfolding exactly_one
Has-exactly_one pairs name v h = Has-values_of pairs name v (only_lem (values_of name pairs) v h)
