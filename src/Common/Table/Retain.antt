-- ===== src/Common/Table/Retain.antt =====
-- `HashMap::retain`.
use typst_mcp.Common.{
  ◌≤◌, ◌≡◌, refl, ◌≢◌, inl, inr, Bool, Option, none, some, [], ◌∷◌, arith, if◌then◌else◌,
  Bool-cases, length, All,
}
use mathlib.Core.Path.{subst}
use typst_mcp.Common.Key.{Key}
use typst_mcp.Common.Table
use typst_mcp.Common.Table.{Table}
use typst_mcp.Common.Table.Weight.{HasUniqueKeys, get-eq-none}

module _ {K V : Type 0} where
  -- What is kept of a value.
  abbrev pub kept_if : (K → V → Bool) → K → Option V → Option V
  kept_if p k none = none
  kept_if p k (some v) = if p k v then some v else none

  unfoldable pub retain : (K → V → Bool) → Table K V → Table K V
  retain p [] = []
  retain p ((k, v) ∷ m) = let rest = retain p m in if p k v then (k, v) ∷ rest else rest

  pub length-retain-le : (p : K → V → Bool) (m : Table K V) → length (retain p m) ≤ length m
  unfolding retain
  length-retain-le p [] = omega arith
  length-retain-le p ((k, v) ∷ m) = ground (arith, length-retain-le p m)

  pub retain-All :
      (P : K → Type 0) (p : K → V → Bool) (m : Table K V)
      → All (λ e. P e.0) m
      → All (λ e. P e.0) (retain p m)
  unfolding retain
  retain-All P p [] h = tt
  retain-All P p ((k, v) ∷ m) h = elim (Bool-cases (p k v)) [
    | inl e ↦ rw e (h.0, retain-All P p m h.1)
    | inr e ↦ rw e (retain-All P p m h.1)
  ]

  pub retain-HasUniqueKeys :
      (p : K → V → Bool) (m : Table K V) → HasUniqueKeys m → HasUniqueKeys (retain p m)
  unfolding retain
  retain-HasUniqueKeys p [] h = tt
  retain-HasUniqueKeys p ((k, v) ∷ m) h = elim (Bool-cases (p k v)) [
    | inl e ↦ rw e (retain-All (λ x. x ≢ k) p m h.0, retain-HasUniqueKeys p m h.1)
    | inr e ↦ rw e (retain-HasUniqueKeys p m h.1)
  ]

module _ {K V : Type 0} ⦃key : Key K⦄ where
  pub get-retain :
      (p : K → V → Bool) (k : K) (m : Table K V)
      → HasUniqueKeys m
      → Table.get k (retain p m) ≡ kept_if p k (Table.get k m)
  unfolding retain Table.get
  get-retain p k [] h = refl
  get-retain p k ((j, v) ∷ m) h = elim (Bool-cases (key.beq j k)) [
    | inl e ↦
        let same = (key.beq_iff j k).0 e in
        let others = subst (λ x. All (λ y. y.0 ≢ x) m) same h.0 in
        let missing = get-eq-none k (retain p m) (retain-All (λ x. x ≢ k) p m others) in
        ground (arith, e, same, missing)
    | inr e ↦ ground (arith, e, get-retain p k m h.1)
  ]
