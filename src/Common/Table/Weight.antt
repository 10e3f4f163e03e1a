-- ===== src/Common/Table/Weight.antt =====
-- Sums over the entries of a table.
use typst_mcp.Common.{
  ℕ, ◌+◌, ◌≤◌, ◌≡◌, refl, sym, ap, ◌≢◌, inl, inr, Option, none, some, [], ◌∷◌, arith, Bool-cases,
  All, Has, Has-All, AreDistinct,
}
use mathlib.Core.Path.{subst}
use typst_mcp.Common.Key.{Key}
use typst_mcp.Common.Table.{Table, get, insert, remove}

module _ {K V : Type 0} where
  -- The sum of a weight over all entries.
  abbrev pub weight : (K → V → ℕ) → Table K V → ℕ
  weight w [] = 0
  weight w ((k, v) ∷ m) = w k v + weight w m

  -- The weight of what may stand under a key.
  abbrev pub weight_at : (K → V → ℕ) → K → Option V → ℕ
  weight_at w k none = 0
  weight_at w k (some v) = w k v

  -- A hash map holds each key once.
  abbrev pub HasUniqueKeys : Table K V → Type 0
  HasUniqueKeys m = AreDistinct (λ e. e.0) m

module _ {K V : Type 0} ⦃key : Key K⦄ where
  pub weight-insert :
      (w : K → V → ℕ) (k : K) (v : V) (m : Table K V)
      → weight w (insert k v m) + weight_at w k (get k m) ≡ weight w m + w k v
  unfolding insert get
  weight-insert w k v [] = omega arith
  weight-insert w k v ((j, u) ∷ m) = ground (arith, key.beq_iff j k, weight-insert w k v m)

  -- A key that stands behind no entry is not found.
  pub get-eq-none : (k : K) (m : Table K V) → All (λ e. e.0 ≢ k) m → get k m ≡ none
  unfolding get
  get-eq-none k [] h = refl
  get-eq-none k ((j, u) ∷ m) h = ground (arith, key.beq_iff j k, get-eq-none k m h.1)

  remove-absent : (k : K) (m : Table K V) → All (λ e. e.0 ≢ k) m → remove k m ≡ m
  unfolding remove
  remove-absent k [] h = refl
  remove-absent k ((j, u) ∷ m) h = ground (arith, key.beq_iff j k, remove-absent k m h.1)

  pub weight-remove :
      (w : K → V → ℕ) (k : K) (m : Table K V)
      → HasUniqueKeys m
      → weight w (remove k m) + weight_at w k (get k m) ≡ weight w m
  unfolding remove get
  weight-remove w k [] h = omega arith
  weight-remove w k ((j, u) ∷ m) h = elim (Bool-cases (key.beq j k)) [
    | inl e ↦
        let same = (key.beq_iff j k).0 e in
        let others = subst (λ x. All (λ y. y.0 ≢ x) m) same h.0 in
        rw e (rw (remove-absent k m others, same) (omega arith))
    | inr e ↦ rw e (omega (arith, weight-remove w k m h.1))
  ]

  pub weight_at-le : (w : K → V → ℕ) (k : K) (m : Table K V) → weight_at w k (get k m) ≤ weight w m
  unfolding get
  weight_at-le w k [] = omega arith
  weight_at-le w k ((j, u) ∷ m) = ground (arith, key.beq_iff j k, weight_at-le w k m)

  -- Keys stay apart.
  remove-All :
      (P : K → Type 0) (k : K) (m : Table K V) → All (λ e. P e.0) m → All (λ e. P e.0) (remove k m)
  unfolding remove
  remove-All P k [] h = tt
  remove-All P k ((j, u) ∷ m) h = elim (Bool-cases (key.beq j k)) [
    | inl e ↦ rw e (remove-All P k m h.1)
    | inr e ↦ rw e (h.0, remove-All P k m h.1)
  ]

  insert-All :
      (P : K → Type 0) (k : K) (v : V) (m : Table K V)
      → P k
      → All (λ e. P e.0) m
      → All (λ e. P e.0) (insert k v m)
  unfolding insert
  insert-All P k v [] p h = (p, tt)
  insert-All P k v ((j, u) ∷ m) p h = elim (Bool-cases (key.beq j k)) [
    | inl e ↦ rw e (p, h.1)
    | inr e ↦ rw e (h.0, insert-All P k v m p h.1)
  ]

  pub remove-HasUniqueKeys : (k : K) (m : Table K V) → HasUniqueKeys m → HasUniqueKeys (remove k m)
  unfolding remove
  remove-HasUniqueKeys k [] h = tt
  remove-HasUniqueKeys k ((j, u) ∷ m) h = elim (Bool-cases (key.beq j k)) [
    | inl e ↦ rw e (remove-HasUniqueKeys k m h.1)
    | inr e ↦ rw e (remove-All (λ x. x ≢ j) k m h.0, remove-HasUniqueKeys k m h.1)
  ]

  pub insert-HasUniqueKeys :
      (k : K) (v : V) (m : Table K V) → HasUniqueKeys m → HasUniqueKeys (insert k v m)
  unfolding insert
  insert-HasUniqueKeys k v [] h = (tt, tt)
  insert-HasUniqueKeys k v ((j, u) ∷ m) h = elim (Bool-cases (key.beq j k)) [
    | inl e ↦
        let same = (key.beq_iff j k).0 e in rw e (subst (λ x. All (λ y. y.0 ≢ x) m) same h.0, h.1)
    | inr e ↦ rw e (
      insert-All (λ x. x ≢ j) k v m (λ s. ground (arith, key.beq_iff j k, s, e)) h.0,
      insert-HasUniqueKeys k v m h.1,
    )
  ]

  pub get-of_Has :
      (k : K) (v : V) (m : Table K V) → HasUniqueKeys m → Has (k, v) m → get k m ≡ some v
  unfolding get
  get-of_Has k v [] u h = absurd h
  get-of_Has k v ((j, w) ∷ m) u (inl e) =
      let same : k ≡ j = ap (λ (x : K × V). x.0) e in
      let value : v ≡ w = ap (λ (x : K × V). x.1) e in
      rw ((key.beq_iff j k).1 (sym same)) (ap some (sym value))
  get-of_Has k v ((j, w) ∷ m) u (inr h) =
      let ne = Has-All (λ x. x.0 ≢ j) (k, v) m u.0 h in
      ground (arith, ne, key.beq_iff j k, get-of_Has k v m u.1 h)

  pub Has-of_get : (k : K) (v : V) (m : Table K V) → get k m ≡ some v → Has (k, v) m
  unfolding get
  Has-of_get k v [] h = ground arith
  Has-of_get k v ((j, w) ∷ m) h = elim (Bool-cases (key.beq j k)) [
    | inl e ↦
        let same = (key.beq_iff j k).0 e in let found : some w ≡ some v = rw e at h in inl (cc)
    | inr e ↦ inr (Has-of_get k v m (rw e at h))
  ]
