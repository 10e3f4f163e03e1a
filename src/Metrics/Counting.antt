-- ===== src/Metrics/Counting.antt =====
-- What a histogram of src/metrics.rs counts.
mod Tests
use typst_mcp.Common.{
  ℕ, zero, suc, ◌+◌, ◌-◌, ◌*◌, ◌/◌, ◌%◌, ◌^◌, ◌≤◌, ◌<◌, ◌≡◌, refl, sym, ap, ◌∙◌, ◌≢◌, ◌↔◌, ◌⊎◌, inl,
  inr, Bool, true, false, ◌&&◌, ◌||◌, Option, none, some, List, [], ◌∷◌, ◌++◌, map, arith, ltb, leb,
  ◌==◌, if◌then◌else◌, not, Bool-cases, Option-cases, is_some, is_none, length, All, any, all, sum,
  Has, Has-All, AreDistinct, take, drop, get_or, Result, ok, err, ◌>>=◌, ok_or, map_err, bind-eq-ok,
  map_err-eq-ok, Result-cases, if-cases, unwrap_or,
}
use typst_mcp.Metrics.{Floats, Histogram, no_observations, resize, bump, observe, zeros, next64}
use typst_mcp.Metrics.Page.{shown_count, shown_counts}

pub next64-mod : (n : ℕ) → next64 (n % 18446744073709551616) ≡ suc n % 18446744073709551616
next64-mod n = omega arith

module _ {F : Type 0} (floats : Floats F) where
  -- How many of the values are at most `upper`.
  pub at_most : F → List F → ℕ
  at_most upper [] = 0
  at_most upper (v ∷ vs) =
      let rest = at_most upper vs in if floats.le v upper then suc rest else rest

  -- A histogram behind these observations, the last one first.
  pub observed : List F → List F → Histogram F
  observed buckets [] = no_observations floats
  observed buckets (v ∷ vs) = observe floats (observed buckets vs) v buckets

  abbrev exact : List F → List F → List ℕ
  exact vs buckets = map (λ upper. at_most upper vs % 18446744073709551616) buckets

  length-exact : (vs buckets : List F) → length (exact vs buckets) ≡ length buckets
  length-exact vs [] = refl
  length-exact vs (upper ∷ buckets) = ap suc (length-exact vs buckets)

  bump-exact :
      (v : F) (vs buckets : List F)
      → bump floats v buckets (exact vs buckets) ≡ exact (v ∷ vs) buckets
  unfolding bump at_most
  bump-exact v vs [] = refl
  bump-exact v vs (upper ∷ buckets) =
      let rest = bump-exact v vs buckets in
      elim (Bool-cases (floats.le v upper)) [
        | inl e ↦ rw e (rw (next64-mod (at_most upper vs), rest) refl)
        | inr e ↦ rw e (rw rest refl)
      ]

  zeros-exact : (buckets : List F) → zeros (length buckets) ≡ exact [] buckets
  unfolding at_most
  zeros-exact [] = refl
  zeros-exact (upper ∷ buckets) = ap (λ x. 0 ∷ x) (zeros-exact buckets)

  resize-nil : (buckets : List F) → resize [] (length buckets) ≡ exact [] buckets
  unfolding resize
  resize-nil [] = refl
  resize-nil (upper ∷ buckets) = ground (arith, zeros-exact (upper ∷ buckets))

  resize-exact :
      (vs buckets : List F) → resize (exact vs buckets) (length buckets) ≡ exact vs buckets
  unfolding resize
  resize-exact vs buckets = rw (length-exact vs buckets) (ground arith)

  -- The counts that the histogram keeps: none before the first observation.
  observed-counts :
      (v : F) (vs buckets : List F)
      → (observed buckets (v ∷ vs)).bucket_counts ≡ exact (v ∷ vs) buckets
  unfolding observed observe no_observations resize
  observed-counts v [] buckets = rw (resize-nil buckets) (bump-exact v [] buckets)
  observed-counts v (w ∷ vs) buckets =
      let kept =
        ap (λ c. resize c (length buckets)) (observed-counts w vs buckets)
        ∙ resize-exact (w ∷ vs) buckets in
      ap (bump floats v buckets) kept ∙ bump-exact v (w ∷ vs) buckets

  shown_counts-there :
      (c : ℕ) (counts : List ℕ) (index : ℕ) (buckets : List F)
      → shown_counts (c ∷ counts) (suc index) buckets ≡ shown_counts counts index buckets
  unfolding shown_counts
  shown_counts-there c counts index [] = refl
  shown_counts-there c counts index (upper ∷ buckets) =
      ap (λ x. get_or counts index 0 ∷ x) (shown_counts-there c counts (suc index) buckets)

  shown_counts-exact :
      (vs buckets : List F) → shown_counts (exact vs buckets) 0 buckets ≡ exact vs buckets
  unfolding shown_counts
  shown_counts-exact vs [] = refl
  shown_counts-exact vs (upper ∷ buckets) =
      ap (λ x. at_most upper vs % 18446744073709551616 ∷ x)
        (shown_counts-there _ (exact vs buckets) 0 buckets ∙ shown_counts-exact vs buckets)

  shown_counts-nil :
      (index : ℕ) (buckets : List F) → shown_counts [] index buckets ≡ exact [] buckets
  unfolding shown_counts at_most
  shown_counts-nil index [] = refl
  shown_counts-nil index (upper ∷ buckets) = ap (λ x. 0 ∷ x) (shown_counts-nil (suc index) buckets)

  count-observed :
      (buckets vs : List F) → (observed buckets vs).count ≡ length vs % 18446744073709551616
  unfolding observed observe no_observations
  count-observed buckets [] = refl
  count-observed buckets (v ∷ vs) = rw (count-observed buckets vs) (next64-mod (length vs))

  -- Behind any observations, also before the first, each line that is written for a bucket has the
  -- number of the observed values that are at most its bound, and the total has the number of all
  -- of them, modulo 2^64.
  pub shown_counts-observed :
      (buckets vs : List F)
      → (shown_counts (observed buckets vs).bucket_counts 0 buckets
          ≡ map (λ upper. at_most upper vs % 18446744073709551616) buckets)
        × ((observed buckets vs).count ≡ length vs % 18446744073709551616)
  unfolding observed no_observations
  shown_counts-observed buckets [] = (shown_counts-nil 0 buckets, count-observed buckets [])
  shown_counts-observed buckets (v ∷ vs) = (
    ap (λ c. shown_counts c 0 buckets) (observed-counts v vs buckets)
        ∙ shown_counts-exact (v ∷ vs) buckets,
    count-observed buckets (v ∷ vs),
  )
