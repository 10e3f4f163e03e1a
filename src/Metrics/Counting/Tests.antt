-- ===== src/Metrics/Counting/Tests.antt =====
-- Histograms of src/metrics.rs over natural numbers.
use typst_mcp.Common.{ℕ, ◌+◌, ◌%◌, ◌≡◌, List, [], ◌∷◌, map, leb, length}
use typst_mcp.Metrics.{Floats}
use typst_mcp.Metrics.Page.{shown_counts}
use typst_mcp.Metrics.Counting.{at_most, observed, shown_counts-observed}

-- Numbers without a fraction in place of floating-point numbers.
abbrev naturals : Floats ℕ
naturals = record {
  literal = λ s. length s;
  of_usize = λ n. n;
  le = leb;
  plus = λ a b. a + b;
  show = λ n. [];
}

abbrev bounds : List ℕ
bounds = 1 ∷ 5 ∷ []

abbrev values : List ℕ
values = 3 ∷ 9 ∷ 1 ∷ []

shown_counts-observed_example :
    (shown_counts (observed naturals bounds values).bucket_counts 0 bounds
      ≡ map (λ upper. at_most naturals upper values % 18446744073709551616) bounds)
    × ((observed naturals bounds values).count ≡ 3 % 18446744073709551616)
shown_counts-observed_example = shown_counts-observed naturals bounds values
