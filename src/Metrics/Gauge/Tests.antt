-- ===== src/Metrics/Gauge/Tests.antt =====
-- A run of src/metrics.rs in which one compile ends and one is given up.
use typst_mcp.Common.{ℕ, ◌+◌, ◌%◌, ◌≡◌, [], ◌∷◌, leb, length, All, Has, ok}
use typst_mcp.Common.Text.{lit}
use typst_mcp.Metrics.{
  Floats, CompileObservation, no_metrics, start_compile, drop_observation, finish,
}
use typst_mcp.Metrics.Gauge.{
  Server, labels, Reach, starts, finishes, drops, fresh, next, Reach-IsGauged,
}

abbrev naturals : Floats ℕ
naturals = record {
  literal = λ s. length s;
  of_usize = λ n. n;
  le = leb;
  plus = λ a b. a + b;
  show = λ n. [];
}

abbrev s1 : Server ℕ
s1 = record {
  metrics = (start_compile naturals (no_metrics naturals) (lit "hanso")).1;
  live = (start_compile naturals (no_metrics naturals) (lit "hanso")).0 ∷ [];
}

abbrev s2 : Server ℕ
s2 = record {
  metrics = (start_compile naturals s1.metrics (lit "secret")).1;
  live = (start_compile naturals s1.metrics (lit "secret")).0 ∷ s1.live;
}

abbrev hanso : CompileObservation
hanso = (start_compile naturals (no_metrics naturals) (lit "hanso")).0

abbrev secret : CompileObservation
secret = (start_compile naturals s1.metrics (lit "secret")).0

abbrev s3 : Server ℕ
s3 = record { metrics = finish naturals s2.metrics hanso 7 (ok (3, 1000)); live = secret ∷ [] }

abbrev s4 : Server ℕ
s4 = record { metrics = drop_observation naturals s3.metrics secret; live = [] }

s4-Reach : Reach naturals s4
s4-Reach =
    next
      (next (next (next fresh (starts _ (lit "hanso"))) (starts s1 (lit "secret")))
        (finishes s2.metrics (secret ∷ []) [] hanso 7 (ok (3, 1000))))
      (drops s3.metrics [] [] secret)

Reach-IsGauged_example :
    (s4.metrics.compiles_in_flight ≡ length s4.live % 18446744073709551616)
    × All (λ e. Has e.0 labels) s4.metrics.compiles
Reach-IsGauged_example = Reach-IsGauged naturals s4 s4-Reach
