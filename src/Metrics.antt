-- ===== src/Metrics.antt =====
-- src/metrics.rs: counters, histograms and their text. A floating-point number is of a parameter
-- type; a counter wraps at 64 bits. `Metrics::lock` makes each update one step.
pub mod Counting
pub mod Page
pub mod Gauge
use typst_mcp.Common.{
  ℕ, zero, suc, ◌+◌, ◌-◌, ◌*◌, ◌/◌, ◌%◌, ◌^◌, ◌≤◌, ◌<◌, ◌≡◌, refl, sym, ap, ◌∙◌, ◌≢◌, ◌↔◌, ◌⊎◌, inl,
  inr, Bool, true, false, ◌&&◌, ◌||◌, Option, none, some, List, [], ◌∷◌, ◌++◌, map, arith, ltb, leb,
  ◌==◌, if◌then◌else◌, not, Bool-cases, Option-cases, is_some, is_none, length, All, any, all, sum,
  Has, Has-All, AreDistinct, take, drop, get_or, Result, ok, err, ◌>>=◌, ok_or, map_err, bind-eq-ok,
  map_err-eq-ok, Result-cases, if-cases, unwrap_or,
}
use typst_mcp.Common.Text.{Str, lit, str_eq, strip_prefix}
use typst_mcp.Common.Table.Sorted
use typst_mcp.Common.Table.Sorted.{SortedTable}
use typst_mcp.Render.{RenderError}
use typst_mcp.Spawn.{SpawnError}

-- What the code uses of `f64`: literals, the conversion of a `usize`, comparison, sum and text.
pub record Floats (F : Type 0) : Type 0 where
  pub literal : Str → F
  pub of_usize : ℕ → F
  pub le : F → F → Bool
  pub plus : F → F → F
  pub show : F → Str

-- `+= 1` on a `u64`.
abbrev pub next64 : ℕ → ℕ
next64 n = suc n % 18446744073709551616

pub record Histogram (F : Type 0) : Type 0 where
  pub bucket_counts : List ℕ
  pub count : ℕ
  pub sum : F

abbrev zeros : ℕ → List ℕ
zeros zero = []
zeros (suc n) = 0 ∷ zeros n

-- `Vec::resize` when the vector is shorter.
pub resize : List ℕ → ℕ → List ℕ
resize counts n = if ltb (length counts) n then counts ++ zeros (n - length counts) else counts

module _ {F : Type 0} (floats : Floats F) where
  pub duration_buckets : List F
  duration_buckets = map floats.literal (
      lit "0.05"
      ∷ lit "0.1"
      ∷ lit "0.25"
      ∷ lit "0.5"
      ∷ lit "1.0"
      ∷ lit "2.5"
      ∷ lit "5.0"
      ∷ lit "10.0"
      ∷ lit "20.0"
      ∷ lit "60.0"
      ∷ [])

  pub page_buckets : List F
  page_buckets = map floats.literal (
      lit "1.0"
      ∷ lit "2.0"
      ∷ lit "5.0"
      ∷ lit "10.0"
      ∷ lit "25.0"
      ∷ lit "50.0"
      ∷ lit "100.0"
      ∷ lit "200.0"
      ∷ [])

  pub byte_buckets : List F
  byte_buckets = map floats.literal (
      lit "16384.0"
      ∷ lit "65536.0"
      ∷ lit "262144.0"
      ∷ lit "1048576.0"
      ∷ lit "4194304.0"
      ∷ lit "16777216.0"
      ∷ [])

  -- `Histogram::default`.
  pub no_observations : Histogram F
  no_observations = record { bucket_counts = []; count = 0; sum = floats.literal (lit "0.0") }

  -- The loop of `observe`; behind the resize there is a count for each bucket.
  pub bump : F → List F → List ℕ → List ℕ
  bump v [] counts = counts
  bump v (upper ∷ buckets) [] = []
  bump v (upper ∷ buckets) (c ∷ counts) =
      (if floats.le v upper then next64 c else c) ∷ bump v buckets counts

  -- `Histogram::observe`.
  pub observe : Histogram F → F → List F → Histogram F
  unfolding resize bump
  observe h v buckets = record {
    bucket_counts = bump v buckets (resize h.bucket_counts (length buckets));
    count = next64 h.count;
    sum = floats.plus h.sum v;
  }

-- `State` and the gauge. The counter of the pair of a template and an outcome stands in a table of
-- tables, which iterates in the same order.
pub record Metrics (F : Type 0) : Type 0 where
  pub compiles : SortedTable (SortedTable ℕ)
  pub compile_duration : Histogram F
  pub compile_pages : Histogram F
  pub pdf_bytes : Histogram F
  pub compile_kills : SortedTable ℕ
  pub uploads : SortedTable ℕ
  pub auth_failures : SortedTable ℕ
  pub compiles_in_flight : ℕ

-- `*entry(key).or_default() += 1`.
pub increment : Str → SortedTable ℕ → SortedTable ℕ
increment key m = Sorted.insert key (next64 (unwrap_or (Sorted.get key m) 0)) m

pub increment_pair : Str → Str → SortedTable (SortedTable ℕ) → SortedTable (SortedTable ℕ)
unfolding increment
increment_pair template outcome m =
    Sorted.insert template (increment outcome (unwrap_or (Sorted.get template m) [])) m

abbrev pub fixed_labels : List Str
fixed_labels =
    lit "source"
    ∷ lit "template_validation"
    ∷ lit "hanso"
    ∷ lit "ksc"
    ∷ lit "lenno"
    ∷ lit "freudenberg"
    ∷ []

pub bounded_template_label : Str → Str
bounded_template_label label =
    if any (λ l. str_eq label l) fixed_labels
    then label
    else if is_some (strip_prefix (lit "tpl_") label)
    then lit "ephemeral"
    else lit "other"

pub record CompileObservation : Type 0 where
  pub template : Str
  pub finished : Bool

-- The outcome of a compile, and the reason of the kill if there was one.
pub outcome_of : Result (ℕ × ℕ) RenderError → Str × Option Str
outcome_of (ok sizes) = (lit "success", none)
outcome_of (err (RenderError.compile m d)) = (lit "compile_error", none)
outcome_of (err (RenderError.spawn (SpawnError.timeout after))) =
    (lit "timeout", some (lit "timeout"))
outcome_of (err (RenderError.spawn SpawnError.overloaded)) = (lit "overloaded", none)
outcome_of (err (RenderError.spawn (SpawnError.died exit stderr))) =
    (lit "worker_error", some (lit "worker_exit"))
outcome_of (err (RenderError.spawn (SpawnError.io m))) = (lit "worker_error", none)
outcome_of (err (RenderError.workspace m)) = (lit "worker_error", none)
outcome_of (err (RenderError.protocol m)) = (lit "worker_error", none)
outcome_of (err e) = (lit "invalid", none)

pub count_kill : Option Str → SortedTable ℕ → SortedTable ℕ
unfolding increment
count_kill none m = m
count_kill (some reason) m = increment reason m

-- `fetch_sub(1)`.
abbrev pub previous64 : ℕ → ℕ
previous64 n = (n + 18446744073709551615) % 18446744073709551616

module _ {F : Type 0} (floats : Floats F) where
  -- `Metrics::default`.
  pub no_metrics : Metrics F
  unfolding no_observations
  no_metrics = record {
    compiles = [];
    compile_duration = no_observations floats;
    compile_pages = no_observations floats;
    pdf_bytes = no_observations floats;
    compile_kills = [];
    uploads = [];
    auth_failures = [];
    compiles_in_flight = 0;
  }

  -- The two histograms of a compile that succeeded.
  observe_sizes : Result (ℕ × ℕ) RenderError → Metrics F → Metrics F
  unfolding observe page_buckets byte_buckets
  observe_sizes (err e) m = m
  observe_sizes (ok (pages, bytes)) m = record m {
    compile_pages = observe floats m.compile_pages (floats.of_usize pages) (page_buckets floats);
    pdf_bytes = observe floats m.pdf_bytes (floats.of_usize bytes) (byte_buckets floats);
  }

  pub start_compile : Metrics F → Str → CompileObservation × Metrics F
  unfolding bounded_template_label
  start_compile m template = (
    record { template = bounded_template_label template; finished = false },
    record m { compiles_in_flight = next64 m.compiles_in_flight },
  )

  pub upload : Metrics F → Str → Metrics F
  unfolding increment
  upload m kind = record m { uploads = increment kind m.uploads }

  pub auth_failure : Metrics F → Str → Metrics F
  unfolding increment
  auth_failure m reason = record m { auth_failures = increment reason m.auth_failures }

  pub finish_compile : Metrics F → Str → F → Result (ℕ × ℕ) RenderError → Metrics F
  unfolding observe duration_buckets observe_sizes outcome_of count_kill increment_pair
  finish_compile m template elapsed result =
      let sized = observe_sizes result m in
      let (outcome, kill) = outcome_of result in
      record sized {
        compiles_in_flight = previous64 m.compiles_in_flight;
        compile_duration = observe floats m.compile_duration elapsed (duration_buckets floats);
        compile_kills = count_kill kill m.compile_kills;
        compiles = increment_pair template outcome m.compiles;
      }

  -- `CompileObservation::drop`.
  pub drop_observation : Metrics F → CompileObservation → Metrics F
  unfolding increment_pair
  drop_observation m o =
      if not o.finished
      then record m {
        compiles_in_flight = previous64 m.compiles_in_flight;
        compiles = increment_pair o.template (lit "cancelled") m.compiles;
      }
      else m

  -- `CompileObservation::finish`, with the drop behind it.
  pub finish : Metrics F → CompileObservation → F → Result (ℕ × ℕ) RenderError → Metrics F
  unfolding finish_compile drop_observation
  finish m o elapsed result =
      drop_observation (finish_compile m o.template elapsed result)
        (record { template = []; finished = true })
