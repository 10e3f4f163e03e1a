-- ===== src/Metrics/Page.antt =====
-- The text of src/metrics.rs: `render`, `write_histogram` and `escape_label`.
use typst_mcp.Common.{ℕ, suc, List, [], ◌∷◌, ◌++◌, ◌==◌, if◌then◌else◌, get_or}
use typst_mcp.Common.Text.{Str, lit}
use typst_mcp.Common.Text.Decimal.{show}
use typst_mcp.Common.Table.Sorted.{SortedTable}
use typst_mcp.Metrics.{Floats, Histogram, Metrics, duration_buckets, page_buckets, byte_buckets}

abbrev escape_char : ℕ → Str
escape_char c =
    if c == b'\\'
    then lit "\\\\"
    else if c == b'"'
    then lit "\\\""
    else if c == 10
    then lit "\\n"
    else c ∷ []

-- The three replacements, which do not meet each other's results.
pub escape_label : Str → Str
escape_label [] = []
escape_label (c ∷ s) = escape_char c ++ escape_label s

abbrev line : Str → Str
line s = s ++ lit "\n"

-- `bucket_counts.get(index).copied().unwrap_or(0)`.
abbrev pub shown_count : List ℕ → ℕ → ℕ
shown_count counts index = get_or counts index 0

-- The count of each bucket that is written, from bucket `index` on.
unfoldable pub shown_counts : {F : Type 0} → List ℕ → ℕ → List F → List ℕ
shown_counts counts index [] = []
shown_counts counts index (upper ∷ buckets) =
    shown_count counts index ∷ shown_counts counts (suc index) buckets

module _ {F : Type 0} (floats : Floats F) where
  bucket_lines : Str → List F → List ℕ → Str
  bucket_lines name (upper ∷ buckets) (count ∷ counts) =
      line (name ++ lit "_bucket{le=\"" ++ floats.show upper ++ lit "\"} " ++ show count)
      ++ bucket_lines name buckets counts
  bucket_lines name _ _ = []

  pub write_histogram : Str → Str → Histogram F → List F → Str
  unfolding bucket_lines shown_counts
  write_histogram name help h buckets =
      line (lit "# HELP " ++ name ++ lit " " ++ help)
      ++ line (lit "# TYPE " ++ name ++ lit " histogram")
      ++ bucket_lines name buckets (shown_counts h.bucket_counts 0 buckets)
      ++ line (name ++ lit "_bucket{le=\"+Inf\"} " ++ show h.count)
      ++ line (name ++ lit "_sum " ++ floats.show h.sum)
      ++ line (name ++ lit "_count " ++ show h.count)

  header : Str → Str → Str → Str
  header name help kind =
      line (lit "# HELP " ++ name ++ lit " " ++ help)
      ++ line (lit "# TYPE " ++ name ++ lit " " ++ kind)

  -- A line for each entry of a table with one label.
  label_lines : Str → Str → List (Str × ℕ) → Str
  label_lines name label [] = []
  label_lines name label ((l, n) ∷ entries) =
      line (name ++ lit "{" ++ label ++ lit "=\"" ++ l ++ lit "\"} " ++ show n)
      ++ label_lines name label entries

  outcome_lines : Str → SortedTable ℕ → Str
  unfolding escape_label
  outcome_lines template [] = []
  outcome_lines template ((outcome, n) ∷ entries) =
      line (
        lit "typst_mcp_compiles_total{outcome=\""
        ++ outcome
        ++ lit "\",template=\""
        ++ escape_label template
        ++ lit "\"} "
        ++ show n)
      ++ outcome_lines template entries

  compile_lines : SortedTable (SortedTable ℕ) → Str
  unfolding outcome_lines
  compile_lines [] = []
  compile_lines ((template, outcomes) ∷ entries) =
      outcome_lines template outcomes ++ compile_lines entries

  -- `Metrics::render`, with what it asks the store: the bytes of each tenant, all bytes, and the
  -- evictions of expired entries and for a quota.
  pub render : Metrics F → List (Str × ℕ) → ℕ → ℕ → ℕ → Str
  unfolding write_histogram header label_lines compile_lines duration_buckets page_buckets
      byte_buckets
  render m tenant_usage used_bytes expired quota =
      header (lit "typst_mcp_compiles_total")
        (lit "Compile attempts by outcome and bounded template label.") (lit "counter")
      ++ compile_lines m.compiles
      ++ write_histogram (lit "typst_mcp_compile_duration_seconds")
          (lit "Compile wall time in seconds.") m.compile_duration (duration_buckets floats)
      ++ write_histogram (lit "typst_mcp_compile_pages")
          (lit "Pages produced by successful compiles.") m.compile_pages (page_buckets floats)
      ++ write_histogram (lit "typst_mcp_pdf_bytes")
          (lit "PDF bytes produced by successful compiles.") m.pdf_bytes (byte_buckets floats)
      ++ header (lit "typst_mcp_compile_kills_total") (lit "Compile workers killed or lost.")
          (lit "counter")
      ++ label_lines (lit "typst_mcp_compile_kills_total") (lit "reason") m.compile_kills
      ++ header (lit "typst_mcp_compiles_in_flight") (lit "Compile slots currently occupied.")
          (lit "gauge")
      ++ line (lit "typst_mcp_compiles_in_flight " ++ show m.compiles_in_flight)
      ++ header (lit "typst_mcp_store_bytes") (lit "Bytes held per opaque tenant partition.")
          (lit "gauge")
      ++ label_lines (lit "typst_mcp_store_bytes") (lit "tenant_fp") tenant_usage
      ++ header (lit "typst_mcp_store_bytes_total") (lit "Total bytes held in the store.")
          (lit "gauge")
      ++ line (lit "typst_mcp_store_bytes_total " ++ show used_bytes)
      ++ header (lit "typst_mcp_store_evictions_total") (lit "Entries evicted by reason.")
          (lit "counter")
      ++ line (lit "typst_mcp_store_evictions_total{reason=\"expired\"} " ++ show expired)
      ++ line (lit "typst_mcp_store_evictions_total{reason=\"quota\"} " ++ show quota)
      ++ header (lit "typst_mcp_uploads_total") (lit "Successful tenant uploads.") (lit "counter")
      ++ label_lines (lit "typst_mcp_uploads_total") (lit "kind") m.uploads
      ++ header (lit "typst_mcp_auth_failures_total")
          (lit "Authentication failures by public reason.") (lit "counter")
      ++ label_lines (lit "typst_mcp_auth_failures_total") (lit "reason") m.auth_failures
