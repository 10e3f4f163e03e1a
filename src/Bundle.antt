-- ===== src/Bundle.antt =====
-- src/bundle.rs: untrusted paths and the in-memory file bundle.
pub mod Paths
pub mod Validation
mod Tests
use typst_mcp.Common.{
  ℕ, suc, ◌+◌, ◌%◌, ◌^◌, Bool, true, false, ◌||◌, Option, none, some, List, [], ◌∷◌, map, ltb, ◌==◌,
  if◌then◌else◌, not, length, sum, Result, ok, err, ◌>>=◌, map_err,
}
use typst_mcp.Common.Text.{
  Str, lit, bytes, len, str_eq, is_empty, starts_with_char, ends_with_char, is_ascii_alphanumeric,
  split, join,
}
use typst_mcp.Common.Table.Sorted
use typst_mcp.Common.Table.Sorted.{SortedTable}

abbrev pub max_path_bytes : ℕ
max_path_bytes = 255

abbrev pub max_files : ℕ
max_files = 64

pub data PathError : Type 0 where
  empty too_long absolute traversal dot_segment empty_segment : PathError
  bad_char : ℕ → PathError
  padded_segment : Str → PathError

unfoldable pub is_allowed : ℕ → Bool
is_allowed c =
    is_ascii_alphanumeric c || c == b'.' || c == b'-' || c == b'_' || c == b' ' || c == b'/'

-- `raw.chars().find(|c| !is_allowed(*c))`.
unfoldable pub find_bad_char : Str → Option ℕ
unfolding is_allowed
find_bad_char [] = none
find_bad_char (c ∷ s) = if is_allowed c then find_bad_char s else some c

-- One round of the loop over the segments.
unfoldable pub check_segment : Str → Result Str PathError
check_segment s =
    if is_empty s
    then err empty_segment
    else if str_eq s (lit ".")
    then err dot_segment
    else if str_eq s (lit "..")
    then err traversal
    else if starts_with_char b' ' s || ends_with_char b' ' s || ends_with_char b'.' s
    then err (padded_segment s)
    else ok s

unfoldable pub check_segments : List Str → Result (List Str) PathError
check_segments [] = ok []
check_segments (s ∷ ss) = do
  segment ← check_segment s
  segments ← check_segments ss
  ok (segment ∷ segments)

unfoldable pub check_chars : Str → Result Str PathError
unfolding find_bad_char check_segments check_segment
check_chars raw = elim (find_bad_char raw) [
  | some c ↦ err (bad_char c)
  | none ↦ do segments ← check_segments (split b'/' raw); ok (join (b'/' ∷ []) segments)
]

unfoldable pub normalise_path : Str → Result Str PathError
unfolding check_chars
normalise_path raw =
    if is_empty raw
    then err empty
    else if ltb max_path_bytes (len raw)
    then err too_long
    else if starts_with_char b'/' raw
    then err absolute
    else check_chars raw

pub data FileContent : Type 0 where
  text : Str → FileContent
  binary : List ℕ → FileContent

-- `FileContent::len`, in bytes.
unfoldable pub content_len : FileContent → ℕ
content_len (text t) = len t
content_len (binary b) = length b

pub as_bytes : FileContent → List ℕ
as_bytes (text t) = bytes t
as_bytes (binary b) = b

pub record BundleFile : Type 0 where
  pub path : Str
  pub content : FileContent

pub data BundleError : Type 0 where
  bad_path : Str → PathError → BundleError
  too_many_files : ℕ → BundleError
  too_large : (actual limit : ℕ) → BundleError
  duplicate missing_main : Str → BundleError

pub record Bundle : Type 0 where
  pub main : Str
  pub files : SortedTable FileContent
  pub inputs : SortedTable Str

-- The sum of the lengths, in a `usize` that wraps.
unfoldable pub total_bytes : List BundleFile → ℕ
unfolding content_len
total_bytes files = sum (map (λ f. content_len f.content) files) % 2 ^ 64

-- The loop that builds the map.
unfoldable pub add_files :
    List BundleFile → SortedTable FileContent → Result (SortedTable FileContent) BundleError
add_files [] m = ok m
add_files (f ∷ fs) m = do
  path ← map_err (bad_path f.path) (normalise_path f.path)
  if Sorted.contains_key path m
      then err (duplicate path)
      else add_files fs (Sorted.insert path f.content m)

unfoldable pub with_main :
    Str → SortedTable Str → SortedTable FileContent → Result Bundle BundleError
with_main main inputs files =
    if Sorted.contains_key main files
    then ok (record { main = main; files = files; inputs = inputs })
    else err (missing_main main)

-- `Bundle::new`.
unfoldable pub new : Str → List BundleFile → SortedTable Str → ℕ → Result Bundle BundleError
unfolding with_main
new main files inputs max_bytes =
    if ltb max_files (length files)
    then err (too_many_files (length files))
    else if ltb max_bytes (total_bytes files)
    then err (too_large (total_bytes files) max_bytes)
    else do
      path ← map_err (bad_path main) (normalise_path main)
      map ← add_files files []
      with_main path inputs map
