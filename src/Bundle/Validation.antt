-- ===== src/Bundle/Validation.antt =====
-- `Bundle::new` of src/bundle.rs: which bundles are accepted, and what an accepted bundle holds.
use typst_mcp.Common.{
  ℕ, ◌+◌, ◌≤◌, ◌≡◌, refl, ◌≢◌, true, Option, none, some, List, [], ◌∷◌, map, arith, if◌then◌else◌,
  is_some, length, All, Result, ok, ◌>>=◌, map_err, bind-eq-ok, map_err-eq-ok,
}
use typst_mcp.Common.Text.{Str, str_eq}
use typst_mcp.Common.Text.Laws.{str_eq_iff}
use typst_mcp.Common.Table.Sorted
use typst_mcp.Common.Table.Sorted.{SortedTable}
use typst_mcp.Bundle.{
  max_files, FileContent, BundleFile, BundleError, bad_path, Bundle, normalise_path, total_bytes,
  add_files, with_main, new,
}
use typst_mcp.Bundle.Paths.{IsVirtualPath, normalise_path-eq, normalise_path-IsVirtualPath}

-- The content of the first file under a path.
unfoldable pub find_file : Str → List BundleFile → Option FileContent
find_file k [] = none
find_file k (f ∷ fs) = if str_eq f.path k then some f.content else find_file k fs

abbrev pub HasDistinctPaths : List BundleFile → Type 0
HasDistinctPaths [] = Unit
HasDistinctPaths (f ∷ fs) = (find_file f.path fs ≡ none) × HasDistinctPaths fs

-- What `Bundle::new` asks of its arguments.
pub record IsAdmissible (main : Str) (files : List BundleFile) (max_bytes : ℕ) : Type 0 where
  pub few : length files ≤ max_files
  pub small : total_bytes files ≤ max_bytes
  pub main_path : IsVirtualPath main
  pub paths : All (λ f. IsVirtualPath f.path) files
  pub distinct : HasDistinctPaths files
  pub listed : find_file main files ≢ none

-- What a call of `add_files` that succeeds does to the map.
record Added (fs : List BundleFile) (m m' : SortedTable FileContent) : Type 0 where
  paths : All (λ f. IsVirtualPath f.path) fs
  distinct : HasDistinctPaths fs
  fresh : All (λ f. Sorted.get f.path m ≡ none) fs
  count : length m' ≡ length fs + length m
  reads :
      (k : Str)
      → Sorted.get k m' ≡ (if is_some (find_file k fs) then find_file k fs else Sorted.get k m)

fresh-insert :
    (p : Str) (c : FileContent) (m : SortedTable FileContent) (fs : List BundleFile)
    → Sorted.get p m ≡ none
    → All (λ f. Sorted.get f.path (Sorted.insert p c m) ≡ none) fs
    → (find_file p fs ≡ none) × All (λ f. Sorted.get f.path m ≡ none) fs
unfolding find_file
fresh-insert p c m [] e h = (refl, tt)
fresh-insert p c m (f ∷ fs) e h =
    let (a, b) = fresh-insert p c m fs e h.1 in
    let g = Sorted.get-insert p f.path c m in
    (
      ground (arith, h.0, str_eq_iff p f.path, str_eq_iff f.path p),
      (ground (arith, h.0, str_eq_iff p f.path), b),
    )

fresh-of_distinct :
    (p : Str) (c : FileContent) (m : SortedTable FileContent) (fs : List BundleFile)
    → find_file p fs ≡ none
    → All (λ f. Sorted.get f.path m ≡ none) fs
    → All (λ f. Sorted.get f.path (Sorted.insert p c m) ≡ none) fs
unfolding find_file
fresh-of_distinct p c m [] d h = tt
fresh-of_distinct p c m (f ∷ fs) d h =
    let g = Sorted.get-insert p f.path c m in
    (
      ground (arith, g, h.0, str_eq_iff p f.path, str_eq_iff f.path p),
      fresh-of_distinct p c m fs (ground arith) h.1,
    )

add_files-step :
    (f : BundleFile) (fs : List BundleFile) (m m' : SortedTable FileContent)
    → add_files (f ∷ fs) m ≡ ok m'
    → IsVirtualPath f.path
      × (Sorted.get f.path m ≡ none)
      × (add_files fs (Sorted.insert f.path f.content m) ≡ ok m')
unfolding add_files
add_files-step f fs m m' h =
    let (p, checked, more) = bind-eq-ok (map_err (bad_path f.path) (normalise_path f.path)) _ h in
    let normal = map_err-eq-ok (bad_path f.path) (normalise_path f.path) checked in
    let same = normalise_path-eq f.path p normal in
    let rest = rw same at more in
    ((normalise_path-IsVirtualPath f.path).0 (cc), ground arith, ground arith)

add_files-Added :
    (fs : List BundleFile) (m m' : SortedTable FileContent) → add_files fs m ≡ ok m' → Added fs m m'
unfolding add_files find_file
add_files-Added [] m m' h = record {
  paths = tt;
  distinct = tt;
  fresh = tt;
  count = ground arith;
  reads = λ k. ground arith;
}
add_files-Added (f ∷ fs) m m' h =
    let (path, new_path, more) = add_files-step f fs m m' h in
    let t = add_files-Added fs (Sorted.insert f.path f.content m) m' more in
    let (apart, fresh) = fresh-insert f.path f.content m fs new_path t.fresh in
    record {
      paths = (path, t.paths);
      distinct = (apart, t.distinct);
      fresh = (new_path, fresh);
      count = omega (arith, t.count, Sorted.length-insert f.path f.content m new_path);
      reads = λ k.
          ground
            (arith, t.reads k, Sorted.get-insert f.path k f.content m, apart, str_eq_iff f.path k);
    }

-- The other way: files that are acceptable one by one are all added.
add_files-ok :
    (fs : List BundleFile) (m : SortedTable FileContent)
    → All (λ f. IsVirtualPath f.path) fs
    → HasDistinctPaths fs
    → All (λ f. Sorted.get f.path m ≡ none) fs
    → (m' : SortedTable FileContent) × (add_files fs m ≡ ok m')
unfolding add_files
add_files-ok [] m p d a = (m, refl)
add_files-ok (f ∷ fs) m p d a =
    let (m', e) =
      add_files-ok fs (Sorted.insert f.path f.content m) p.1 d.1
        (fresh-of_distinct f.path f.content m fs d.0 a.1) in
    (m', rw ((normalise_path-IsVirtualPath f.path).1 p.0, a.0) e)

All-get_nil : (fs : List BundleFile) → All (λ f. Sorted.get {V = FileContent} f.path [] ≡ none) fs
unfolding Sorted.get
All-get_nil [] = tt
All-get_nil (f ∷ fs) = (refl, All-get_nil fs)

-- The rest of `new`, behind the two limits.
assemble : Str → List BundleFile → SortedTable Str → Result Bundle BundleError
assemble main files inputs = do
  path ← map_err (bad_path main) (normalise_path main)
  map ← add_files files []
  with_main path inputs map

-- The steps that a call which succeeds has passed.
record Accepted (main : Str) (files : List BundleFile) (inputs : SortedTable Str) (max_bytes : ℕ)
    (b : Bundle) : Type 0 where
  few : length files ≤ max_files
  small : total_bytes files ≤ max_bytes
  main_path : IsVirtualPath main
  added : Added files [] b.files
  same_main : b.main ≡ main
  same_inputs : b.inputs ≡ inputs
  listed : is_some (Sorted.get main b.files) ≡ true

new-Accepted :
    (main : Str) (files : List BundleFile) (inputs : SortedTable Str) (max_bytes : ℕ) (b : Bundle)
    → new main files inputs max_bytes ≡ ok b
    → Accepted main files inputs max_bytes b
unfolding new assemble
new-Accepted main files inputs max_bytes b h =
    let core : assemble main files inputs ≡ ok b = ground arith in
    let (p, checked, more) = bind-eq-ok (map_err (bad_path main) (normalise_path main)) _ core in
    let (m, added, last) = bind-eq-ok (add_files files []) _ more in
    let normal = map_err-eq-ok (bad_path main) (normalise_path main) checked in
    let same = normalise_path-eq main p normal in
    let filled = rw same at last in
    let same_files : m ≡ b.files = ground arith in
    record {
      few = ground arith;
      small = ground arith;
      main_path = (normalise_path-IsVirtualPath main).0 (cc);
      added = add_files-Added files [] b.files (cc);
      same_main = ground arith;
      same_inputs = ground arith;
      listed = ground arith;
    }

-- A bundle that is accepted meets the limits and the path rules, and holds the given files: it has
-- the given entrypoint and inputs, as many files as were given, and a lookup of any path gives the
-- content of the file that was given under that path, or nothing if none was.
pub new-IsAdmissible :
    (main : Str) (files : List BundleFile) (inputs : SortedTable Str) (max_bytes : ℕ) (b : Bundle)
    → new main files inputs max_bytes ≡ ok b
    → IsAdmissible main files max_bytes
      × (b.main ≡ main)
      × (b.inputs ≡ inputs)
      × (length b.files ≡ length files)
      × ((k : Str) → Sorted.get k b.files ≡ find_file k files)
new-IsAdmissible main files inputs max_bytes b h =
    let a = new-Accepted main files inputs max_bytes b h in
    let reads : (k : Str) → Sorted.get k b.files ≡ find_file k files =
      λ k. unfold Sorted.get in ground (arith, a.added.reads k) in
    (
      record {
        few = a.few;
        small = a.small;
        main_path = a.main_path;
        paths = a.added.paths;
        distinct = a.added.distinct;
        listed = ground (arith, reads main, a.listed);
      },
      a.same_main,
      a.same_inputs,
      omega (arith, a.added.count),
      reads,
    )

-- Every admissible bundle is accepted.
pub new-of_IsAdmissible :
    (main : Str) (files : List BundleFile) (inputs : SortedTable Str) (max_bytes : ℕ)
    → IsAdmissible main files max_bytes
    → (b : Bundle) × (new main files inputs max_bytes ≡ ok b)
unfolding new Sorted.get
new-of_IsAdmissible main files inputs max_bytes a =
    let (m, added) = add_files-ok files [] a.paths a.distinct (All-get_nil files) in
    let t = add_files-Added files [] m added in
    (
      record { main = main; files = m; inputs = inputs },
      ground
          (arith, added, (normalise_path-IsVirtualPath main).1 a.main_path, t.reads main, a.listed),
    )
