-- ===== src/Bundle/Tests.antt =====
-- Concrete bundles (src/bundle.rs).
use typst_mcp.Common.{◌≡◌, refl, ◌↔◌, List, [], ◌∷◌, arith, length, ok}
use typst_mcp.Common.Text.{Str, lit, len, split, bytes, utf8, join, str_eq, ends_with_char}
use typst_mcp.Common.Table.Sorted
use typst_mcp.Common.Table.Sorted.{SortedTable}
use typst_mcp.Bundle.{
  check_chars, find_bad_char, check_segments, check_segment, content_len, add_files, with_main,
  is_allowed, normalise_path, text, BundleFile, Bundle, total_bytes, new,
}
use typst_mcp.Bundle.Paths.{IsVirtualPath, normalise_path-IsVirtualPath, normalise_path_iff}
use typst_mcp.Bundle.Validation.{find_file, IsAdmissible, new-IsAdmissible}

abbrev main : Str
main = lit "main.typ"

abbrev one_file : List BundleFile
one_file = record { path = main; content = text (lit "= Hi") } ∷ []

main_accepted : normalise_path main ≡ ok main
unfolding normalise_path check_chars find_bad_char check_segments check_segment is_allowed len bytes
    utf8 split join str_eq ends_with_char
main_accepted = refl

normalise_path_iff_example : (normalise_path main ≡ ok main) ↔ ((main ≡ main) × IsVirtualPath main)
normalise_path_iff_example = normalise_path_iff main main

admissible : IsAdmissible main one_file 100
unfolding total_bytes content_len len bytes utf8 find_file str_eq
admissible = record {
  few = omega arith;
  small = omega arith;
  main_path = (normalise_path-IsVirtualPath main).0 main_accepted;
  paths = ((normalise_path-IsVirtualPath main).0 main_accepted, tt);
  distinct = (refl, tt);
  listed = λ h. cc h;
}

abbrev built : Bundle
built = record { main = main; files = (main, text (lit "= Hi")) ∷ []; inputs = [] }

new_accepts : new main one_file [] 100 ≡ ok built
unfolding new total_bytes content_len add_files with_main Sorted.insert Sorted.get normalise_path
    check_chars find_bad_char check_segments check_segment is_allowed len bytes utf8 split join
    str_eq ends_with_char
new_accepts = refl

new-IsAdmissible_example :
    IsAdmissible main one_file 100
    × (built.main ≡ main)
    × (built.inputs ≡ [])
    × (length built.files ≡ length one_file)
    × ((k : Str) → Sorted.get k built.files ≡ find_file k one_file)
new-IsAdmissible_example = new-IsAdmissible main one_file [] 100 built new_accepts
