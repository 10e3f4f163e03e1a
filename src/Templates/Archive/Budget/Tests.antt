-- ===== src/Templates/Archive/Budget/Tests.antt =====
-- Reading an archive (src/templates.rs) of one member.
use typst_mcp.Common.{
  ℕ, ◌≤◌, ◌≡◌, refl, true, Option, none, some, List, [], ◌∷◌, arith, length, All, take, ok,
}
use typst_mcp.Common.Text.{Str, lit, bytes, utf8, len, split, join, str_eq, ends_with_char}
use typst_mcp.Bundle.{
  max_files, binary, BundleFile, normalise_path, check_chars, find_bad_char, check_segments,
  check_segment, is_allowed,
}
use typst_mcp.Bundle.Paths.{IsVirtualPath}
use typst_mcp.Templates.Archive.{Member, file_content, keep_content, read_entry, read_entries}
use typst_mcp.Templates.Archive.Budget.{size, IsDecoder, read_entries-IsBudgeted}

-- A decoder that takes nothing for text.
abbrev no_text : List ℕ → Option Str
no_text b = none

no_text-IsDecoder : IsDecoder no_text
no_text-IsDecoder b t h = cc

abbrev logo : Member
logo = record {
  path = some (lit "logo.png");
  is_file = true;
  size = 3;
  content = λ n. ok (take n (1 ∷ 2 ∷ 3 ∷ []));
}

abbrev files : List BundleFile
files = record { path = lit "logo.png"; content = binary (1 ∷ 2 ∷ 3 ∷ []) } ∷ []

logo_read : read_entries no_text 10 0 0 (ok logo ∷ []) ≡ ok files
unfolding read_entries read_entry keep_content file_content normalise_path check_chars find_bad_char
    check_segments check_segment is_allowed len bytes utf8 split join str_eq ends_with_char
logo_read = refl

read_entries-IsBudgeted_example :
    (size files ≤ 10) × (length files ≤ max_files) × All (λ f. IsVirtualPath f.path) files
read_entries-IsBudgeted_example =
    read_entries-IsBudgeted no_text 10 (ok logo ∷ []) files no_text-IsDecoder (omega arith)
      logo_read
