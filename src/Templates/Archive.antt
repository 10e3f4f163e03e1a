-- ===== src/Templates/Archive.antt =====
-- `Template::from_archive` of src/templates.rs. What reads a tar archive and what decodes UTF-8 is of
-- other packages.
pub mod Budget
use typst_mcp.Common.{
  ℕ, zero, suc, ◌+◌, ◌-◌, ◌*◌, ◌/◌, ◌%◌, ◌^◌, ◌≤◌, ◌<◌, ◌≡◌, refl, sym, ap, ◌∙◌, ◌≢◌, ◌↔◌, ◌⊎◌, inl,
  inr, Bool, true, false, ◌&&◌, ◌||◌, Option, none, some, List, [], ◌∷◌, ◌++◌, map, arith, ltb, leb,
  ◌==◌, if◌then◌else◌, not, Bool-cases, Option-cases, is_some, is_none, length, All, any, all, sum,
  Has, Has-All, AreDistinct, take, drop, get_or, Result, ok, err, ◌>>=◌, ok_or, map_err, bind-eq-ok,
  map_err-eq-ok, Result-cases, if-cases, unwrap_or,
}
use typst_mcp.Common.Text.{Str, lit}
use typst_mcp.Bundle.{max_files, normalise_path, FileContent, text, binary, BundleFile, BundleError}
use typst_mcp.Templates.{max_archive_overhead_bytes, TemplateError, Template, is_text}
use typst_mcp.Templates.Bounded.{BoundedReader, read}
use typst_mcp.Templates.Assembly.{Parsers, from_source_files}

-- A member of the archive: its path if that is UTF-8, whether it is a regular file, the size that
-- its header declares, and up to so many bytes of its content, or an error.
pub record Member : Type 0 where
  pub path : Option Str
  pub is_file : Bool
  pub size : ℕ
  pub content : ℕ → Result (List ℕ) Str

-- `usize::saturating_add`.
abbrev pub saturating_add : ℕ → ℕ → ℕ
saturating_add a b = if ltb (a + b) (2 ^ 64) then a + b else 2 ^ 64 - 1

pub too_large_error : ℕ → ℕ → TemplateError
too_large_error actual limit = TemplateError.bundle (BundleError.too_large actual limit)

-- The readers of the other packages, whose states are `S`: the plain one and the one of gzip, what both
-- give next, the error behind the budget, and the members of an archive, read through a reader.
pub record Unpacker (S : Type 0) : Type 0 where
  pub cursor : List ℕ → S
  pub gz_decoder : List ℕ → S
  pub inner_read : S → ℕ → Result (List ℕ) Str × S
  pub exceeded : Str
  pub entries :
      (BoundedReader S → ℕ → Result (List ℕ) Str × BoundedReader S)
      → BoundedReader S
      → Result (List (Result Member Str)) Str

-- Whether the bytes begin as gzip does.
abbrev pub is_gzip : List ℕ → Bool
is_gzip (a ∷ b ∷ bytes) = (a == 31) && (b == 139)
is_gzip _ = false

-- The bounded reader of an archive.
pub archive_reader : {S : Type 0} → Unpacker S → List ℕ → ℕ → BoundedReader S
archive_reader unpacker bytes max_bytes = record {
  inner = if is_gzip bytes then unpacker.gz_decoder bytes else unpacker.cursor bytes;
  remaining = saturating_add max_bytes max_archive_overhead_bytes;
}

module _ (from_utf8 : List ℕ → Option Str) where
  -- A file that is text by its content and by its name is text, and any other is binary.
  pub file_content : Str → List ℕ → FileContent
  file_content path content = elim (from_utf8 content) [
    | none ↦ binary content
    | some t ↦ if is_text path then text t else binary content
  ]

  -- The end of a round.
  keep_content : ℕ → ℕ → Str → List ℕ → Result (BundleFile × ℕ) TemplateError
  unfolding too_large_error file_content
  keep_content max_bytes total path content =
      if ltb max_bytes (saturating_add total (length content))
      then err (too_large_error (saturating_add total (length content)) max_bytes)
      else ok (
        record { path = path; content = file_content path content },
        saturating_add total (length content),
      )

  -- One round of the loop: the file, and the total then.
  pub read_entry : ℕ → ℕ → ℕ → Result Member Str → Result (BundleFile × ℕ) TemplateError
  unfolding too_large_error keep_content
  read_entry max_bytes count total next = do
    entry ← map_err TemplateError.bad_archive next
    path ← ok_or entry.path (TemplateError.bad_archive (lit "member path is not UTF-8"))
    _ ← map_err (TemplateError.bad_path (lit "<upload>") path) (normalise_path path)
    if not entry.is_file
        then err (TemplateError.non_file_member path)
        else if leb max_files count
        then err (TemplateError.bundle (BundleError.too_many_files (suc count)))
        else if ltb max_bytes (saturating_add total entry.size)
        then err (too_large_error (saturating_add total entry.size) max_bytes)
        else do
          content ←
              map_err TemplateError.bad_archive (entry.content ((max_bytes - total + 1) % 2 ^ 64))
          keep_content max_bytes total path content

  pub read_entries : ℕ → ℕ → ℕ → List (Result Member Str) → Result (List BundleFile) TemplateError
  unfolding read_entry
  read_entries max_bytes count total [] = ok []
  read_entries max_bytes count total (next ∷ entries) = do
    (file, total') ← read_entry max_bytes count total next
    files ← read_entries max_bytes (suc count) total' entries
    ok (file ∷ files)

  -- `from_archive`. What unpacks and what reads the members of an archive is of other packages.
  pub from_archive :
      {J S : Type 0} → Parsers J → Unpacker S → List ℕ → ℕ → Result (Template J) TemplateError
  unfolding archive_reader read_entries
  from_archive parsers unpacker bytes max_bytes = do
    entries ← map_err TemplateError.bad_archive (
        unpacker.entries (read unpacker.inner_read unpacker.exceeded)
          (archive_reader unpacker bytes max_bytes))
    files ← read_entries max_bytes 0 0 entries
    from_source_files parsers files max_bytes
