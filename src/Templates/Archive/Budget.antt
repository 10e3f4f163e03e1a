-- ===== src/Templates/Archive/Budget.antt =====
-- What reading an archive (src/templates.rs) keeps in memory.
mod Tests
use typst_mcp.Common.{
  ℕ, zero, suc, ◌+◌, ◌-◌, ◌*◌, ◌/◌, ◌%◌, ◌^◌, ◌≤◌, ◌<◌, ◌≡◌, refl, sym, ap, ◌∙◌, ◌≢◌, ◌↔◌, ◌⊎◌, inl,
  inr, Bool, true, false, ◌&&◌, ◌||◌, Option, none, some, List, [], ◌∷◌, ◌++◌, map, arith, ltb, leb,
  ◌==◌, if◌then◌else◌, not, Bool-cases, Option-cases, is_some, is_none, length, All, any, all, sum,
  Has, Has-All, AreDistinct, take, drop, get_or, Result, ok, err, ◌>>=◌, ok_or, map_err, bind-eq-ok,
  map_err-eq-ok, Result-cases, if-cases, unwrap_or,
}
use typst_mcp.Common.Text.{Str, lit, bytes, len}
use typst_mcp.Bundle.{max_files, normalise_path, FileContent, text, binary, content_len, BundleFile}
use typst_mcp.Bundle.Paths.{IsVirtualPath, normalise_path-IsVirtualPath, normalise_path-eq}
use typst_mcp.Templates.{TemplateError, is_text}
use typst_mcp.Templates.Archive.{
  Member, saturating_add, keep_content, file_content, read_entry, read_entries,
}

-- The bytes of the contents.
abbrev pub size : List BundleFile → ℕ
size files = sum (map (λ f. content_len f.content) files)

module _ (from_utf8 : List ℕ → Option Str) where
  -- Decoding gives the text that these bytes encode.
  abbrev pub IsDecoder : Type 0
  IsDecoder = (b : List ℕ) (t : Str) → from_utf8 b ≡ some t → bytes t ≡ b

  content_len-file_content :
      (path : Str) (content : List ℕ)
      → IsDecoder
      → content_len (file_content from_utf8 path content) ≡ length content
  unfolding content_len file_content len
  content_len-file_content path content d = elim (Option-cases (from_utf8 content)) [
    | inl e ↦ rw (e, content_len) refl
    | inr (t, e) ↦ elim (Bool-cases (is_text path)) [
      | inl f ↦ rw (e, f, content_len) (ap length (d content t e))
      | inr f ↦ rw (e, f, content_len) refl
    ]
  ]

  -- What the end of a round adds.
  keep_content-eq-ok :
      (max_bytes total : ℕ) (path : Str) (content : List ℕ) (file : BundleFile) (after : ℕ)
      → IsDecoder
      → max_bytes < 2 ^ 64 - 1
      → IsVirtualPath path
      → keep_content from_utf8 max_bytes total path content ≡ ok (file, after)
      → IsVirtualPath file.path × (after ≡ total + content_len file.content) × (after ≤ max_bytes)
  unfolding keep_content
  keep_content-eq-ok max_bytes total path content file after d room virtual h =
      elim (Bool-cases (ltb max_bytes (saturating_add total (length content)))) [
        | inl k ↦ absurd (cc (rw k at h))
        | inr k ↦
            let made : BundleFile = record {
              path = path;
              content = file_content from_utf8 path content;
            } in
            let same_file : made ≡ file = cc (rw k at h) in
            let same_total : saturating_add total (length content) ≡ after = cc (rw k at h) in
            let exact : saturating_add total (length content) ≡ total + length content =
              ground (arith, k, room) in
            let within : saturating_add total (length content) ≤ max_bytes = ground (arith, k) in
            let counted = content_len-file_content path content d in
            rw (← same_file) (rw (← same_total) (virtual, omega (arith, exact, counted), within))
      ]

  -- What one round adds.
  read_entry-eq-ok :
      (max_bytes count total : ℕ) (next : Result Member Str) (file : BundleFile) (after : ℕ)
      → IsDecoder
      → max_bytes < 2 ^ 64 - 1
      → read_entry from_utf8 max_bytes count total next ≡ ok (file, after)
      → IsVirtualPath file.path
        × (count < max_files)
        × (after ≡ total + content_len file.content)
        × (after ≤ max_bytes)
  unfolding read_entry
  read_entry-eq-ok max_bytes count total (err e) file after d room h = absurd (cc h)
  read_entry-eq-ok max_bytes count total (ok entry) file after d room h =
      let (path, named, h₁) = bind-eq-ok (ok_or entry.path _) _ h in
      let (path', good, h₂) =
        bind-eq-ok (map_err (TemplateError.bad_path (lit "<upload>") path) (normalise_path path)) _
          h₁ in
      let accepted = map_err-eq-ok _ (normalise_path path) good in
      let same = normalise_path-eq path path' accepted in
      let virtual : IsVirtualPath path =
        (normalise_path-IsVirtualPath path).0 (rw same at accepted) in
      elim (Bool-cases entry.is_file) [
        | inr e ↦ absurd (cc (rw e at h₂))
        | inl e ↦ elim (Bool-cases (leb max_files count)) [
          | inl f ↦ absurd (cc (rw (e, f) at h₂))
          | inr f ↦ elim (Bool-cases (ltb max_bytes (saturating_add total entry.size))) [
            | inl g ↦ absurd (cc (rw (e, f, g) at h₂))
            | inr g ↦
                let (content, got, h₃) =
                  bind-eq-ok
                    (map_err TemplateError.bad_archive
                      (entry.content ((max_bytes - total + 1) % 2 ^ 64)))
                    _ (rw (e, f, g) at h₂) in
                let (is_virtual, adds, within) =
                  keep_content-eq-ok max_bytes total path content file after d room virtual h₃ in
                (is_virtual, ground (arith, f), adds, within)
          ]
        ]
      ]

  read_entries-bounded :
      (max_bytes count total : ℕ) (entries : List (Result Member Str)) (files : List BundleFile)
      → IsDecoder
      → max_bytes < 2 ^ 64 - 1
      → total ≤ max_bytes
      → count ≤ max_files
      → read_entries from_utf8 max_bytes count total entries ≡ ok files
      → (total + size files ≤ max_bytes)
        × (count + length files ≤ max_files)
        × All (λ f. IsVirtualPath f.path) files
  unfolding read_entries
  read_entries-bounded max_bytes count total [] files d room le few h =
      let same : [] ≡ files = cc h in rw (← same) (omega (arith, le), omega (arith, few), tt)
  read_entries-bounded max_bytes count total (next ∷ entries) files d room le few h =
      let ((file, after), first, h₁) =
        bind-eq-ok (read_entry from_utf8 max_bytes count total next) _ h in
      let (rest, others, h₂) =
        bind-eq-ok (read_entries from_utf8 max_bytes (suc count) after entries) _ h₁ in
      let (path, room', adds, within) =
        read_entry-eq-ok max_bytes count total next file after d room first in
      let (small, fewer, paths) =
        read_entries-bounded max_bytes (suc count) after entries rest d room within
          (omega (arith, room')) others in
      let same : file ∷ rest ≡ files = cc h₂ in
      rw (← same) (omega (arith, small, adds), omega (arith, fewer), (path, paths))

  -- However large the archive is that is unpacked, the files that are read from it have together no
  -- more bytes than the limit, there are at most 64 of them, and each has a virtual path, if the
  -- limit is below the largest number and texts are decoded to what they encode.
  pub read_entries-IsBudgeted :
      (max_bytes : ℕ) (entries : List (Result Member Str)) (files : List BundleFile)
      → IsDecoder
      → max_bytes < 2 ^ 64 - 1
      → read_entries from_utf8 max_bytes 0 0 entries ≡ ok files
      → (size files ≤ max_bytes)
        × (length files ≤ max_files)
        × All (λ f. IsVirtualPath f.path) files
  read_entries-IsBudgeted max_bytes entries files d room h =
      let (small, few, paths) =
        read_entries-bounded max_bytes 0 0 entries files d room (omega arith) (omega arith) h in
      (omega (arith, small), omega (arith, few), paths)
