-- ===== src/Templates.antt =====
-- src/templates.rs: templates. A TOML or JSON document, a path of the file system and an error of
-- another package are what the packages make of them: values of a parameter type, or texts.
pub mod Arguments
pub mod Bounded
pub mod Assembly
pub mod Archive
use typst_mcp.Common.{
  ℕ, zero, suc, ◌+◌, ◌-◌, ◌*◌, ◌/◌, ◌%◌, ◌^◌, ◌≤◌, ◌<◌, ◌≡◌, refl, sym, ap, ◌∙◌, ◌≢◌, ◌↔◌, ◌⊎◌, inl,
  inr, Bool, true, false, ◌&&◌, ◌||◌, Option, none, some, List, [], ◌∷◌, ◌++◌, map, arith, ltb, leb,
  ◌==◌, if◌then◌else◌, not, Bool-cases, Option-cases, is_some, is_none, length, All, any, all, sum,
  Has, Has-All, AreDistinct, take, drop, get_or, Result, ok, err, ◌>>=◌, ok_or, map_err, bind-eq-ok,
  map_err-eq-ok, Result-cases, if-cases, unwrap_or,
}
use typst_mcp.Common.Text.{Str, lit, str_eq, strip_prefix, last_piece}
use typst_mcp.Common.Table.Sorted
use typst_mcp.Common.Table.Sorted.{SortedTable}
use typst_mcp.Bundle.{PathError, BundleError, BundleFile}
use typst_mcp.Diagnostics.{Diagnostic}
use typst_mcp.TypstValue.{ValueError, write_string}

abbrev pub generated_main : Str
generated_main = lit "__main.typ"

abbrev pub generated_body : Str
generated_body = lit "__body.typ"

abbrev pub body_display_name : Str
body_display_name = lit "body.typ"

abbrev pub reserved_prefix : Str
reserved_prefix = lit "__"

abbrev pub max_archive_overhead_bytes : ℕ
max_archive_overhead_bytes = 256 * 1024

abbrev pub max_schema_errors : ℕ
max_schema_errors = 16

abbrev pub max_schema_diagnostic_bytes : ℕ
max_schema_diagnostic_bytes = 8 * 1024

-- `starts_with` of the reserved prefix.
pub is_reserved : Str → Bool
is_reserved path = is_some (strip_prefix reserved_prefix path)

-- `SourceMap`: the name to show for a generated file, and the lines in front of it.
abbrev pub SourceMap : Type 0
SourceMap = SortedTable (Str × ℕ)

-- `saturating_sub` and the clamp to 1.
abbrev pub caller_line : ℕ → ℕ → ℕ
caller_line offset line = if ltb (line - offset) 1 then 1 else line - offset

-- What the loop of `apply` does with a diagnostic whose file is in the map.
abbrev relocate : Option (Str × ℕ) → Diagnostic → Diagnostic
relocate none d = d
relocate (some (display, offset)) d = record d {
  file = some display;
  line = elim d.line [ none ↦ none | some line ↦ some (caller_line offset line) ];
}

abbrev pub relocate_in : SourceMap → Option Str → Diagnostic → Diagnostic
relocate_in entries none d = d
relocate_in entries (some file) d = relocate (Sorted.get file entries) d

-- `SourceMap::apply`.
pub apply : SourceMap → List Diagnostic → List Diagnostic
apply entries diagnostics = map (λ d. relocate_in entries d.file d) diagnostics

pub data TemplateKind : Type 0 where
  wrapper data_only : TemplateKind

pub data ArgKind : Type 0 where
  str int float bool date strings ident : ArgKind

pub record ArgSpec : Type 0 where
  pub arg : Str
  pub kind : ArgKind
  pub map : SortedTable Str

pub record Manifest : Type 0 where
  pub name : Str
  pub kind : TemplateKind
  pub version : Str
  pub description : Str
  pub entrypoint : Str
  pub wrapper_fn : Option Str
  pub notice : Option Str
  pub args : SortedTable ArgSpec

pub data TemplateError : Type 0 where
  no_manifest : Str → TemplateError
  bad_manifest : (path source : Str) → TemplateError
  missing_entrypoint : (name entrypoint : Str) → TemplateError
  no_wrapper_fn : (name : Str) → TemplateError
  bad_wrapper_fn : (name value : Str) → TemplateError
  reserved_name unknown_override non_text_metadata : Str → TemplateError
  name_mismatch : (requested manifest : Str) → TemplateError
  non_file_member : (path : Str) → TemplateError
  bad_archive : Str → TemplateError
  bad_path : (name path : Str) (source : PathError) → TemplateError
  bad_schema : (path message : Str) → TemplateError
  io : (path source : Str) → TemplateError
  schema_violation : Str → TemplateError
  bad_arg : (field message : Str) → TemplateError
  wrong_kind : (name kind message : Str) → TemplateError
  bundle : BundleError → TemplateError
  value : ValueError → TemplateError

-- `TemplateParts`.
pub record TemplateParts : Type 0 where
  pub manifest_toml : Str
  pub files : List BundleFile
  pub schema_json : Option Str
  pub fixture_json : Option Str
  pub fixture_body : Option Str

-- `Template`, with JSON values of type `J`.
pub record Template (J : Type 0) : Type 0 where
  pub manifest : Manifest
  pub files : List BundleFile
  pub schema : Option J
  pub example : Option J
  pub example_body : Option Str
  pub manifest_toml : Str
  pub schema_json : Option Str
  pub fixture_json : Option Str

pub is_text : Str → Bool
is_text path =
    any (λ extension. str_eq (last_piece b'.' path) extension)
      (lit "typ"
        ∷ lit "json"
        ∷ lit "csv"
        ∷ lit "yaml"
        ∷ lit "yml"
        ∷ lit "toml"
        ∷ lit "svg"
        ∷ lit "txt"
        ∷ [])

pub quote : Str → Str
quote s = write_string s
