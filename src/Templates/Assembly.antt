-- ===== src/Templates/Assembly.antt =====
-- Templates from their parts and into bundles: `assemble_from`, `from_source_files`, `source_files`
-- and `assemble_with_overrides` of src/templates.rs.
pub mod Customized
use typst_mcp.Common.{
  ℕ, zero, suc, ◌+◌, ◌-◌, ◌*◌, ◌/◌, ◌%◌, ◌^◌, ◌≤◌, ◌<◌, ◌≡◌, refl, sym, ap, ◌∙◌, ◌≢◌, ◌↔◌, ◌⊎◌, inl,
  inr, Bool, true, false, ◌&&◌, ◌||◌, Option, none, some, List, [], ◌∷◌, ◌++◌, map, arith, ltb, leb,
  ◌==◌, if◌then◌else◌, not, Bool-cases, Option-cases, is_some, is_none, length, All, any, all, sum,
  Has, Has-All, AreDistinct, take, drop, get_or, Result, ok, err, ◌>>=◌, ok_or, map_err, bind-eq-ok,
  map_err-eq-ok, Result-cases, if-cases, unwrap_or,
}
use typst_mcp.Common.Text.{Str, lit, str_eq}
use typst_mcp.Common.Table.Sorted
use typst_mcp.Common.Table.Sorted.{SortedTable, str_lt}
use typst_mcp.Bundle
use typst_mcp.Bundle.{normalise_path, FileContent, text, binary, BundleFile, Bundle}
use typst_mcp.TypstValue.{is_ident}
use typst_mcp.Templates.{
  generated_main, generated_body, body_display_name, is_reserved, SourceMap, TemplateKind, wrapper,
  data_only, Manifest, TemplateError, TemplateParts, Template, quote,
}
use typst_mcp.Templates.Arguments.{Json, generate_main}
use typst_mcp.Templates.Bounded.{SchemaError, validate}

-- `sort_by` of the paths: equal paths stay in their order.
insert_file : BundleFile → List BundleFile → List BundleFile
insert_file f [] = f ∷ []
insert_file f (g ∷ gs) =
    let rest = insert_file f gs in if str_lt g.path f.path then g ∷ rest else f ∷ g ∷ gs

pub sort_files : List BundleFile → List BundleFile
unfolding insert_file
sort_files [] = []
sort_files (f ∷ fs) = insert_file f (sort_files fs)

-- The check of the wrapper function.
check_wrapper : Manifest → TemplateKind → Option Str → Result (Unit {0}) TemplateError
check_wrapper manifest data_only f = ok tt
check_wrapper manifest wrapper none = err (TemplateError.no_wrapper_fn manifest.name)
check_wrapper manifest wrapper (some f) =
    if not (is_ident f) then err (TemplateError.bad_wrapper_fn manifest.name f) else ok tt

-- The check of the files.
check_files : Str → List BundleFile → Result (Unit {0}) TemplateError
check_files name [] = ok tt
check_files name (f ∷ fs) =
    if is_reserved f.path then err (TemplateError.reserved_name f.path) else do
      _ ← map_err (TemplateError.bad_path name f.path) (normalise_path f.path)
      check_files name fs

-- What the TOML, JSON and JSON schema packages make of a text.
pub record Parsers (J : Type 0) : Type 0 where
  pub manifest : Str → Result Manifest Str
  pub json : Str → Result J Str
  pub schema : J → Result (Unit {0}) Str

module _ {J : Type 0} (parsers : Parsers J) where
  parse_json : Option Str → Str → Result (Option J) TemplateError
  parse_json none name = ok none
  parse_json (some t) name = do
    v ← map_err (TemplateError.bad_schema name) (parsers.json t)
    ok (some v)

  check_schema : Option J → Result (Unit {0}) TemplateError
  check_schema none = ok tt
  check_schema (some schema) =
      map_err (TemplateError.bad_schema (lit "schema.json")) (parsers.schema schema)

  -- `Template::assemble_from`.
  pub assemble_from : TemplateParts → Result (Template J) TemplateError
  unfolding check_wrapper check_files parse_json check_schema sort_files
  assemble_from parts = do
    manifest ←
        map_err (TemplateError.bad_manifest (lit "template.toml"))
          (parsers.manifest parts.manifest_toml)
    _ ← check_wrapper manifest manifest.kind manifest.wrapper_fn
    _ ← check_files manifest.name parts.files
    if not (any (λ f. str_eq f.path manifest.entrypoint) (sort_files parts.files))
        then err (TemplateError.missing_entrypoint manifest.name manifest.entrypoint)
        else do
          schema ← parse_json parts.schema_json (lit "schema.json")
          _ ← check_schema schema
          example ← parse_json parts.fixture_json (lit "fixture.json")
          ok (record {
            manifest = manifest;
            files = sort_files parts.files;
            schema = schema;
            example = example;
            example_body = parts.fixture_body;
            manifest_toml = parts.manifest_toml;
            schema_json = parts.schema_json;
            fixture_json = parts.fixture_json;
          })

-- The texts of metadata files, and the other files.
pub record Sources : Type 0 where
  pub manifest_toml : Option Str
  pub schema_json : Option Str
  pub fixture_json : Option Str
  pub fixture_body : Option Str
  pub template_files : List BundleFile

-- The file that goes into one of the slots.
put_metadata : Str → Str → Sources → Sources
put_metadata path t s =
    if str_eq path (lit "template.toml")
    then record s { manifest_toml = some t }
    else if str_eq path (lit "schema.json")
    then record s { schema_json = some t }
    else if str_eq path (lit "fixture.json")
    then record s { fixture_json = some t }
    else record s { fixture_body = some t }

is_metadata : Str → Bool
is_metadata path =
    str_eq path (lit "template.toml")
    || str_eq path (lit "schema.json")
    || str_eq path (lit "fixture.json")
    || str_eq path (lit "fixture.body.typ")

put_source : Str → FileContent → Sources → Result Sources TemplateError
unfolding put_metadata is_metadata
put_source path content s =
    if is_metadata path
    then elim content [
      | text t ↦ ok (put_metadata path t s)
      | binary b ↦ err (TemplateError.non_text_metadata path)
    ]
    else ok (record s {
      template_files = s.template_files ++ record { path = path; content = content } ∷ [];
    })

-- The loop of `from_source_files`.
pub split_sources : SortedTable FileContent → Sources → Result Sources TemplateError
unfolding put_source
split_sources [] s = ok s
split_sources ((path, content) ∷ files) s = do
  s' ← put_source path content s
  split_sources files s'

module _ {J : Type 0} (parsers : Parsers J) where
  -- `Template::from_source_files`. The manifest is there, since it is the main file of the bundle.
  pub from_source_files : List BundleFile → ℕ → Result (Template J) TemplateError
  unfolding assemble_from split_sources
  from_source_files files max_bytes = do
    bundle ← map_err TemplateError.bundle (Bundle.new (lit "template.toml") files [] max_bytes)
    s ← split_sources bundle.files (record {
      manifest_toml = none;
      schema_json = none;
      fixture_json = none;
      fixture_body = none;
      template_files = [];
    })
    assemble_from parsers (record {
      manifest_toml = unwrap_or s.manifest_toml [];
      files = s.template_files;
      schema_json = s.schema_json;
      fixture_json = s.fixture_json;
      fixture_body = s.fixture_body;
    })

optional_file : Str → Option Str → List BundleFile
optional_file path none = []
optional_file path (some t) = record { path = path; content = text t } ∷ []

-- `Template::source_files`.
pub source_files : {J : Type 0} → Template J → List BundleFile
unfolding sort_files optional_file
source_files t = sort_files (
    t.files
    ++ record { path = lit "template.toml"; content = text t.manifest_toml }
      ∷ (optional_file (lit "schema.json") t.schema_json
          ++ optional_file (lit "fixture.json") t.fixture_json
          ++ optional_file (lit "fixture.body.typ") t.example_body))

-- `iter_mut().find` and the replacement.
pub replace_file : Str → FileContent → List BundleFile → Option (List BundleFile)
replace_file path content [] = none
replace_file path content (f ∷ fs) =
    let rest = replace_file path content fs in
    if str_eq f.path path
    then some (record { path = path; content = content } ∷ fs)
    else elim rest [ none ↦ none | some gs ↦ some (f ∷ gs) ]

-- The loop over the overrides.
pub apply_overrides :
    Str → List BundleFile → List BundleFile → Result (List BundleFile) TemplateError
unfolding replace_file
apply_overrides name [] files = ok files
apply_overrides name (o ∷ os) files =
    if is_reserved o.path then err (TemplateError.reserved_name o.path) else do
      path ← map_err (TemplateError.bad_path name o.path) (normalise_path o.path)
      files' ← ok_or (replace_file path o.content files) (TemplateError.unknown_override path)
      apply_overrides name os files'

-- `str::lines().count()`: a line that is open at the end counts, too.
pub count_lines : (open_line : Bool) → Str → ℕ
count_lines false [] = 0
count_lines true [] = 1
count_lines open_line (c ∷ s) =
    let closed = count_lines false s in
    let still = count_lines true s in if c == 10 then suc closed else still

pub prelude : Str → Str
unfolding quote
prelude entrypoint = lit "#import " ++ quote entrypoint ++ lit ": *\n"

check_kind : Manifest → TemplateKind → Option Str → Result (Unit {0}) TemplateError
check_kind manifest data_only (some body) = err (
    TemplateError.wrong_kind manifest.name (lit "data")
      (lit "it renders from `data` alone; remove `body`"))
check_kind manifest wrapper none = err (
    TemplateError.wrong_kind manifest.name (lit "wrapper")
      (lit "it needs a `body` of Typst markup to wrap"))
check_kind manifest _ body = ok tt

body_files : Manifest → Option Str → List BundleFile
unfolding prelude
body_files manifest none = []
body_files manifest (some body) =
    record { path = generated_body; content = text (prelude manifest.entrypoint ++ body) } ∷ []

pub source_map : Manifest → Option Str → SourceMap
unfolding count_lines prelude
source_map manifest none = []
source_map manifest (some body) =
    Sorted.insert generated_body
      (body_display_name, count_lines false (prelude manifest.entrypoint)) []

pub record Assembled : Type 0 where
  pub bundle : Bundle
  pub source_map : SourceMap

-- The files of the bundle, behind the checks.
pub all_files :
    {J : Type 0}
    → Json J
    → Template J
    → J
    → Option Str
    → List BundleFile
    → List BundleFile
    → Str
    → List BundleFile
unfolding body_files
all_files json t document body files extra main =
    files
    ++ extra
    ++ record { path = generated_main; content = text main }
      ∷ (body_files t.manifest body
          ++ record {
            path = lit "data.json";
            content = text (unwrap_or (json.to_string document) (lit "{}"));
          }
            ∷ [])

-- `Template::assemble_with_overrides`; `assemble` has no overrides.
pub assemble_with_overrides :
    {J : Type 0}
    → Json J
    → (J → J → Result (List SchemaError) Str)
    → (Str → Str)
    → Template J
    → J
    → Option Str
    → List BundleFile
    → List BundleFile
    → ℕ
    → Result Assembled TemplateError
unfolding check_kind apply_overrides all_files source_map
assemble_with_overrides json errors_of debug t document body extra overrides max_bytes = do
  _ ← validate errors_of t document
  _ ← check_kind t.manifest t.manifest.kind body
  files ← apply_overrides t.manifest.name overrides t.files
  main ← generate_main json debug t document
  bundle ←
      map_err TemplateError.bundle
        (Bundle.new generated_main (all_files json t document body files extra main) [] max_bytes)
  ok (record { bundle = bundle; source_map = source_map t.manifest body })
