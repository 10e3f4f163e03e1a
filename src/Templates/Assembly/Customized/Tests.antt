-- ===== src/Templates/Assembly/Customized/Tests.antt =====
-- A bundle of src/templates.rs from a small template with one override.
use typst_mcp.Common.{◌≡◌, refl, false, none, some, List, [], ◌∷◌, ◌++◌, Result, ok}
use typst_mcp.Common.Text.{
  Str, lit, len, bytes, utf8, str_eq, strip_prefix, ends_with_char, split, join,
}
use typst_mcp.Common.Table.Sorted
use typst_mcp.Bundle
use typst_mcp.Bundle.{
  text, BundleFile, Bundle, normalise_path, check_chars, find_bad_char, check_segments,
  check_segment, is_allowed, total_bytes, content_len, add_files, with_main,
}
use typst_mcp.TypstValue.{write_string, escape_all, escape, is_control}
use typst_mcp.Templates.{generated_main, data_only, Template, is_reserved, quote}
use typst_mcp.Templates.Arguments.{
  Json, generate_main, arguments, arguments_of, main_call, write_arguments,
}
use typst_mcp.Templates.Bounded.{SchemaError, validate}
use typst_mcp.Templates.Assembly.{
  apply_overrides, replace_file, check_kind, all_files, body_files, source_map,
  assemble_with_overrides,
}
use typst_mcp.Templates.Assembly.Customized.{IsCustomized, assemble_with_overrides-IsCustomized}

abbrev json : Json Str
json = record {
  get = λ v key. none;
  is_null = λ v. false;
  as_str = λ v. some v;
  as_i64 = λ v. none;
  as_f64 = λ v. none;
  as_bool = λ v. none;
  as_array = λ v. none;
  to_string = λ v. some v;
}

abbrev file : Str → Str → BundleFile
file path content = record { path = path; content = text content }

abbrev note : Template Str
note = record {
  manifest = record {
    name = lit "note";
    kind = data_only;
    version = lit "0.1.0";
    description = [];
    entrypoint = lit "a.typ";
    wrapper_fn = none;
    notice = none;
    args = [];
  };
  files = file (lit "a.typ") (lit "A") ∷ [];
  schema = none;
  example = none;
  example_body = none;
  manifest_toml = [];
  schema_json = none;
  fixture_json = none;
}

abbrev overrides : List BundleFile
overrides = file (lit "a.typ") (lit "B") ∷ []

abbrev no_errors : Str → Str → Result (List SchemaError) Str
no_errors schema document = ok []

abbrev same : Str → Str
same s = s

abbrev main : Str
main = lit "// Generated by typst-mcp. Do not edit.\n" ++ lit "#import \"a.typ\": *\n#render(\n)\n"

abbrev built : Bundle
built = record {
  main = generated_main;
  files =
      (generated_main, text main)
      ∷ (lit "a.typ", text (lit "B"))
      ∷ (lit "data.json", text (lit "{}"))
      ∷ [];
  inputs = [];
}

accepted :
    assemble_with_overrides json no_errors same note (lit "{}") none [] overrides 1000
    ≡ ok (record { bundle = built; source_map = [] })
unfolding assemble_with_overrides validate check_kind apply_overrides replace_file is_reserved
    generate_main arguments arguments_of main_call write_arguments all_files body_files source_map
    quote write_string escape_all escape is_control strip_prefix Bundle.new total_bytes content_len
    add_files with_main Sorted.insert Sorted.get Sorted.str_lt normalise_path check_chars
    find_bad_char check_segments check_segment is_allowed len bytes utf8 split join str_eq
    ends_with_char
accepted = refl

assemble_with_overrides-IsCustomized_example :
    (text' : Str) × (generate_main json same note (lit "{}") ≡ ok text')
    × IsCustomized note text' overrides 1000 built
assemble_with_overrides-IsCustomized_example =
    assemble_with_overrides-IsCustomized json no_errors same note (lit "{}") none [] overrides 1000
      (record { bundle = built; source_map = [] }) accepted
