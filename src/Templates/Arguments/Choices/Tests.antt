-- ===== src/Templates/Arguments/Choices/Tests.antt =====
-- The arguments of src/templates.rs at concrete data.
use typst_mcp.Common.{◌≡◌, refl, false, none, some, List, [], ◌∷◌, All, ok}
use typst_mcp.Common.Text.{Str, lit, str_eq}
use typst_mcp.Common.Table.Sorted
use typst_mcp.TypstValue.{TypstValue}
use typst_mcp.Templates.{wrapper, ArgKind, ArgSpec, Template}
use typst_mcp.Templates.Arguments.{
  Json, convert_as, convert, push_argument, arguments_of, arguments,
}
use typst_mcp.Templates.Arguments.Choices.{IsDeclared, arguments-IsDeclared}

-- A JSON value is a text here, and an object has every key with one value.
abbrev texts : Json Str
texts = record {
  get = λ v key. some v;
  is_null = λ v. false;
  as_str = λ v. some v;
  as_i64 = λ v. none;
  as_f64 = λ v. none;
  as_bool = λ v. none;
  as_array = λ v. none;
  to_string = λ v. some v;
}

abbrev spec : ArgSpec
spec = record {
  arg = lit "accent";
  kind = ArgKind.ident;
  map = (lit "brand", lit "brand-blue") ∷ [];
}

abbrev letter : Template Str
letter = record {
  manifest = record {
    name = lit "letter";
    kind = wrapper;
    version = lit "0.1.0";
    description = [];
    entrypoint = lit "letter.typ";
    wrapper_fn = some (lit "letter");
    notice = none;
    args = (lit "accent", spec) ∷ [];
  };
  files = [];
  schema = none;
  example = none;
  example_body = none;
  manifest_toml = [];
  schema_json = none;
  fixture_json = none;
}

abbrev out : List (Str × TypstValue)
out = (lit "accent", TypstValue.ident (lit "brand-blue")) ∷ []

arguments-out : arguments texts (λ s. s) letter (lit "brand") ≡ ok out
unfolding arguments arguments_of push_argument convert convert_as Sorted.get str_eq
arguments-out = refl

arguments-IsDeclared_example : All (IsDeclared letter.manifest.args) out
arguments-IsDeclared_example =
    arguments-IsDeclared texts (λ s. s) letter (lit "brand") out arguments-out
