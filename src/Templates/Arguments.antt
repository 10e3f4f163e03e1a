-- ===== src/Templates/Arguments.antt =====
-- The generated entry point of a template: `convert`, `arguments` and `generate_main` of
-- src/templates.rs.
pub mod Choices
use typst_mcp.Common.{
  ℕ, zero, suc, ◌+◌, ◌-◌, ◌*◌, ◌/◌, ◌%◌, ◌^◌, ◌≤◌, ◌<◌, ◌≡◌, refl, sym, ap, ◌∙◌, ◌≢◌, ◌↔◌, ◌⊎◌, inl,
  inr, Bool, true, false, ◌&&◌, ◌||◌, Option, none, some, List, [], ◌∷◌, ◌++◌, map, arith, ltb, leb,
  ◌==◌, if◌then◌else◌, not, Bool-cases, Option-cases, is_some, is_none, length, All, any, all, sum,
  Has, Has-All, AreDistinct, take, drop, get_or, Result, ok, err, ◌>>=◌, ok_or, map_err, bind-eq-ok,
  map_err-eq-ok, Result-cases, if-cases, unwrap_or,
}
use typst_mcp.Common.Text.{Str, lit, join}
use typst_mcp.Common.Text.Decimal.{show}
use typst_mcp.Common.Table.Sorted
use typst_mcp.Common.Table.Sorted.{SortedTable}
use typst_mcp.TypstValue.{
  Signed, Float, TypstValue, Values, no_values, and_value, write, parse_date,
}
use typst_mcp.Templates.{
  generated_body, TemplateKind, wrapper, data_only, ArgKind, ArgSpec, Manifest, TemplateError,
  Template, quote,
}

-- What the code asks of a JSON value.
pub record Json (J : Type 0) : Type 0 where
  pub get : J → Str → Option J
  pub is_null : J → Bool
  pub as_str : J → Option Str
  pub as_i64 : J → Option Signed
  pub as_f64 : J → Option Float
  pub as_bool : J → Option Bool
  pub as_array : J → Option (List J)
  pub to_string : J → Option Str

-- The lines that `generate_main` writes for the arguments.
unfoldable pub write_arguments : List (Str × TypstValue) → Result Str TemplateError
write_arguments [] = ok []
write_arguments ((arg, v) ∷ args) = do
  source ← map_err TemplateError.value (write v)
  rest ← write_arguments args
  ok (lit "  " ++ arg ++ lit ": " ++ source ++ lit ",\n" ++ rest)

-- `{:?}` of a text is a parameter.
module _ {J : Type 0} (json : Json J) (debug : Str → Str) where
  -- The elements of an array of strings, from element `i` on.
  strings_from : Str → ℕ → List J → Result Values TemplateError
  strings_from field i [] = ok no_values
  strings_from field i (item ∷ items) = do
    text ←
        ok_or (json.as_str item)
          (TemplateError.bad_arg field (lit "element " ++ show i ++ lit " is not a string"))
    rest ← strings_from field (suc i) items
    ok (and_value (TypstValue.str text) rest)

  -- The cases of `convert`.
  convert_as : ArgKind → SortedTable Str → Str → J → Result TypstValue TemplateError
  unfolding strings_from
  convert_as ArgKind.str choices field raw = do
    text ← ok_or (json.as_str raw) (TemplateError.bad_arg field (lit "expected a string"))
    ok (TypstValue.str text)
  convert_as ArgKind.int choices field raw = do
    n ← ok_or (json.as_i64 raw) (TemplateError.bad_arg field (lit "expected an integer"))
    ok (TypstValue.int n)
  convert_as ArgKind.float choices field raw = do
    x ← ok_or (json.as_f64 raw) (TemplateError.bad_arg field (lit "expected a number"))
    ok (TypstValue.float x)
  convert_as ArgKind.bool choices field raw = do
    b ← ok_or (json.as_bool raw) (TemplateError.bad_arg field (lit "expected true or false"))
    ok (TypstValue.bool b)
  convert_as ArgKind.date choices field raw = do
    text ←
        ok_or (json.as_str raw) (TemplateError.bad_arg field (lit "expected a date as YYYY-MM-DD"))
    ok_or (parse_date text) (TemplateError.bad_arg field (lit "expected a date as YYYY-MM-DD"))
  convert_as ArgKind.strings choices field raw = do
    items ←
        ok_or (json.as_array raw) (TemplateError.bad_arg field (lit "expected an array of strings"))
    values ← strings_from field 0 items
    ok (TypstValue.array values)
  convert_as ArgKind.ident choices field raw = do
    key ← ok_or (json.as_str raw) (TemplateError.bad_arg field (lit "expected a string"))
    mapped ← ok_or (Sorted.get key choices) (
        TemplateError.bad_arg field
          (debug key ++ lit " is not one of: " ++ join (lit ", ") (map (λ e. e.0) choices)))
    ok (TypstValue.ident mapped)

  pub convert : Str → ArgSpec → J → Result TypstValue TemplateError
  unfolding convert_as
  convert field spec raw = convert_as spec.kind spec.map field raw

  -- What one key of the data adds in front of the arguments behind it.
  push_argument :
      Str
      → ArgSpec
      → Option J
      → Result (List (Str × TypstValue)) TemplateError
      → Result (List (Str × TypstValue)) TemplateError
  unfolding convert
  push_argument field spec none rest = rest
  push_argument field spec (some raw) rest =
      if json.is_null raw
      then rest
      else do v ← convert field spec raw; more ← rest; ok ((spec.arg, v) ∷ more)

  -- The loop of `arguments`.
  unfoldable pub arguments_of :
      J → List (Str × ArgSpec) → Result (List (Str × TypstValue)) TemplateError
  unfolding push_argument
  arguments_of data' [] = ok []
  arguments_of data' ((field, spec) ∷ args) =
      push_argument field spec (json.get data' field) (arguments_of data' args)

  unfoldable pub arguments : Template J → J → Result (List (Str × TypstValue)) TemplateError
  unfolding arguments_of
  arguments t data' = arguments_of data' t.manifest.args

  -- The part of `generate_main` behind the import.
  unfoldable pub main_call :
      TemplateKind → Option Str → List (Str × TypstValue) → Result Str TemplateError
  unfolding write_arguments
  main_call wrapper f args = do
    lines ← write_arguments args
    ok (
        lit "#show: "
        ++ unwrap_or f []
        ++ lit ".with(\n"
        ++ lines
        ++ lit ")\n"
        ++ lit "#include "
        ++ quote generated_body
        ++ lit "\n")
  main_call data_only f args = do
    lines ← write_arguments args
    ok (b'#' ∷ (unwrap_or f (lit "render") ++ lit "(\n" ++ lines ++ lit ")\n"))

  unfoldable pub generate_main : Template J → J → Result Str TemplateError
  unfolding arguments main_call
  generate_main t data' = do
    args ← arguments t data'
    call ← main_call t.manifest.kind t.manifest.wrapper_fn args
    ok (
        lit "// Generated by typst-mcp. Do not edit.\n"
        ++ lit "#import "
        ++ quote t.manifest.entrypoint
        ++ lit ": *\n"
        ++ call)
