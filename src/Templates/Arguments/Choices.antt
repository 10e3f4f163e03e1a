-- ===== src/Templates/Arguments/Choices.antt =====
-- What the data of a caller can become in the generated source of src/templates.rs.
mod Tests
use typst_mcp.Common.{
  ℕ, zero, suc, ◌+◌, ◌-◌, ◌*◌, ◌/◌, ◌%◌, ◌^◌, ◌≤◌, ◌<◌, ◌≡◌, refl, sym, ap, ◌∙◌, ◌≢◌, ◌↔◌, ◌⊎◌, inl,
  inr, Bool, true, false, ◌&&◌, ◌||◌, Option, none, some, List, [], ◌∷◌, ◌++◌, map, arith, ltb, leb,
  ◌==◌, if◌then◌else◌, not, Bool-cases, Option-cases, is_some, is_none, length, All, any, all, sum,
  Has, Has-All, AreDistinct, take, drop, get_or, Result, ok, err, ◌>>=◌, ok_or, map_err, bind-eq-ok,
  map_err-eq-ok, Result-cases, if-cases, unwrap_or,
}
use mathlib.Core.Path.{subst}
use typst_mcp.Common.Errors.{ok_or-eq-ok}
use typst_mcp.Common.Lists.{All-map}
use typst_mcp.Common.Text.{Str, lit}
use typst_mcp.Common.Table.Sorted
use typst_mcp.Common.Table.Sorted.{SortedTable}
use typst_mcp.TypstValue.{Signed, Float, TypstValue, Values, no_values, and_value, parse_date}
use typst_mcp.Templates.{ArgKind, ArgSpec, TemplateError, Template}
use typst_mcp.Templates.Arguments.{
  Json, strings_from, convert_as, convert, push_argument, arguments_of, arguments,
}

abbrev pub AreTexts : Values → Type 0
AreTexts no_values = Unit
AreTexts (and_value v vs) = ((text : Str) × (v ≡ TypstValue.str text)) × AreTexts vs

-- The values of each kind; an identifier is one that the author of the template put behind some key.
abbrev pub IsOfKind : ArgKind → SortedTable Str → TypstValue → Type 0
IsOfKind ArgKind.str choices v = (text : Str) × (v ≡ TypstValue.str text)
IsOfKind ArgKind.int choices v = (n : Signed) × (v ≡ TypstValue.int n)
IsOfKind ArgKind.float choices v = (x : Float) × (v ≡ TypstValue.float x)
IsOfKind ArgKind.bool choices v = (b : Bool) × (v ≡ TypstValue.bool b)
IsOfKind ArgKind.date choices v = (text : Str) × (parse_date text ≡ some v)
IsOfKind ArgKind.strings choices v = (vs : Values) × (v ≡ TypstValue.array vs) × AreTexts vs
IsOfKind ArgKind.ident choices v =
    (name : Str) × (v ≡ TypstValue.ident name)
    × ((key : Str) × (Sorted.get key choices ≡ some name))

-- An argument that the manifest declares, with a value of the declared kind.
abbrev pub IsDeclared : List (Str × ArgSpec) → Str × TypstValue → Type 0
IsDeclared args p =
    (field : Str) × (spec : ArgSpec) × Has (field, spec) args
    × (p.0 ≡ spec.arg)
    × IsOfKind spec.kind spec.map p.1

module _ {J : Type 0} (json : Json J) (debug : Str → Str) where
  strings_from-AreTexts :
      (field : Str) (i : ℕ) (items : List J) (vs : Values)
      → strings_from json debug field i items ≡ ok vs
      → AreTexts vs
  unfolding strings_from
  strings_from-AreTexts field i [] vs h = let same : no_values ≡ vs = cc h in subst AreTexts same tt
  strings_from-AreTexts field i (item ∷ items) vs h = elim (Option-cases (json.as_str item)) [
    | inl e ↦ absurd (cc (rw e at h))
    | inr (text, e) ↦ elim (Result-cases (strings_from json debug field (suc i) items)) [
      | inr (bad, f) ↦ absurd (cc (rw (e, f) at h))
      | inl (rest, f) ↦
          let same : and_value (TypstValue.str text) rest ≡ vs = cc (rw (e, f) at h) in
          subst AreTexts same ((text, refl), strings_from-AreTexts field (suc i) items rest f)
    ]
  ]

  convert_as-IsOfKind :
      (kind : ArgKind) (choices : SortedTable Str) (field : Str) (raw : J) (v : TypstValue)
      → convert_as json debug kind choices field raw ≡ ok v
      → IsOfKind kind choices v
  unfolding convert_as
  convert_as-IsOfKind ArgKind.str choices field raw v h = elim (Option-cases (json.as_str raw)) [
    | inl e ↦ absurd (cc (rw e at h))
    | inr (x, e) ↦ (x, cc (rw e at h))
  ]
  convert_as-IsOfKind ArgKind.int choices field raw v h = elim (Option-cases (json.as_i64 raw)) [
    | inl e ↦ absurd (cc (rw e at h))
    | inr (x, e) ↦ (x, cc (rw e at h))
  ]
  convert_as-IsOfKind ArgKind.float choices field raw v h = elim (Option-cases (json.as_f64 raw)) [
    | inl e ↦ absurd (cc (rw e at h))
    | inr (x, e) ↦ (x, cc (rw e at h))
  ]
  convert_as-IsOfKind ArgKind.bool choices field raw v h = elim (Option-cases (json.as_bool raw)) [
    | inl e ↦ absurd (cc (rw e at h))
    | inr (x, e) ↦ (x, cc (rw e at h))
  ]
  convert_as-IsOfKind ArgKind.date choices field raw v h = elim (Option-cases (json.as_str raw)) [
    | inl e ↦ absurd (cc (rw e at h))
    | inr (text, e) ↦ (text, ok_or-eq-ok (parse_date text) _ (rw e at h))
  ]
  convert_as-IsOfKind ArgKind.strings choices field raw v h =
      elim (Option-cases (json.as_array raw)) [
        | inl e ↦ absurd (cc (rw e at h))
        | inr (items, e) ↦ elim (Result-cases (strings_from json debug field 0 items)) [
          | inr (bad, f) ↦ absurd (cc (rw (e, f) at h))
          | inl (vs, f) ↦ (vs, cc (rw (e, f) at h), strings_from-AreTexts field 0 items vs f)
        ]
      ]
  convert_as-IsOfKind ArgKind.ident choices field raw v h = elim (Option-cases (json.as_str raw)) [
    | inl e ↦ absurd (cc (rw e at h))
    | inr (key, e) ↦ elim (Option-cases (Sorted.get key choices)) [
      | inl f ↦ absurd (cc (rw (e, f) at h))
      | inr (name, f) ↦ (name, cc (rw (e, f) at h), (key, f))
    ]
  ]

  -- What is declared stays declared when the manifest has one more argument.
  IsDeclared-there :
      (e : Str × ArgSpec) (args : List (Str × ArgSpec)) (out : List (Str × TypstValue))
      → All (IsDeclared args) out
      → All (IsDeclared (e ∷ args)) out
  IsDeclared-there e args out h =
      All-map (IsDeclared args) (IsDeclared (e ∷ args)) out
        (λ p (field, spec, m, same, kind). (field, spec, inr m, same, kind)) h

  arguments_of-IsDeclared :
      (raw : J) (args : List (Str × ArgSpec)) (out : List (Str × TypstValue))
      → arguments_of json debug raw args ≡ ok out
      → All (IsDeclared args) out
  unfolding arguments_of push_argument convert
  arguments_of-IsDeclared raw [] out h =
      let same : [] ≡ out = cc h in subst (All (IsDeclared [])) same tt
  arguments_of-IsDeclared raw ((field, spec) ∷ args) out h =
      let later = λ (h : arguments_of json debug raw args ≡ ok out).
        IsDeclared-there (field, spec) args out (arguments_of-IsDeclared raw args out h) in
      elim (Option-cases (json.get raw field)) [
        | inl e ↦ later (rw e at h)
        | inr (x, e) ↦ elim (Bool-cases (json.is_null x)) [
          | inl f ↦ later (rw (e, f) at h)
          | inr f ↦ elim (Result-cases (convert_as json debug spec.kind spec.map field x)) [
            | inr (bad, g) ↦ absurd (cc (rw (e, f, g) at h))
            | inl (v, g) ↦ elim (Result-cases (arguments_of json debug raw args)) [
              | inr (bad, k) ↦ absurd (cc (rw (e, f, g, k) at h))
              | inl (more, k) ↦
                  let same : (spec.arg, v) ∷ more ≡ out = cc (rw (e, f, g, k) at h) in
                  subst (All (IsDeclared ((field, spec) ∷ args))) same (
                    (
                      field,
                      spec,
                      inl refl,
                      refl,
                      convert_as-IsOfKind spec.kind spec.map field x v g,
                    ),
                    IsDeclared-there (field, spec) args more
                        (arguments_of-IsDeclared raw args more k),
                  )
            ]
          ]
        ]
      ]

  -- Whatever the data, each argument that is passed to the template is declared in the manifest and
  -- has a value of its declared kind; where that is an identifier, it is one that the manifest maps
  -- a key to, and never a text of the caller.
  pub arguments-IsDeclared :
      (t : Template J) (raw : J) (out : List (Str × TypstValue))
      → arguments json debug t raw ≡ ok out
      → All (IsDeclared t.manifest.args) out
  unfolding arguments
  arguments-IsDeclared t raw out h = arguments_of-IsDeclared raw t.manifest.args out h
