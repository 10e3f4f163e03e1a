-- ===== src/Templates/Assembly/Customized.antt =====
-- What a bundle is made of that `assemble_with_overrides` of src/templates.rs builds.
mod Tests
use typst_mcp.Common.{
  ℕ, zero, suc, ◌+◌, ◌-◌, ◌*◌, ◌/◌, ◌%◌, ◌^◌, ◌≤◌, ◌<◌, ◌≡◌, refl, sym, ap, ◌∙◌, ◌≢◌, ◌↔◌, ◌⊎◌, inl,
  inr, Bool, true, false, ◌&&◌, ◌||◌, Option, none, some, List, [], ◌∷◌, ◌++◌, map, arith, ltb, leb,
  ◌==◌, if◌then◌else◌, not, Bool-cases, Option-cases, is_some, is_none, length, All, any, all, sum,
  Has, Has-All, AreDistinct, take, drop, get_or, Result, ok, err, ◌>>=◌, ok_or, map_err, bind-eq-ok,
  map_err-eq-ok, Result-cases, if-cases, unwrap_or,
}
use mathlib.Core.Path.{subst}
use typst_mcp.Common.Text.{Str, lit, str_eq}
use typst_mcp.Common.Text.Laws.{str_eq_iff}
use typst_mcp.Common.Table.Sorted
use typst_mcp.Bundle
use typst_mcp.Bundle.{normalise_path, FileContent, text, BundleFile, Bundle}
use typst_mcp.Bundle.Paths.{normalise_path-eq}
use typst_mcp.Bundle.Validation.{find_file, HasDistinctPaths, IsAdmissible, new-IsAdmissible}
use typst_mcp.Templates.{generated_main, is_reserved, TemplateError, Template}
use typst_mcp.Templates.Arguments.{Json, generate_main}
use typst_mcp.Templates.Bounded.{SchemaError, validate}
use typst_mcp.Templates.Assembly.{
  replace_file, apply_overrides, check_kind, body_files, all_files, source_map, Assembled,
  assemble_with_overrides,
}

-- The content of the last file of that path, if there is one.
abbrev pub latest : Str → List BundleFile → Option FileContent → Option FileContent
latest k [] content = content
latest k (o ∷ os) content = latest k os (if str_eq o.path k then some o.content else content)

find_file-replace_file :
    (path k : Str) (content : FileContent) (files after : List BundleFile)
    → replace_file path content files ≡ some after
    → (find_file path files ≢ none)
      × (find_file k after ≡ (if str_eq path k then some content else find_file k files))
unfolding replace_file find_file
find_file-replace_file path k content [] after h = cc
find_file-replace_file path k content (f ∷ fs) after h = elim (Bool-cases (str_eq f.path path)) [
  | inl e ↦
      let same : record { path = path; content = content } ∷ fs ≡ after = cc (rw e at h) in
      let path_eq = (str_eq_iff f.path path).0 e in
      rw (← same) (rw e (λ n. cc, ground (arith, path_eq)))
  | inr e ↦ elim (Option-cases (replace_file path content fs)) [
    | inl g ↦ absurd (cc (rw (e, g) at h))
    | inr (gs, g) ↦
        let same : f ∷ gs ≡ after = cc (rw (e, g) at h) in
        let (there, rest) = find_file-replace_file path k content fs gs g in
        rw (← same) (
          rw e (
            there,
            ground (arith, rest, e, str_eq_iff f.path path, str_eq_iff f.path k, str_eq_iff path k),
          ))
  ]
]

-- An override replaces a file that is there, and nothing else.
apply_overrides-latest :
    (name k : Str) (os files after : List BundleFile)
    → apply_overrides name os files ≡ ok after
    → find_file k after ≡ latest k os (find_file k files)
unfolding apply_overrides
apply_overrides-latest name k [] files after h = let same : files ≡ after = cc h in rw same refl
apply_overrides-latest name k (o ∷ os) files after h = elim (Bool-cases (is_reserved o.path)) [
  | inl e ↦ absurd (cc (rw e at h))
  | inr e ↦ elim (Result-cases (normalise_path o.path)) [
    | inr (bad, f) ↦ absurd (cc (rw (e, f) at h))
    | inl (path, f) ↦ elim (Option-cases (replace_file path o.content files)) [
      | inl g ↦ absurd (cc (rw (e, f, g) at h))
      | inr (next, g) ↦
          let same = normalise_path-eq o.path path f in
          let replaced = (find_file-replace_file path k o.content files next g).1 in
          let later = apply_overrides-latest name k os next after (rw (e, f, g) at h) in
          later
          ∙ ap (latest k os)
              (replaced ∙ ap (λ p. if str_eq p k then some o.content else find_file k files) same)
    ]
  ]
]

Has-find_file :
    (f : BundleFile) (files : List BundleFile)
    → HasDistinctPaths files
    → Has f files
    → find_file f.path files ≡ some f.content
unfolding find_file
Has-find_file f [] d m = absurd m
Has-find_file f (g ∷ gs) d (inl e) =
    let same = (str_eq_iff g.path g.path).1 refl in rw e (rw same refl)
Has-find_file f (g ∷ gs) d (inr m) =
    let there = Has-find_file f gs d.1 m in
    let first = d.0 in ground (arith, there, first, str_eq_iff g.path f.path)

find_file-append :
    (k : Str) (fs gs : List BundleFile)
    → find_file k fs ≢ none
    → find_file k (fs ++ gs) ≡ find_file k fs
unfolding find_file
find_file-append k [] gs h = absurd (h refl)
find_file-append k (f ∷ fs) gs h = elim (Bool-cases (str_eq f.path k)) [
  | inl e ↦ rw e refl
  | inr e ↦ rw e (find_file-append k fs gs (rw e at h))
]

latest-is_some : (k : Str) (os : List BundleFile) (c : FileContent) → latest k os (some c) ≢ none
latest-is_some k [] c h = cc
latest-is_some k (o ∷ os) c h = elim (Bool-cases (str_eq o.path k)) [
  | inl e ↦ latest-is_some k os o.content (rw e at h)
  | inr e ↦ latest-is_some k os c (rw e at h)
]

-- What a bundle that was built from a template contains.
pub record IsCustomized {J : Type 0} (t : Template J) (main : Str) (overrides : List BundleFile)
    (max_bytes : ℕ) (bundle : Bundle) : Type 0 where
  pub main_is : bundle.main ≡ generated_main
  pub entry : Sorted.get generated_main bundle.files ≡ some (text main)
  pub own :
      (k : Str)
      → (find_file k t.files ≡ none)
        ⊎ (Sorted.get k bundle.files ≡ latest k overrides (find_file k t.files))
  pub admissible :
      (files : List BundleFile) × IsAdmissible generated_main files max_bytes
      × ((k : Str) → Sorted.get k bundle.files ≡ find_file k files)

Has-append :
    (f : BundleFile) (before files : List BundleFile) → Has f files → Has f (before ++ files)
Has-append f [] files m = m
Has-append f (g ∷ before) files m = inr (Has-append f before files m)

module _ {J : Type 0} (json : Json J) (errors_of : J → J → Result (List SchemaError) Str)
    (debug : Str → Str) where
  bundle-IsCustomized :
      (t : Template J) (document : J) (body : Option Str) (extra overrides files : List BundleFile)
      (max_bytes : ℕ) (main : Str) (bundle : Bundle)
      → apply_overrides t.manifest.name overrides t.files ≡ ok files
      → Bundle.new generated_main (all_files json t document body files extra main) [] max_bytes
        ≡ ok bundle
      → IsCustomized t main overrides max_bytes bundle
  unfolding all_files
  bundle-IsCustomized t document body extra overrides files max_bytes main bundle replaced built =
      let all = all_files json t document body files extra main in
      let (a, same_main, inputs, count, reads) =
        new-IsAdmissible generated_main all [] max_bytes bundle built in
      let there : Has (record { path = generated_main; content = text main }) all =
        Has-append _ (files ++ extra) _ (inl refl) in
      record {
        main_is = same_main;
        entry = reads generated_main ∙ Has-find_file _ all a.distinct there;
        own = λ k. elim (Option-cases (find_file k t.files)) [
          | inl missing ↦ inl missing
          | inr (content, present) ↦
              let chosen =
                apply_overrides-latest t.manifest.name k overrides t.files files replaced in
              let found : find_file k files ≢ none =
                λ n. latest-is_some k overrides content (rw present at (sym chosen ∙ n)) in
              let first = find_file-append k files extra found in
              let rest = find_file-append k (files ++ extra) _ (λ n. found (sym first ∙ n)) in
              inr (reads k ∙ rest ∙ first ∙ chosen)
        ];
        admissible = (all, a, reads);
      }

  -- A bundle that is built from a template starts at the generated entry point, whatever assets and
  -- overrides the caller sends; each file of the template is in it, with the content of the last
  -- override of its path if there is one and its own content otherwise; and the files are those
  -- that `Bundle::new` admits.
  pub assemble_with_overrides-IsCustomized :
      (t : Template J) (document : J) (body : Option Str) (extra overrides : List BundleFile)
      (max_bytes : ℕ) (a : Assembled)
      → assemble_with_overrides json errors_of debug t document body extra overrides max_bytes
        ≡ ok a
      → (main : Str) × (generate_main json debug t document ≡ ok main)
        × IsCustomized t main overrides max_bytes a.bundle
  unfolding assemble_with_overrides
  assemble_with_overrides-IsCustomized t document body extra overrides max_bytes a h =
      let (_, valid, h₁) = bind-eq-ok (validate errors_of t document) _ h in
      let (_, kind, h₂) = bind-eq-ok (check_kind t.manifest t.manifest.kind body) _ h₁ in
      let (files, replaced, h₃) =
        bind-eq-ok (apply_overrides t.manifest.name overrides t.files) _ h₂ in
      let (main, generated, h₄) = bind-eq-ok (generate_main json debug t document) _ h₃ in
      let (bundle, built, h₅) =
        bind-eq-ok
          (map_err TemplateError.bundle (
            Bundle.new generated_main (all_files json t document body files extra main) []
              max_bytes))
          _ h₄ in
      let same : bundle ≡ a.bundle = cc h₅ in
      let customized =
        bundle-IsCustomized t document body extra overrides files max_bytes main bundle replaced
          (map_err-eq-ok _ _ built) in
      (main, generated, subst (IsCustomized t main overrides max_bytes) same customized)
