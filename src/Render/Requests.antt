-- ===== src/Render/Requests.antt =====
-- The requests of src/render.rs: what is assembled for a compile, with which limits, and the links to
-- what was stored. The baked templates, the parser of archives and the random ids are parameters.
pub mod Assets
use typst_mcp.Common.{
  ℕ, zero, suc, ◌+◌, ◌-◌, ◌*◌, ◌/◌, ◌%◌, ◌^◌, ◌≤◌, ◌<◌, ◌≡◌, refl, sym, ap, ◌∙◌, ◌≢◌, ◌↔◌, ◌⊎◌, inl,
  inr, Bool, true, false, ◌&&◌, ◌||◌, Option, none, some, List, [], ◌∷◌, ◌++◌, map, arith, ltb, leb,
  ◌==◌, if◌then◌else◌, not, Bool-cases, Option-cases, is_some, is_none, length, All, any, all, sum,
  Has, Has-All, AreDistinct, take, drop, get_or, Result, ok, err, ◌>>=◌, ok_or, map_err, bind-eq-ok,
  map_err-eq-ok, Result-cases, if-cases, unwrap_or,
}
use typst_mcp.Common.Text.{Str, lit, str_eq, strip_prefix}
use typst_mcp.Common.Text.Decimal.{show}
use typst_mcp.Common.Table.Sorted.{SortedTable}
use typst_mcp.Bundle
use typst_mcp.Bundle.{max_files, text, binary, BundleFile, BundleError, Bundle}
use typst_mcp.Config.{Access, url}
use typst_mcp.Principal.{TenantId}
use typst_mcp.Signing.{Signer, sign_for}
use typst_mcp.Store.{Kind, output, asset, Entry, Store}
use typst_mcp.Store.Operations
use typst_mcp.Store.Operations.{entry}
use typst_mcp.Templates.{SourceMap, TemplateKind, wrapper, data_only, TemplateError, Template}
use typst_mcp.Templates.Arguments.{Json}
use typst_mcp.Templates.Bounded.{SchemaError}
use typst_mcp.Templates.Archive.{saturating_add}
use typst_mcp.Templates.Assembly.{Assembled, assemble_with_overrides}
use typst_mcp.Render.{RenderError}

pub record InputFile : Type 0 where
  pub path : Str
  pub contents : Str

pub record RenderRequest (J : Type 0) : Type 0 where
  pub template : Option Str
  pub document : Option J
  pub body : Option Str
  pub overrides : List InputFile
  pub source : Option Str
  pub files : List InputFile
  pub main : Option Str
  pub assets : List Str
  pub inputs : SortedTable Str
  pub preview_pages : Option (List ℕ)

pub record JobLimits : Type 0 where
  pub max_bundle_bytes : ℕ
  pub max_pages : ℕ
  pub preview_pages : List ℕ
  pub preview_scale_millis : ℕ
  pub preview_max_px : ℕ
  pub memory_bytes : ℕ

pub contains : Str → List Str → Bool
contains id seen = any (λ s. str_eq s id) seen

-- The first loop of `load_assets`, at the time `now`.
pub preflight :
    Store → ℕ → TenantId → ℕ → List Str → List Str → ℕ → Result (List (Str × Entry)) RenderError
unfolding contains
preflight store now tenant max_bundle_bytes [] seen total = ok []
preflight store now tenant max_bundle_bytes (id ∷ ids) seen total =
    if contains id seen then err (RenderError.duplicate_asset id) else do
      e ← map_err RenderError.store (entry store now tenant asset id)
      if ltb max_bundle_bytes (saturating_add total e.bytes)
          then err (
              RenderError.bundle
                (BundleError.too_large (saturating_add total e.bytes) max_bundle_bytes))
          else do
            entries ←
                preflight store now tenant max_bundle_bytes ids (id ∷ seen)
                  (saturating_add total e.bytes)
            ok ((id, e) ∷ entries)

-- The second loop; `read_fails` says which of the files the system cannot read.
pub read_assets :
    Store → ℕ → (Str → Bool) → TenantId → List (Str × Entry) → Result (List BundleFile) RenderError
read_assets store now read_fails tenant [] = ok []
read_assets store now read_fails tenant ((id, e) ∷ entries) = do
  b ←
      map_err RenderError.store
        (Operations.get store now (read_fails id) tenant asset id (unwrap_or e.filename id))
  files ← read_assets store now read_fails tenant entries
  ok (record { path = unwrap_or e.filename id; content = binary b } ∷ files)

pub load_assets :
    Store → ℕ → (Str → Bool) → TenantId → ℕ → List Str → Result (List BundleFile) RenderError
unfolding preflight read_assets
load_assets store now read_fails tenant max_bundle_bytes ids =
    if ltb max_files (length ids)
    then err (RenderError.bundle (BundleError.too_many_files (length ids)))
    else do
      entries ← preflight store now tenant max_bundle_bytes ids [] 0
      read_assets store now read_fails tenant entries

abbrev to_files : List InputFile → List BundleFile
to_files files = map (λ f. record { path = f.path; content = text f.contents }) files

-- The checks in front of `assemble`.
check_request : {J : Type 0} → RenderRequest J → Option Str → Bool → Result (Unit {0}) RenderError
check_request request (some name) true = err RenderError.ambiguous
check_request request none false = err RenderError.empty
check_request request none true =
    if not (length request.overrides == 0)
    then err RenderError.overrides_without_template
    else ok tt
check_request request (some name) false = ok tt

-- `assemble`, once the assets are read: `resolve` finds the template, and `empty_object` is `{}`.
module _ {J : Type 0} (json : Json J) (errors_of : J → J → Result (List SchemaError) Str)
    (debug : Str → Str) (empty_object : J) (max_bundle_bytes : ℕ) where
  inline_files : RenderRequest J → List BundleFile → List BundleFile
  inline_files request assets =
      assets
      ++ elim request.source [
        | none ↦ []
        | some source ↦ record { path = lit "main.typ"; content = text source } ∷ []
      ]
      ++ to_files request.files
      ++ elim request.document [
        | none ↦ []
        | some v ↦
            record {
              path = lit "data.json";
              content = text (unwrap_or (json.to_string v) (lit "{}"));
            }
            ∷ []
      ]

  assemble_template :
      RenderRequest J → Template J → List BundleFile → Result (Bundle × SourceMap) RenderError
  assemble_template request t assets = do
    assembled ← map_err RenderError.template (
        assemble_with_overrides json errors_of debug t (unwrap_or request.document empty_object)
          (elim t.manifest.kind [ wrapper ↦ request.body | data_only ↦ none ]) assets
          (to_files request.overrides) max_bundle_bytes)
    ok (record assembled.bundle { inputs = request.inputs }, assembled.source_map)

  assemble_files : RenderRequest J → List BundleFile → Result (Bundle × SourceMap) RenderError
  unfolding inline_files
  assemble_files request assets = do
    bundle ← map_err RenderError.bundle (
        Bundle.new (unwrap_or request.main (lit "main.typ")) (inline_files request assets)
          request.inputs max_bundle_bytes)
    ok (bundle, [])

  pub assemble :
      (Str → Result (Template J) RenderError)
      → (List Str → Result (List BundleFile) RenderError)
      → RenderRequest J
      → Result (Bundle × SourceMap) RenderError
  unfolding check_request assemble_template assemble_files
  assemble resolve load request = do
    _ ←
        check_request request request.template
          (is_some request.source || not (length request.files == 0))
    assets ← load request.assets
    elim request.template [
      | none ↦ assemble_files request assets
      | some name ↦ do t ← resolve name; assemble_template request t assets
    ]

pub job_limits :
    {J : Type 0}
    → (max_bundle_bytes max_pages preview_max_px memory : ℕ) → RenderRequest J
    → JobLimits
job_limits max_bundle_bytes max_pages preview_max_px memory request = record {
  max_bundle_bytes = max_bundle_bytes;
  max_pages = max_pages;
  preview_pages = unwrap_or request.preview_pages (1 ∷ []);
  preview_scale_millis = 1000;
  preview_max_px = preview_max_px;
  memory_bytes = memory;
}

pub preview_name : ℕ → Str
preview_name page = lit "page-" ++ show page ++ lit ".png"

-- `link`, at the time `now`.
pub link :
    Access → Signer → ℕ → Store → ℕ → TenantId → Str → Option ℕ → Result (Str × ℕ) RenderError
link config signer signed_url_ttl store now tenant job_id ttl_seconds = do
  e ← map_err RenderError.store (entry store now tenant output job_id)
  (let ttl = unwrap_or ttl_seconds signed_url_ttl in
      let capped = if ltb ttl signed_url_ttl then ttl else signed_url_ttl in
      let (signature, expires_at) = sign_for signer now tenant e.id capped in
      ok (
        url config (
            lit "files/"
            ++ tenant.text
            ++ lit "/"
            ++ e.id
            ++ lit "/doc.pdf?exp="
            ++ show expires_at
            ++ lit "&sig="
            ++ signature),
        expires_at,
      ))
