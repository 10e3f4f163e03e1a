-- ===== src/ApiError.antt =====
-- src/error.rs: the public contract of errors. The texts of the errors, which their `Display` gives,
-- are a parameter.
pub mod Contract
pub mod Challenge
use typst_mcp.Common.{
  ℕ, zero, suc, ◌+◌, ◌-◌, ◌*◌, ◌/◌, ◌%◌, ◌^◌, ◌≤◌, ◌<◌, ◌≡◌, refl, sym, ap, ◌∙◌, ◌≢◌, ◌↔◌, ◌⊎◌, inl,
  inr, Bool, true, false, ◌&&◌, ◌||◌, Option, none, some, List, [], ◌∷◌, ◌++◌, map, arith, ltb, leb,
  ◌==◌, if◌then◌else◌, not, Bool-cases, Option-cases, is_some, is_none, length, All, any, all, sum,
  Has, Has-All, AreDistinct, take, drop, get_or, Result, ok, err, ◌>>=◌, ok_or, map_err, bind-eq-ok,
  map_err-eq-ok, Result-cases, if-cases, unwrap_or,
}
use typst_mcp.Common.Text.{Str, lit, is_empty, str_eq, split, join}
use typst_mcp.Common.Text.Decimal.{show}
use typst_mcp.Auth.{AuthError, status, message}
use typst_mcp.Bundle.{BundleError}
use typst_mcp.Diagnostics.{Diagnostic}
use typst_mcp.Render.{RenderError}
use typst_mcp.Spawn.{SpawnError}
use typst_mcp.Store.{StoreError}
use typst_mcp.Templates.{TemplateError}

pub data ErrorCode : Type 0 where
  bad_request unauthorized forbidden provider_unavailable unknown_template not_found expired :
      ErrorCode
  payload_too_large invalid_path invalid_bundle invalid_data compile_failed timeout : ErrorCode
  overloaded quota_exceeded internal : ErrorCode

pub record ErrorEnvelope : Type 0 where
  pub is_ok : Bool
  pub error : ErrorCode
  pub message : Str
  pub diagnostics : List Diagnostic
  pub available : List Str

pub record ApiError : Type 0 where
  pub status : ℕ
  pub envelope : ErrorEnvelope
  pub challenge : Option Str

pub new : ℕ → ErrorCode → Str → ApiError
new status error message = record {
  status = status;
  envelope = record {
    is_ok = false;
    error = error;
    message = message;
    diagnostics = [];
    available = [];
  };
  challenge = none;
}

pub bad_request_error : Str → ApiError
unfolding new
bad_request_error message = new 400 ErrorCode.bad_request message

pub invalid_path_error : Str → ApiError
unfolding new
invalid_path_error message = new 400 ErrorCode.invalid_path message

pub not_found_error : Str → ApiError
unfolding new
not_found_error message = new 404 ErrorCode.not_found message

pub forbidden_error : Str → ApiError
unfolding new
forbidden_error message = new 403 ErrorCode.forbidden message

pub expired_error : Str → ApiError
unfolding new
expired_error message = new 410 ErrorCode.expired message

-- `split(", ")`.
pub split_list : Str → List Str
split_list [] = [] ∷ []
split_list (c ∷ []) = (c ∷ []) ∷ []
split_list (c ∷ d ∷ s) =
    let rest = split_list s in
    let later = split_list (d ∷ s) in
    if (c == b',') && (d == b' ')
    then [] ∷ rest
    else elim later [ [] ↦ (c ∷ []) ∷ [] | p ∷ ps ↦ (c ∷ p) ∷ ps ]

pub keep : (Str → Bool) → List Str → List Str
keep p [] = []
keep p (s ∷ ss) = let rest = keep p ss in if p s then s ∷ rest else rest

-- `unknown_template`; `debug` is the `{:?}` of a text.
pub unknown_template_error : (Str → Str) → Str → List Str → ApiError
unfolding new split_list keep
unknown_template_error debug name available =
    let names : Str = elim available [
      | [] ↦ lit "none"
      | first ∷ more ↦ join (lit ", ") (first ∷ more)
    ] in
    let base =
      new 404 ErrorCode.unknown_template
        (lit "no template named " ++ debug name ++ lit "; available: " ++ names) in
    record base {
      envelope = record base.envelope {
        available = keep (λ name. not (str_eq name (lit "none"))) (split_list names);
      };
    }

abbrev code_of : AuthError → ErrorCode
code_of AuthError.provider_unavailable = ErrorCode.provider_unavailable
code_of _ = ErrorCode.unauthorized

-- `ApiError::auth`.
pub auth_error : AuthError → Str → ApiError
unfolding new
auth_error error challenge =
    let public = new (status error) (code_of error) (message error) in
    if public.status == 401 then record public { challenge = some challenge } else public

-- `internal`, without the log.
pub internal_error : ApiError
unfolding new
internal_error = new 500 ErrorCode.internal (lit "the server could not complete this request")

-- The texts of the errors.
pub record Texts : Type 0 where
  pub store : StoreError → Str
  pub bundle : BundleError → Str
  pub template : TemplateError → Str
  pub render : RenderError → Str
  pub debug : Str → Str

module _ (texts : Texts) where
  pub from_store : StoreError → ApiError
  unfolding new expired_error not_found_error internal_error
  from_store (StoreError.expired kind id) = expired_error (texts.store (StoreError.expired kind id))
  from_store (StoreError.not_found kind id) =
      not_found_error (texts.store (StoreError.not_found kind id))
  from_store (StoreError.bad_id kind id) = not_found_error (texts.store (StoreError.bad_id kind id))
  from_store (StoreError.tenant_full size limit) =
      new 507 ErrorCode.quota_exceeded (texts.store (StoreError.tenant_full size limit))
  from_store (StoreError.tenant_entries_full limit) =
      new 507 ErrorCode.quota_exceeded (texts.store (StoreError.tenant_entries_full limit))
  from_store StoreError.io = internal_error

  pub from_bundle : BundleError → ApiError
  unfolding new
  from_bundle (BundleError.too_many_files n) =
      new 413 ErrorCode.payload_too_large (texts.bundle (BundleError.too_many_files n))
  from_bundle (BundleError.too_large actual limit) =
      new 413 ErrorCode.payload_too_large (texts.bundle (BundleError.too_large actual limit))
  from_bundle e = new 422 ErrorCode.invalid_bundle (texts.bundle e)

  pub from_template : TemplateError → ApiError
  unfolding new from_bundle internal_error
  from_template (TemplateError.bundle e) = from_bundle e
  from_template (TemplateError.schema_violation m) =
      new 422 ErrorCode.invalid_data (texts.template (TemplateError.schema_violation m))
  from_template (TemplateError.bad_arg f m) =
      new 422 ErrorCode.invalid_data (texts.template (TemplateError.bad_arg f m))
  from_template (TemplateError.wrong_kind n k m) =
      new 422 ErrorCode.invalid_data (texts.template (TemplateError.wrong_kind n k m))
  from_template (TemplateError.value e) =
      new 422 ErrorCode.invalid_data (texts.template (TemplateError.value e))
  from_template (TemplateError.io path source) = internal_error
  from_template e = new 422 ErrorCode.invalid_bundle (texts.template e)

  -- A render error that the compile service gives.
  from_spawn : SpawnError → ApiError
  unfolding new internal_error
  from_spawn (SpawnError.timeout after) = new 504 ErrorCode.timeout (
      lit "compile exceeded its "
      ++ show after
      ++ lit "s deadline and was killed; the document may contain an unbounded or "
      ++ lit "excessively expensive computation")
  from_spawn SpawnError.overloaded =
      new 503 ErrorCode.overloaded (lit "too many compiles are in flight; retry shortly")
  from_spawn _ = internal_error

  pub from_render : RenderError → ApiError
  unfolding new unknown_template_error split_list keep bad_request_error from_template from_bundle
      from_store from_spawn internal_error
  from_render (RenderError.unknown_template name available) =
      unknown_template_error texts.debug name
        (keep (λ name. not (is_empty name)) (split_list available))
  from_render RenderError.ambiguous = bad_request_error (texts.render RenderError.ambiguous)
  from_render RenderError.empty = bad_request_error (texts.render RenderError.empty)
  from_render RenderError.overrides_without_template =
      bad_request_error (texts.render RenderError.overrides_without_template)
  from_render (RenderError.duplicate_asset id) =
      new 422 ErrorCode.invalid_bundle (texts.render (RenderError.duplicate_asset id))
  from_render (RenderError.template e) = from_template e
  from_render (RenderError.bundle e) = from_bundle e
  from_render (RenderError.store e) = from_store e
  from_render (RenderError.compile message diagnostics) =
      let base = new 422 ErrorCode.compile_failed message in
      record base { envelope = record base.envelope { diagnostics = diagnostics } }
  from_render (RenderError.spawn e) = from_spawn e
  from_render (RenderError.workspace e) = internal_error
  from_render (RenderError.protocol e) = internal_error

-- `into_response`: the status, the body, and the challenge if it can be a header.
pub into_response : (Str → Bool) → ApiError → ℕ × ErrorEnvelope × Option Str
into_response is_header_value e = (
  e.status,
  e.envelope,
  elim e.challenge [
    | none ↦ none
    | some challenge ↦ if is_header_value challenge then some challenge else none
  ],
)
