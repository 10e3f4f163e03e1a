-- ===== src/ApiError/Contract.antt =====
-- What the errors of failed renders (src/error.rs) keep.
mod Tests
use typst_mcp.Common.{
  ℕ, zero, suc, ◌+◌, ◌-◌, ◌*◌, ◌/◌, ◌%◌, ◌^◌, ◌≤◌, ◌<◌, ◌≡◌, refl, sym, ap, ◌∙◌, ◌≢◌, ◌↔◌, ◌⊎◌, inl,
  inr, Bool, true, false, ◌&&◌, ◌||◌, Option, none, some, List, [], ◌∷◌, ◌++◌, map, arith, ltb, leb,
  ◌==◌, if◌then◌else◌, not, Bool-cases, Option-cases, is_some, is_none, length, All, any, all, sum,
  Has, Has-All, AreDistinct, take, drop, get_or, Result, ok, err, ◌>>=◌, ok_or, map_err, bind-eq-ok,
  map_err-eq-ok, Result-cases, if-cases, unwrap_or,
}
use typst_mcp.Common.Text.{Str, lit}
use typst_mcp.Auth.{
  AuthError, missing, malformed, rejected, unavailable, provider_unavailable, status,
}
use typst_mcp.Bundle.{BundleError}
use typst_mcp.Diagnostics.{Diagnostic}
use typst_mcp.Render.{RenderError, diagnostics_of}
use typst_mcp.Spawn.{SpawnError}
use typst_mcp.Store.{StoreError}
use typst_mcp.Templates.{TemplateError}
use typst_mcp.ApiError.{
  ErrorCode, ErrorEnvelope, ApiError, new, bad_request_error, not_found_error, expired_error,
  unknown_template_error, auth_error, internal_error, Texts, from_store, from_bundle, from_template,
  from_spawn, from_render,
}

-- The status of each category.
abbrev pub status_for : ErrorCode → ℕ
status_for ErrorCode.bad_request = 400
status_for ErrorCode.unauthorized = 401
status_for ErrorCode.forbidden = 403
status_for ErrorCode.provider_unavailable = 503
status_for ErrorCode.unknown_template = 404
status_for ErrorCode.not_found = 404
status_for ErrorCode.expired = 410
status_for ErrorCode.payload_too_large = 413
status_for ErrorCode.invalid_path = 400
status_for ErrorCode.invalid_bundle = 422
status_for ErrorCode.invalid_data = 422
status_for ErrorCode.compile_failed = 422
status_for ErrorCode.timeout = 504
status_for ErrorCode.overloaded = 503
status_for ErrorCode.quota_exceeded = 507
status_for ErrorCode.internal = 500

-- What an error shows of a failure, and what it hides: an internal one tells nothing but that.
abbrev pub Shows : Bool → ApiError → Type 0
Shows true e = e ≡ internal_error
Shows false e = e.envelope.error ≢ ErrorCode.internal

-- The contract of an error that is no matter of credentials: the status is that of the category, it is
-- the fixed internal error if the failure is to be hidden and of another category if not, and it carries no
-- challenge.
pub record IsReported (hidden : Bool) (e : ApiError) : Type 0 where
  pub failed : e.envelope.is_ok ≡ false
  pub status : e.status ≡ status_for e.envelope.error
  pub shown : Shows hidden e
  pub unchallenged : e.challenge ≡ none

-- The failures that are the server's own: of its disk, of its worker and of what passes between the
-- two.
abbrev pub is_store_internal : StoreError → Bool
is_store_internal StoreError.io = true
is_store_internal _ = false

abbrev pub is_template_internal : TemplateError → Bool
is_template_internal (TemplateError.io path source) = true
is_template_internal _ = false

abbrev pub is_spawn_internal : SpawnError → Bool
is_spawn_internal (SpawnError.died exit stderr) = true
is_spawn_internal (SpawnError.io m) = true
is_spawn_internal _ = false

abbrev pub is_internal : RenderError → Bool
is_internal (RenderError.store e) = is_store_internal e
is_internal (RenderError.template e) = is_template_internal e
is_internal (RenderError.spawn e) = is_spawn_internal e
is_internal (RenderError.workspace e) = true
is_internal (RenderError.protocol e) = true
is_internal _ = false

new-IsReported :
    (code : ErrorCode) (message : Str)
    → code ≢ ErrorCode.internal
    → IsReported false (new (status_for code) code message)
unfolding new
new-IsReported code message n = record {
  failed = refl;
  status = refl;
  shown = n;
  unchallenged = refl;
}

internal_error-IsReported : IsReported true internal_error
unfolding internal_error new
internal_error-IsReported = record {
  failed = refl;
  status = refl;
  shown = refl;
  unchallenged = refl;
}

from_store-IsReported :
    (texts : Texts) (e : StoreError) → IsReported (is_store_internal e) (from_store texts e)
unfolding from_store expired_error not_found_error
from_store-IsReported texts (StoreError.expired kind id) =
    new-IsReported ErrorCode.expired _ (λ e. cc)
from_store-IsReported texts (StoreError.not_found kind id) =
    new-IsReported ErrorCode.not_found _ (λ e. cc)
from_store-IsReported texts (StoreError.bad_id kind id) =
    new-IsReported ErrorCode.not_found _ (λ e. cc)
from_store-IsReported texts (StoreError.tenant_full size limit) =
    new-IsReported ErrorCode.quota_exceeded _ (λ e. cc)
from_store-IsReported texts (StoreError.tenant_entries_full limit) =
    new-IsReported ErrorCode.quota_exceeded _ (λ e. cc)
from_store-IsReported texts StoreError.io = internal_error-IsReported

payload_too_large-IsReported :
    (message : Str) → IsReported false (new 413 ErrorCode.payload_too_large message)
payload_too_large-IsReported message = new-IsReported ErrorCode.payload_too_large message (λ e. cc)

invalid_bundle-IsReported :
    (message : Str) → IsReported false (new 422 ErrorCode.invalid_bundle message)
invalid_bundle-IsReported message = new-IsReported ErrorCode.invalid_bundle message (λ e. cc)

invalid_data-IsReported :
    (message : Str) → IsReported false (new 422 ErrorCode.invalid_data message)
invalid_data-IsReported message = new-IsReported ErrorCode.invalid_data message (λ e. cc)

from_bundle-IsReported : (texts : Texts) (e : BundleError) → IsReported false (from_bundle texts e)
unfolding from_bundle
from_bundle-IsReported texts (BundleError.too_many_files n) = payload_too_large-IsReported _
from_bundle-IsReported texts (BundleError.too_large actual limit) = payload_too_large-IsReported _
from_bundle-IsReported texts (BundleError.bad_path raw source) = invalid_bundle-IsReported _
from_bundle-IsReported texts (BundleError.duplicate path) = invalid_bundle-IsReported _
from_bundle-IsReported texts (BundleError.missing_main path) = invalid_bundle-IsReported _

from_template-IsReported :
    (texts : Texts) (e : TemplateError)
    → IsReported (is_template_internal e) (from_template texts e)
unfolding from_template
from_template-IsReported texts (TemplateError.bundle e) = from_bundle-IsReported texts e
from_template-IsReported texts (TemplateError.schema_violation m) = invalid_data-IsReported _
from_template-IsReported texts (TemplateError.bad_arg f m) = invalid_data-IsReported _
from_template-IsReported texts (TemplateError.wrong_kind n k m) = invalid_data-IsReported _
from_template-IsReported texts (TemplateError.value e) = invalid_data-IsReported _
from_template-IsReported texts (TemplateError.io path source) = internal_error-IsReported
from_template-IsReported texts (TemplateError.no_manifest p) = invalid_bundle-IsReported _
from_template-IsReported texts (TemplateError.bad_manifest p s) = invalid_bundle-IsReported _
from_template-IsReported texts (TemplateError.missing_entrypoint n p) = invalid_bundle-IsReported _
from_template-IsReported texts (TemplateError.no_wrapper_fn n) = invalid_bundle-IsReported _
from_template-IsReported texts (TemplateError.bad_wrapper_fn n v) = invalid_bundle-IsReported _
from_template-IsReported texts (TemplateError.reserved_name n) = invalid_bundle-IsReported _
from_template-IsReported texts (TemplateError.unknown_override p) = invalid_bundle-IsReported _
from_template-IsReported texts (TemplateError.non_text_metadata p) = invalid_bundle-IsReported _
from_template-IsReported texts (TemplateError.name_mismatch r m) = invalid_bundle-IsReported _
from_template-IsReported texts (TemplateError.non_file_member p) = invalid_bundle-IsReported _
from_template-IsReported texts (TemplateError.bad_archive m) = invalid_bundle-IsReported _
from_template-IsReported texts (TemplateError.bad_path n p s) = invalid_bundle-IsReported _
from_template-IsReported texts (TemplateError.bad_schema p m) = invalid_bundle-IsReported _

from_spawn-IsReported :
    (texts : Texts) (e : SpawnError) → IsReported (is_spawn_internal e) (from_spawn texts e)
unfolding from_spawn
from_spawn-IsReported texts (SpawnError.timeout after) =
    new-IsReported ErrorCode.timeout _ (λ e. cc)
from_spawn-IsReported texts SpawnError.overloaded = new-IsReported ErrorCode.overloaded _ (λ e. cc)
from_spawn-IsReported texts (SpawnError.died exit stderr) = internal_error-IsReported
from_spawn-IsReported texts (SpawnError.io m) = internal_error-IsReported

unknown_template_error-IsReported :
    (debug : Str → Str) (name : Str) (available : List Str)
    → IsReported false (unknown_template_error debug name available)
unfolding unknown_template_error new
unknown_template_error-IsReported debug name available = record {
  failed = refl;
  status = refl;
  shown = λ e. cc;
  unchallenged = refl;
}

bad_request_error-IsReported : (message : Str) → IsReported false (bad_request_error message)
unfolding bad_request_error
bad_request_error-IsReported message = new-IsReported ErrorCode.bad_request message (λ e. cc)

-- Every failed render is reported: its status is that of its category; a failure of the server's own
-- disk, of its worker, or of what passes between the two is the same fixed internal error whatever went wrong, so
-- that no path, no output of the worker and no other detail is in it; every other failure is of
-- another category; and no error carries a challenge.
pub from_render-IsReported :
    (texts : Texts) (e : RenderError) → IsReported (is_internal e) (from_render texts e)
unfolding from_render new
from_render-IsReported texts (RenderError.unknown_template name available) =
    unknown_template_error-IsReported texts.debug name _
from_render-IsReported texts RenderError.ambiguous = bad_request_error-IsReported _
from_render-IsReported texts RenderError.empty = bad_request_error-IsReported _
from_render-IsReported texts RenderError.overrides_without_template = bad_request_error-IsReported _
from_render-IsReported texts (RenderError.duplicate_asset id) = invalid_bundle-IsReported _
from_render-IsReported texts (RenderError.template e) = from_template-IsReported texts e
from_render-IsReported texts (RenderError.bundle e) = from_bundle-IsReported texts e
from_render-IsReported texts (RenderError.store e) = from_store-IsReported texts e
from_render-IsReported texts (RenderError.compile m d) = record {
  failed = refl;
  status = refl;
  shown = λ e. cc;
  unchallenged = refl;
}
from_render-IsReported texts (RenderError.spawn e) = from_spawn-IsReported texts e
from_render-IsReported texts (RenderError.workspace e) = internal_error-IsReported
from_render-IsReported texts (RenderError.protocol e) = internal_error-IsReported
