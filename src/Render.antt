-- ===== src/Render.antt =====
-- src/render.rs: why a render did not produce a document. An error of another package is its text.
pub mod Requests
use typst_mcp.Common.{List, []}
use typst_mcp.Common.Text.{Str}
use typst_mcp.Bundle.{BundleError}
use typst_mcp.Diagnostics.{Diagnostic}
use typst_mcp.Spawn.{SpawnError}
use typst_mcp.Store.{StoreError}
use typst_mcp.Templates.{TemplateError}

pub data RenderError : Type 0 where
  unknown_template : (name available : Str) → RenderError
  ambiguous empty overrides_without_template : RenderError
  duplicate_asset : Str → RenderError
  template : TemplateError → RenderError
  bundle : BundleError → RenderError
  store : StoreError → RenderError
  compile : (message : Str) (diagnostics : List Diagnostic) → RenderError
  spawn : SpawnError → RenderError
  workspace : Str → RenderError
  protocol : Str → RenderError

-- `RenderError::diagnostics`.
pub diagnostics_of : RenderError → List Diagnostic
diagnostics_of (compile message diagnostics) = diagnostics
diagnostics_of _ = []
