-- ===== src/ApiError/Contract/Tests.antt =====
-- The public errors of src/error.rs at concrete failures.
use typst_mcp.Common.{true}
use typst_mcp.Common.Text.{lit}
use typst_mcp.Render.{RenderError}
use typst_mcp.Spawn.{SpawnError}
use typst_mcp.ApiError.{Texts, from_render}
use typst_mcp.ApiError.Contract.{IsReported, from_render-IsReported}

abbrev texts : Texts
texts = record {
  store = λ e. lit "store";
  bundle = λ e. lit "bundle";
  template = λ e. lit "template";
  render = λ e. lit "render";
  debug = λ s. s;
}

abbrev died : RenderError
died = RenderError.spawn (SpawnError.died (lit "signal 9") (lit "/srv/secret"))

from_render-IsReported_example : IsReported true (from_render texts died)
from_render-IsReported_example = from_render-IsReported texts died
