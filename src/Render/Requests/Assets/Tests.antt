-- ===== src/Render/Requests/Assets/Tests.antt =====
-- Loading one asset (src/render.rs) from a store that has it.
use typst_mcp.Common.{
  ◌≤◌, ◌≡◌, refl, Bool, false, none, some, List, [], ◌∷◌, arith, length, any, all, ok,
}
use typst_mcp.Common.Text.{Str, lit, len, bytes, utf8, str_eq, strip_prefix, split}
use typst_mcp.Common.Table
use typst_mcp.Bundle.{max_files, binary, BundleFile}
use typst_mcp.Principal.{TenantId}
use typst_mcp.Store.{asset, Entry, Store, tenant_eq, key_eq}
use typst_mcp.Store.Ids.{
  validate_id, is_ulid_shape, prefix, safe_name, clean, is_safe, entry_dir, join_path, components,
  dir,
}
use typst_mcp.Store.Dirs.{dir_eq}
use typst_mcp.Store.Operations
use typst_mcp.Store.Operations.{entry, check_live, read_file, files_at}
use typst_mcp.Render.Requests.{contains, preflight, read_assets, load_assets}
use typst_mcp.Render.Requests.Assets.{ArePreflighted, load_assets-ArePreflighted}

abbrev tenant : TenantId
tenant = record { text = lit "abcdefghijklmnop" }

abbrev logo_id : Str
logo_id = lit "ast_01ARZ3NDEKTSV4RRFFQ69G5FAV"

abbrev logo : Entry
logo = record {
  id = logo_id;
  kind = asset;
  bytes = 3;
  created_at = 100;
  expires_at = 500;
  filename = some (lit "logo.png");
  content_type = none;
  asset_role = none;
}

abbrev store : Store
store = record {
  root = lit "data" ∷ [];
  limits = record {
    output_ttl = 10;
    asset_ttl = 400;
    template_ttl = 10;
    max_tenant_bytes = 100;
    max_store_bytes = 100;
    max_tenant_entries = 10;
    max_store_entries = 10;
  };
  index = record {
    entries = (record { tenant = tenant; kind = asset; id = logo_id }, logo) ∷ [];
    per_tenant = (tenant, 3) ∷ [];
    per_tenant_entries = (tenant, 1) ∷ [];
    total = 3;
  };
  disk =
      (
        lit "data" ∷ lit "t_abcdefghijklmnop" ∷ lit "assets" ∷ logo_id ∷ [],
        (lit "logo.png", 1 ∷ 2 ∷ 3 ∷ []) ∷ [],
      )
      ∷ [];
  leftover = λ d files. none;
  expired_evictions = 0;
  quota_evictions = 0;
}

abbrev readable : Str → Bool
readable id = false

abbrev files : List BundleFile
files = record { path = lit "logo.png"; content = binary (1 ∷ 2 ∷ 3 ∷ []) } ∷ []

logo_loaded : load_assets store 200 readable tenant 1000 (logo_id ∷ []) ≡ ok files
unfolding load_assets preflight contains read_assets entry check_live Operations.get validate_id
    is_ulid_shape prefix safe_name clean is_safe entry_dir join_path components split dir read_file
    files_at dir_eq tenant_eq key_eq Table.get len bytes utf8 str_eq strip_prefix all any
logo_loaded = refl

load_assets-ArePreflighted_example :
    (length (logo_id ∷ []) ≤ max_files)
    × (length files ≡ length (logo_id ∷ []))
    × ((entries : List (Str × Entry)) × ArePreflighted store 200 tenant 1000 (logo_id ∷ []) entries)
load_assets-ArePreflighted_example =
    load_assets-ArePreflighted store 200 tenant 1000 readable (logo_id ∷ []) files (omega arith)
      logo_loaded
