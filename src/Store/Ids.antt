-- ===== src/Store/Ids.antt =====
-- Ids, file names and paths of src/store.rs.
pub mod Laws
use typst_mcp.Common.{
  ℕ, zero, suc, ◌+◌, ◌-◌, ◌*◌, ◌/◌, ◌%◌, ◌^◌, ◌≤◌, ◌<◌, ◌≡◌, refl, sym, ap, ◌∙◌, ◌≢◌, ◌↔◌, ◌⊎◌, inl,
  inr, Bool, true, false, ◌&&◌, ◌||◌, Option, none, some, List, [], ◌∷◌, ◌++◌, map, arith, ltb, leb,
  ◌==◌, if◌then◌else◌, not, Bool-cases, Option-cases, is_some, is_none, length, All, any, all, sum,
  Has, Has-All, AreDistinct, take, drop, get_or, Result, ok, err, ◌>>=◌, ok_or, map_err, bind-eq-ok,
  map_err-eq-ok,
}
use typst_mcp.Common.Text.{
  Str, lit, bytes, len, strip_prefix, is_ascii_alphanumeric, starts_with_char, is_empty, str_eq,
  split,
}
use typst_mcp.Principal.{TenantId}
use typst_mcp.Store.{Kind, output, asset, template, StoreError, bad_id, Dir, EntryKey}

-- `Kind::dir` and `Kind::prefix`.
unfoldable pub dir : Kind → Str
dir output = lit "out"
dir asset = lit "assets"
dir template = lit "tpl"

unfoldable pub prefix : Kind → Str
prefix output = lit "job_"
prefix asset = lit "ast_"
prefix template = lit "tpl_"

-- `new_id`; a ULID is 26 letters and digits.
pub new_id : Kind → Str → Str
new_id kind ulid = prefix kind ++ ulid

unfoldable pub is_ulid_shape : Str → Bool
is_ulid_shape body = len body == 26 && all is_ascii_alphanumeric (bytes body)

-- `validate_id`.
unfoldable pub validate_id : Kind → Str → Result Str StoreError
unfolding is_ulid_shape prefix
validate_id kind id = do
  body ← ok_or (strip_prefix (prefix kind) id) (bad_id kind id)
  if is_ulid_shape body then ok id else err (bad_id kind id)

-- A character that `safe_name` keeps.
unfoldable pub is_safe : ℕ → Bool
is_safe c = is_ascii_alphanumeric c || c == b'.' || c == b'-' || c == b'_'

unfoldable pub clean : Str → Str
clean [] = []
clean (c ∷ s) = if is_safe c then c ∷ clean s else clean s

-- `safe_name`.
unfoldable pub safe_name : Str → Str
unfolding clean is_safe
safe_name name =
    let cleaned = clean name in
    if is_empty cleaned || starts_with_char b'.' cleaned then lit "file" else cleaned

-- The components of a text between its slashes: empty ones and single dots are none.
unfoldable pub components : List Str → Dir
components [] = []
components (s ∷ ss) =
    let rest = components ss in if is_empty s || str_eq s (lit ".") then rest else s ∷ rest

-- `Path::join`: an absolute path takes the place of the one that it is joined to.
unfoldable pub join_path : Dir → Str → Dir
unfolding components
join_path base path =
    let parts = components (split b'/' path) in
    if starts_with_char b'/' path then lit "/" ∷ parts else base ++ parts

-- `Store::entry_dir`.
unfoldable pub entry_dir : Dir → TenantId → Kind → Str → Dir
unfolding dir join_path
entry_dir root tenant kind id =
    join_path (join_path (join_path root (lit "t_" ++ tenant.text)) (dir kind)) id

abbrev pub key_dir : Dir → EntryKey → Dir
key_dir root k = entry_dir root k.tenant k.kind k.id
