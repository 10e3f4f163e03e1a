-- ===== src/Store/Operations.antt =====
-- The operations of `Store` in src/store.rs. An operation that changes the store returns the new one
-- beside its result, on its error paths too.
pub mod Puts
pub mod Runs
pub mod Reaping
pub mod Isolation
pub mod Committed
pub mod Readback
mod Tests
use typst_mcp.Common.{
  ℕ, zero, suc, ◌+◌, ◌-◌, ◌*◌, ◌/◌, ◌%◌, ◌^◌, ◌≤◌, ◌<◌, ◌≡◌, refl, sym, ap, ◌∙◌, ◌≢◌, ◌↔◌, ◌⊎◌, inl,
  inr, Bool, true, false, ◌&&◌, ◌||◌, Option, none, some, List, [], ◌∷◌, ◌++◌, map, arith, ltb, leb,
  ◌==◌, if◌then◌else◌, not, Bool-cases, Option-cases, is_some, is_none, length, All, any, all, sum,
  Has, Has-All, AreDistinct, take, drop, get_or, Result, ok, err, ◌>>=◌, ok_or, map_err, bind-eq-ok,
  map_err-eq-ok,
}
use typst_mcp.Common.Text.{Str, lit, str_eq}
use typst_mcp.Common.Tests.{unwrap_or}
use typst_mcp.Common.Text.Decimal.{u64_mod}
use typst_mcp.Common.Key.{str_key}
use typst_mcp.Common.Table
use typst_mcp.Common.Table.{Table}
use typst_mcp.Common.Table.Sorted.{str_lt}
use typst_mcp.Principal.{TenantId}
use typst_mcp.Store.{
  Kind, kind_eq, Limits, ttl, StoreError, not_found, expired, tenant_full, tenant_entries_full, io,
  Meta, Entry, is_expired, EntryKey, tenant_eq, tenant_key, entry_key, Index, Dir, Files, Store,
}
use typst_mcp.Store.Dirs.{dir_key}
use typst_mcp.Store.Ids.{new_id, validate_id, safe_name, entry_dir, key_dir}
use typst_mcp.Store.Removal.{drop_entry, evict_locked}

-- Which of its calls of the file system fail in one operation.
pub record Faults : Type 0 where
  pub mkdir : Bool
  pub write : Bool
  pub meta : Bool

-- `u64::saturating_add`.
abbrev pub saturating_add : ℕ → ℕ → ℕ
saturating_add a b = if ltb (a + b) u64_mod then a + b else u64_mod - 1

unfoldable pub files_at : Dir → Table Dir Files → Files
files_at d disk = elim (Table.get d disk) [ none ↦ [] | some files ↦ files ]

pub create_dir : Dir → Table Dir Files → Table Dir Files
unfolding files_at
create_dir d disk = Table.insert d (files_at d disk) disk

unfoldable pub read_file : Dir → Str → Table Dir Files → Option (List ℕ)
unfolding files_at
read_file d name disk = Table.get name (files_at d disk)

-- `write_atomic`: a temporary file is renamed into place.
pub write_file : Dir → Str → List ℕ → Table Dir Files → Table Dir Files
unfolding files_at
write_file d name bytes disk = Table.insert d (Table.insert name bytes (files_at d disk)) disk

remove_file : Dir → Str → Table Dir Files → Table Dir Files
unfolding files_at
remove_file d name disk = Table.insert d (Table.remove name (files_at d disk)) disk

-- The entry that a `put` records: an existing one grows and lives longer.
pub put_entry : Limits → ℕ → Kind → Str → ℕ → Meta → Option Entry → Entry
put_entry limits now kind id size meta (some existing) = record existing {
  bytes = saturating_add existing.bytes size;
  expires_at = (now + ttl limits kind) % u64_mod;
}
put_entry limits now kind id size meta none = record {
  id = id;
  kind = kind;
  bytes = size;
  created_at = now;
  expires_at = (now + ttl limits kind) % u64_mod;
  filename = meta.filename;
  content_type = meta.content_type;
  asset_role = meta.asset_role;
}

-- `*map.entry(tenant).or_insert(0) += n`.
pub add_to : TenantId → ℕ → Table TenantId ℕ → Table TenantId ℕ
add_to t n m = Table.insert t ((unwrap_or (Table.get t m) 0 + n) % u64_mod) m

-- The update of the index at the end of `put_with_id`.
pub record_put : Index → EntryKey → Entry → ℕ → Bool → Index
unfolding add_to
record_put index k entry size is_new = record {
  entries = Table.insert k entry index.entries;
  per_tenant = add_to k.tenant size index.per_tenant;
  total = (index.total + size) % u64_mod;
  per_tenant_entries =
      if is_new then add_to k.tenant 1 index.per_tenant_entries else index.per_tenant_entries;
}

module _ (to_json : Entry → List ℕ) (faults : Faults) (now : ℕ) where
  -- The file system part of `put_with_id`, and the commit behind it.
  write_entry : Store → EntryKey → Str → List ℕ → Entry → Bool → Result Entry StoreError × Store
  unfolding create_dir read_file write_file remove_file record_put
  write_entry s k name bytes entry is_new =
      let d = key_dir s.root k in
      let made = record s { disk = create_dir d s.disk } in
      let written = record s { disk = write_file d name bytes made.disk } in
      let undone = record s { disk = remove_file d name written.disk } in
      let committed = record s {
        disk = write_file d (lit "meta.json") (to_json entry) written.disk;
        index = record_put s.index k entry (length bytes) is_new;
      } in
      if faults.mkdir
      then (err io, s)
      else if is_some (read_file d name made.disk) || faults.write
      then (err io, made)
      else if faults.meta
      then (err io, undone)
      else (ok entry, evict_locked committed)

  -- `put_with_id` behind the check of the id.
  put_checked : Store → EntryKey → Str → List ℕ → Meta → Result Entry StoreError × Store
  unfolding write_entry put_entry
  put_checked s k name bytes meta =
      let size = length bytes in
      let existing = Table.get k s.index.entries in
      let used = unwrap_or (Table.get k.tenant s.index.per_tenant) 0 in
      let count = unwrap_or (Table.get k.tenant s.index.per_tenant_entries) 0 in
      let entry = put_entry s.limits now k.kind k.id size meta existing in
      if ltb s.limits.max_tenant_bytes (saturating_add used size)
      then (err (tenant_full size s.limits.max_tenant_bytes), s)
      else if is_none existing && leb s.limits.max_tenant_entries count
      then (err (tenant_entries_full s.limits.max_tenant_entries), s)
      else write_entry s k (safe_name name) bytes entry (is_none existing)

  pub put_with_id :
      Store → TenantId → Kind → Str → Str → List ℕ → Meta → Result Entry StoreError × Store
  unfolding put_checked
  put_with_id s tenant kind id name bytes meta = elim (validate_id kind id) [
    | err e ↦ (err e, s)
    | ok id' ↦ put_checked s (record { tenant = tenant; kind = kind; id = id' }) name bytes meta
  ]

  -- `put`, with the ULID that is drawn.
  pub put : Store → TenantId → Kind → Str → Str → List ℕ → Meta → Result Entry StoreError × Store
  unfolding put_with_id
  put s tenant kind ulid name bytes meta =
      put_with_id s tenant kind (new_id kind ulid) name bytes meta

unfoldable pub check_live : Store → ℕ → EntryKey → Result Entry StoreError
check_live s now k = do
  entry ← ok_or (Table.get k s.index.entries) (not_found k.kind k.id)
  if is_expired entry now then err (expired k.kind k.id) else ok entry

-- `get`; the file system may fail to read.
unfoldable pub get : Store → ℕ → Bool → TenantId → Kind → Str → Str → Result (List ℕ) StoreError
unfolding check_live
get s now read_fails tenant kind id name = do
  id' ← validate_id kind id
  _ ← check_live s now (record { tenant = tenant; kind = kind; id = id' })
  if read_fails
      then err io
      else ok_or (read_file (entry_dir s.root tenant kind id') (safe_name name) s.disk)
          (not_found kind id')

unfoldable pub entry : Store → ℕ → TenantId → Kind → Str → Result Entry StoreError
unfolding check_live
entry s now tenant kind id = do
  id' ← validate_id kind id
  check_live s now (record { tenant = tenant; kind = kind; id = id' })

-- The order of `list`: newest first, then by id.
pub comes_before : Entry → Entry → Bool
comes_before a b = ltb b.created_at a.created_at || a.created_at == b.created_at && str_lt a.id b.id

insert_sorted : Entry → List Entry → List Entry
unfolding comes_before
insert_sorted e [] = e ∷ []
insert_sorted e (x ∷ xs) = if comes_before x e then x ∷ insert_sorted e xs else e ∷ x ∷ xs

-- `sort_by`, a stable sort.
pub sort_entries : List Entry → List Entry
unfolding insert_sorted
sort_entries [] = []
sort_entries (e ∷ es) = insert_sorted e (sort_entries es)

pub is_listed : TenantId → Kind → ℕ → EntryKey → Entry → Bool
is_listed tenant kind now k e =
    tenant_eq k.tenant tenant && kind_eq k.kind kind && not (is_expired e now)

pub listed : TenantId → Kind → ℕ → Table EntryKey Entry → List Entry
unfolding is_listed
listed tenant kind now [] = []
listed tenant kind now ((k, e) ∷ m) =
    let rest = listed tenant kind now m in if is_listed tenant kind now k e then e ∷ rest else rest

pub list : Store → ℕ → TenantId → Kind → List Entry
unfolding sort_entries listed
list s now tenant kind = sort_entries (listed tenant kind now s.index.entries)

remove_live : Store → EntryKey → Result Entry StoreError → Result Entry StoreError × Store
remove_live s k (err e) = (err e, s)
remove_live s k (ok entry) = (ok entry, drop_entry s k)

pub delete : Store → ℕ → TenantId → Kind → Str → Result Entry StoreError × Store
unfolding remove_live check_live
delete s now tenant kind id = elim (validate_id kind id) [
  | err e ↦ (err e, s)
  | ok id' ↦
      let k : EntryKey = record { tenant = tenant; kind = kind; id = id' } in
      remove_live s k (check_live s now k)
]

-- The first half of `reap`, under the lock: the keys that have expired.
pub expired_keys : ℕ → Table EntryKey Entry → List EntryKey
expired_keys now [] = []
expired_keys now ((k, e) ∷ m) =
    let rest = expired_keys now m in if is_expired e now then k ∷ rest else rest

-- The second half: each key is removed by itself.
pub drop_all : List EntryKey → Store → Store
drop_all [] s = s
drop_all (k ∷ ks) s = drop_all ks (drop_entry s k)

pub reap : Store → ℕ → ℕ × Store
unfolding expired_keys drop_all
reap s now =
    let keys = expired_keys now s.index.entries in
    let dropped = drop_all keys s in
    (
      length keys,
      record dropped { expired_evictions = (s.expired_evictions + length keys) % u64_mod },
    )
