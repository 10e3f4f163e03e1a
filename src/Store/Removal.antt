-- ===== src/Store/Removal.antt =====
-- Removal from the index and eviction (src/store.rs).
pub mod Consistency
pub mod Oldest
pub mod Dropping
pub mod Eviction
pub mod Disk
use typst_mcp.Common.{
  ℕ, zero, suc, ◌+◌, ◌-◌, ◌*◌, ◌/◌, ◌%◌, ◌^◌, ◌≤◌, ◌<◌, ◌≡◌, refl, sym, ap, ◌∙◌, ◌≢◌, ◌↔◌, ◌⊎◌, inl,
  inr, Bool, true, false, ◌&&◌, ◌||◌, Option, none, some, List, [], ◌∷◌, ◌++◌, map, arith, ltb, leb,
  ◌==◌, if◌then◌else◌, not, Bool-cases, Option-cases, is_some, is_none, length, All, any, all, sum,
  Has, Has-All, AreDistinct, take, drop, get_or, Result, ok, err, ◌>>=◌, ok_or, map_err, bind-eq-ok,
  map_err-eq-ok,
}
use typst_mcp.Common.Table
use typst_mcp.Common.Table.{Table}
use typst_mcp.Principal.{TenantId}
use typst_mcp.Store.{
  Limits, Entry, EntryKey, tenant_key, entry_key, Index, Store, Dir, Files, Leftover,
}
use typst_mcp.Store.Dirs.{dir_key}
use typst_mcp.Store.Ids.{key_dir}

-- What is left under a tenant's counter: the tenant is dropped at zero.
lower : TenantId → ℕ → Table TenantId ℕ → Option ℕ → Table TenantId ℕ
lower t n m none = m
lower t n m (some used) = if used - n == 0 then Table.remove t m else Table.insert t (used - n) m

remove_entry : Index → EntryKey → Option Entry → Index
remove_entry index k none = index
remove_entry index k (some entry) = record {
  entries = Table.remove k index.entries;
  total = index.total - entry.bytes;
  per_tenant = lower k.tenant entry.bytes index.per_tenant (Table.get k.tenant index.per_tenant);
  per_tenant_entries =
      lower k.tenant 1 index.per_tenant_entries (Table.get k.tenant index.per_tenant_entries);
}

-- `remove_from_index`; `saturating_sub` is the subtraction of natural numbers.
pub remove_from_index : Index → EntryKey → Index
unfolding remove_entry lower
remove_from_index index k = remove_entry index k (Table.get k index.entries)

-- `min_by_key` over `created_at`: the first of the oldest entries, in the map's order.
oldest_from : EntryKey → Entry → Table EntryKey Entry → EntryKey
oldest_from k e [] = k
oldest_from k e ((k', e') ∷ m) =
    let stay = oldest_from k e m in
    let move = oldest_from k' e' m in if ltb e'.created_at e.created_at then move else stay

pub oldest : Table EntryKey Entry → Option EntryKey
unfolding oldest_from
oldest [] = none
oldest ((k, e) ∷ m) = some (oldest_from k e m)

unfoldable pub is_over : Limits → Index → Bool
is_over limits index =
    ltb limits.max_store_bytes index.total || ltb limits.max_store_entries (length index.entries)

-- `remove_dir_all`, whose failure is ignored.
pub remove_dir : Leftover → Dir → Table Dir Files → Option Files → Table Dir Files
remove_dir leftover d disk none = disk
remove_dir leftover d disk (some files) = elim (leftover d files) [
  | none ↦ Table.remove d disk
  | some left ↦ Table.insert d left disk
]

-- `remove_dir_all` and the removal from the index, as eviction, `remove` and `delete` do them.
pub drop_entry : Store → EntryKey → Store
unfolding remove_dir
drop_entry s k = record s {
  disk = remove_dir s.leftover (key_dir s.root k) s.disk (Table.get (key_dir s.root k) s.disk);
  index = remove_from_index s.index k;
}

pub evict_one : Store → EntryKey → Store
unfolding drop_entry
evict_one s k =
    let dropped = drop_entry s k in record dropped { quota_evictions = s.quota_evictions + 1 }

-- `evict_locked`. Each round removes an entry, so that the number of entries is fuel enough.
unfoldable pub evict : ℕ → Store → Store
unfolding is_over evict_one oldest
evict zero s = s
evict (suc fuel) s =
    if is_over s.limits s.index
    then elim (oldest s.index.entries) [ none ↦ s | some k ↦ evict fuel (evict_one s k) ]
    else s

unfoldable pub evict_locked : Store → Store
unfolding evict
evict_locked s = evict (length s.index.entries) s
