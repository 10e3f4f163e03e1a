-- ===== src/Store/Removal/Consistency.antt =====
-- The index of src/store.rs counts what it holds: the invariant, and removal and eviction keep it.
use typst_mcp.Common.{ℕ, ◌-◌, ◌≡◌, inl, inr, some, arith, if◌then◌else◌, Option-cases}
use typst_mcp.Common.Table
use typst_mcp.Common.Table.{Table, get-insert, get-remove}
use typst_mcp.Common.Table.Weight.{weight, HasUniqueKeys, weight-remove, remove-HasUniqueKeys}
use typst_mcp.Principal.{TenantId}
use typst_mcp.Store.{Entry, EntryKey, tenant_eq, tenant_eq_iff, tenant_key, entry_key, Index}
use typst_mcp.Common.Tests.{unwrap_or}
use typst_mcp.Store.Removal.{lower, remove_entry, remove_from_index}

-- What an entry counts for in total, and for a tenant in bytes and in entries.
abbrev pub bytes_of : EntryKey → Entry → ℕ
bytes_of k e = e.bytes

abbrev pub tenant_bytes : TenantId → EntryKey → Entry → ℕ
tenant_bytes t k e = if tenant_eq k.tenant t then e.bytes else 0

abbrev pub tenant_entries : TenantId → EntryKey → Entry → ℕ
tenant_entries t k e = if tenant_eq k.tenant t then 1 else 0

abbrev pub counter : TenantId → Table TenantId ℕ → ℕ
counter t m = unwrap_or (Table.get t m) 0

-- The counters are the sums over the entries.
pub record IsConsistent (i : Index) : Type 0 where
  pub unique : HasUniqueKeys i.entries
  pub total : i.total ≡ weight bytes_of i.entries
  pub tenants : (t : TenantId) → counter t i.per_tenant ≡ weight (tenant_bytes t) i.entries
  pub counts : (t : TenantId) → counter t i.per_tenant_entries ≡ weight (tenant_entries t) i.entries

counter-lower :
    (k t : TenantId) (n : ℕ) (m : Table TenantId ℕ)
    → counter t (lower k n m (Table.get k m))
      ≡ (if tenant_eq k t then counter t m - n else counter t m)
unfolding lower
counter-lower k t n m = elim (Option-cases (Table.get k m)) [
  | inl e ↦ rw e (ground (arith, e, tenant_eq_iff k t))
  | inr (u, e) ↦
      rw e (ground (arith, e, tenant_eq_iff k t, get-remove k t m, get-insert k t (u - n) m))
]

remove_entry-IsConsistent :
    (i : Index) (k : EntryKey) (e : Entry)
    → Table.get k i.entries ≡ some e
    → IsConsistent i
    → IsConsistent (remove_entry i k (some e))
unfolding remove_entry
remove_entry-IsConsistent i k e found c = record {
  unique = remove-HasUniqueKeys k i.entries c.unique;
  total = omega (arith, c.total, rw found at (weight-remove bytes_of k i.entries c.unique));
  tenants = λ t.
      let w = rw found at (weight-remove (tenant_bytes t) k i.entries c.unique) in
      ground (arith, w, counter-lower k.tenant t e.bytes i.per_tenant, c.tenants t);
  counts = λ t.
      let w = rw found at (weight-remove (tenant_entries t) k i.entries c.unique) in
      ground (arith, w, counter-lower k.tenant t 1 i.per_tenant_entries, c.counts t);
}

pub remove_from_index-IsConsistent :
    (i : Index) (k : EntryKey) → IsConsistent i → IsConsistent (remove_from_index i k)
unfolding remove_from_index
remove_from_index-IsConsistent i k c = elim (Option-cases (Table.get k i.entries)) [
  | inl e ↦ rw e c
  | inr (entry, e) ↦ rw e (remove_entry-IsConsistent i k entry e c)
]
