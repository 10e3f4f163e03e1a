-- ===== src/Store/Operations/Puts.antt =====
-- The invariant of the store (src/store.rs), and `put_with_id` keeps it.
use typst_mcp.Common.{
  ℕ, ◌+◌, ◌-◌, ◌%◌, ◌≤◌, ◌<◌, ◌≡◌, refl, inl, inr, Bool, false, ◌&&◌, ◌||◌, List, arith, ltb, leb,
  if◌then◌else◌, Bool-cases, Option-cases, is_some, is_none, length, Result,
}
use typst_mcp.Common.Text.{Str}
use typst_mcp.Common.Text.Decimal.{u64_mod}
use typst_mcp.Common.{unwrap_or, Result-cases}
use typst_mcp.Store.Ids.{validate_id, safe_name, key_dir}
use typst_mcp.Common.Table
use typst_mcp.Common.Table.{Table, get-insert}
use typst_mcp.Common.Table.Weight.{weight_at, weight-insert, insert-HasUniqueKeys, weight_at-le}
use typst_mcp.Principal.{TenantId}
use typst_mcp.Store.{
  Kind, Limits, StoreError, Meta, Entry, EntryKey, tenant_eq, tenant_eq_iff, tenant_key, entry_key,
  Index, Store, Dir, Files,
}
use typst_mcp.Store.Removal.{evict_locked}
use typst_mcp.Store.Removal.Consistency.{
  IsConsistent, bytes_of, tenant_bytes, tenant_entries, counter,
}
use typst_mcp.Store.Removal.Eviction.{IsWithin, evict_locked-IsEvicted}
use typst_mcp.Store.Operations.{
  create_dir, read_file, Faults, saturating_add, put_entry, add_to, record_put, write_entry,
  put_checked, put_with_id,
}

-- The limits leave room in 64 bits for what one tenant may add before an eviction.
pub record IsSane (l : Limits) : Type 0 where
  pub bytes : l.max_store_bytes + l.max_tenant_bytes < u64_mod - 1
  pub entries : l.max_tenant_entries < u64_mod - 1

-- The counters are right, and every ceiling is respected.
pub record IsValid (s : Store) : Type 0 where
  pub consistent : IsConsistent s.index
  pub within : IsWithin s.limits s.index
  pub tenants : (t : TenantId) → counter t s.index.per_tenant ≤ s.limits.max_tenant_bytes
  pub counts : (t : TenantId) → counter t s.index.per_tenant_entries ≤ s.limits.max_tenant_entries

counter-add_to :
    (k t : TenantId) (n : ℕ) (m : Table TenantId ℕ)
    → counter k m + n < u64_mod
    → counter t (add_to k n m) ≡ (if tenant_eq k t then counter t m + n else counter t m)
unfolding add_to
counter-add_to k t n m h =
    ground
      (arith, tenant_eq_iff k t, get-insert k t ((unwrap_or (Table.get k m) 0 + n) % u64_mod) m)

-- What is new under a key is counted once.
pub record_put-IsConsistent :
    (i : Index) (k : EntryKey) (e : Entry) (size : ℕ)
    → IsConsistent i
    → i.total + size < u64_mod
    → counter k.tenant i.per_tenant + size < u64_mod
    → counter k.tenant i.per_tenant_entries + 1 < u64_mod
    → e.bytes ≡ weight_at bytes_of k (Table.get k i.entries) + size
    → IsConsistent (record_put i k e size (is_none (Table.get k i.entries)))
unfolding record_put
record_put-IsConsistent i k e size c room tenant_room count_room grown = record {
  unique = insert-HasUniqueKeys k e i.entries c.unique;
  total = omega (arith, c.total, weight-insert bytes_of k e i.entries);
  tenants = λ t. ground (
    arith,
    c.tenants t,
    weight-insert (tenant_bytes t) k e i.entries,
    counter-add_to k.tenant t size i.per_tenant,
  );
  counts = λ t. ground (
    arith,
    c.counts t,
    weight-insert (tenant_entries t) k e i.entries,
    counter-add_to k.tenant t 1 i.per_tenant_entries,
  );
}

-- Counters that are right and within the tenants' ceilings make a valid store once evicted.
evict_locked-IsValid :
    (s : Store)
    → IsConsistent s.index
    → ((t : TenantId) → counter t s.index.per_tenant ≤ s.limits.max_tenant_bytes)
    → ((t : TenantId) → counter t s.index.per_tenant_entries ≤ s.limits.max_tenant_entries)
    → IsValid (evict_locked s)
evict_locked-IsValid s c b n =
    let v = evict_locked-IsEvicted s c in
    let same = v.limits in
    record {
      consistent = v.consistent;
      within = rw same v.within;
      tenants = λ t.
          rw same
            (omega (arith, v.consistent.tenants t, v.weights (tenant_bytes t), c.tenants t, b t));
      counts = λ t.
          rw same
            (omega (arith, v.consistent.counts t, v.weights (tenant_entries t), c.counts t, n t));
    }

-- The growth of the index is within the tenants' ceilings where the two guards let it pass.
record_put-counters :
    (l : Limits) (i : Index) (k : EntryKey) (e : Entry) (size : ℕ) (is_new : Bool) (t : TenantId)
    → IsSane l
    → counter k.tenant i.per_tenant + size ≤ l.max_tenant_bytes
    → (is_new && leb l.max_tenant_entries (counter k.tenant i.per_tenant_entries)) ≡ false
    → counter t i.per_tenant ≤ l.max_tenant_bytes
    → counter t i.per_tenant_entries ≤ l.max_tenant_entries
    → (counter t (record_put i k e size is_new).per_tenant ≤ l.max_tenant_bytes)
      × (counter t (record_put i k e size is_new).per_tenant_entries ≤ l.max_tenant_entries)
unfolding record_put
record_put-counters l i k e size is_new t sane room free b n = (
  ground (arith, sane.bytes, counter-add_to k.tenant t size i.per_tenant, tenant_eq_iff k.tenant t),
  ground (
    arith,
    sane.entries,
    counter-add_to k.tenant t 1 i.per_tenant_entries,
    tenant_eq_iff k.tenant t,
  ),
)

IsValid-disk : (s : Store) (disk : Table Dir Files) → IsValid s → IsValid (record s { disk = disk })
IsValid-disk s disk v = record {
  consistent = v.consistent;
  within = v.within;
  tenants = v.tenants;
  counts = v.counts;
}

-- The entry that is recorded has grown by the size.
pub put_entry-bytes :
    (l : Limits) (now : ℕ) (k : EntryKey) (size : ℕ) (meta : Meta) (i : Index)
    → IsConsistent i
    → i.total + size < u64_mod
    → (put_entry l now k.kind k.id size meta (Table.get k i.entries)).bytes
      ≡ weight_at bytes_of k (Table.get k i.entries) + size
unfolding put_entry
put_entry-bytes l now k size meta i c room = elim (Option-cases (Table.get k i.entries)) [
  | inl e ↦ rw e (omega arith)
  | inr (d, e) ↦
      let small = rw e at (weight_at-le bytes_of k i.entries) in
      rw e (ground (arith, small, c.total))
]

-- The limits do not change.
abbrev KeepsLimits : Store → Result Entry StoreError × Store → Type 0
KeepsLimits s r = r.1.limits ≡ s.limits

module _ (to_json : Entry → List ℕ) (faults : Faults) (now : ℕ) where
  write_entry-limits :
      (s : Store) (k : EntryKey) (name : Str) (bytes : List ℕ) (e : Entry) (is_new : Bool)
      → IsConsistent (record_put s.index k e (length bytes) is_new)
      → KeepsLimits s (write_entry to_json faults now s k name bytes e is_new)
  unfolding write_entry
  write_entry-limits s k name bytes e is_new c =
      let d = key_dir s.root k in
      let blocked = is_some (read_file d name (create_dir d s.disk)) || faults.write in
      elim (Bool-cases faults.mkdir) [
        | inl a ↦ rw a
        | inr a ↦ elim (Bool-cases blocked) [
          | inl b ↦ rw (a, b)
          | inr b ↦ elim (Bool-cases faults.meta) [
            | inl c' ↦ rw (a, b, c')
            | inr c' ↦ rw (a, b, c') (evict_locked-IsEvicted _ c).limits
          ]
        ]
      ]

  write_entry-IsValid :
      (s : Store) (k : EntryKey) (name : Str) (bytes : List ℕ) (e : Entry)
      → let existing = Table.get k s.index.entries in
        IsSane s.limits
        → IsValid s
        → counter k.tenant s.index.per_tenant + length bytes ≤ s.limits.max_tenant_bytes
        → (is_none existing
            && leb s.limits.max_tenant_entries (counter k.tenant s.index.per_tenant_entries))
          ≡ false
        → e.bytes ≡ weight_at bytes_of k existing + length bytes
        → KeepsLimits s (write_entry to_json faults now s k name bytes e (is_none existing))
          × IsValid (write_entry to_json faults now s k name bytes e (is_none existing)).1
  unfolding write_entry
  write_entry-IsValid s k name bytes e sane v room free grown =
      let is_new = is_none (Table.get k s.index.entries) in
      let put_index = record_put s.index k e (length bytes) is_new in
      let counters = λ (t : TenantId).
        record_put-counters s.limits s.index k e (length bytes) is_new t sane room free
          (v.tenants t) (v.counts t) in
      let consistent : IsConsistent put_index =
        record_put-IsConsistent s.index k e (length bytes) v.consistent
          (omega (arith, sane.bytes, v.within.bytes)) (omega (arith, sane.bytes))
          (omega (arith, sane.entries, v.counts k.tenant)) grown in
      let d = key_dir s.root k in
      let blocked = is_some (read_file d name (create_dir d s.disk)) || faults.write in
      let same = write_entry-limits s k name bytes e is_new consistent in
      let valid : IsValid (write_entry to_json faults now s k name bytes e is_new).1 =
        elim (Bool-cases faults.mkdir) [
          | inl a ↦ rw a v
          | inr a ↦ elim (Bool-cases blocked) [
            | inl b ↦ rw (a, b) (IsValid-disk s _ v)
            | inr b ↦ elim (Bool-cases faults.meta) [
              | inl c ↦ rw (a, b, c) (IsValid-disk s _ v)
              | inr c ↦
                  rw (a, b, c)
                    (evict_locked-IsValid _ consistent (λ t. (counters t).0) (λ t. (counters t).1))
            ]
          ]
        ] in
      (same, valid)

  put_checked-IsValid :
      (s : Store) (k : EntryKey) (name : Str) (bytes : List ℕ) (meta : Meta)
      → IsSane s.limits
      → IsValid s
      → KeepsLimits s (put_checked to_json faults now s k name bytes meta)
        × IsValid (put_checked to_json faults now s k name bytes meta).1
  unfolding put_checked
  put_checked-IsValid s k name bytes meta sane v =
      let size = length bytes in
      let used = counter k.tenant s.index.per_tenant in
      let guard = ltb s.limits.max_tenant_bytes (saturating_add used size) in
      let full =
        is_none (Table.get k s.index.entries)
        && leb s.limits.max_tenant_entries (counter k.tenant s.index.per_tenant_entries) in
      elim (Bool-cases guard) [
        | inl e ↦ rw e (refl, v)
        | inr fits ↦
            let room : used + size ≤ s.limits.max_tenant_bytes = ground (arith, sane.bytes) in
            elim (Bool-cases full) [
              | inl e ↦ rw (fits, e) (refl, v)
              | inr free ↦
                  rw (fits, free)
                    (write_entry-IsValid s k (safe_name name) bytes _ sane v room free (
                      put_entry-bytes s.limits now k size meta s.index v.consistent
                        (omega (arith, sane.bytes, v.within.bytes))))
            ]
      ]

  -- Whatever the file system does, a put on a valid store, under limits that leave room in 64 bits,
  -- leaves a valid store under the same limits, also where it fails.
  pub put_with_id-IsValid :
      (s : Store) (tenant : TenantId) (kind : Kind) (id name : Str) (bytes : List ℕ) (meta : Meta)
      → IsSane s.limits
      → IsValid s
      → ((put_with_id to_json faults now s tenant kind id name bytes meta).1.limits ≡ s.limits)
        × IsValid (put_with_id to_json faults now s tenant kind id name bytes meta).1
  unfolding put_with_id
  put_with_id-IsValid s tenant kind id name bytes meta sane v =
      elim (Result-cases (validate_id kind id)) [
        | inr (e, bad) ↦ rw (bad, put_with_id) (refl, v)
        | inl (id', good) ↦ rw (good, put_with_id) (put_checked-IsValid s _ name bytes meta sane v)
      ]
