-- ===== src/Store/Operations/Committed.antt =====
-- What a put that returns an entry (src/store.rs) has written, before its eviction.
use typst_mcp.Common.{
  ℕ, ◌+◌, ◌≤◌, ◌<◌, ◌≡◌, refl, sym, ap, ◌∙◌, inl, inr, ◌&&◌, ◌||◌, List, arith, ltb, leb,
  Bool-cases, is_some, is_none, length, ok, Result-cases,
}
use typst_mcp.Common.Text.{Str, lit}
use typst_mcp.Common.Text.Decimal.{u64_mod}
use typst_mcp.Common.Key.{str_key}
use typst_mcp.Common.Table
use typst_mcp.Common.Table.{Table, get-insert}
use typst_mcp.Principal.{TenantId}
use typst_mcp.Store.{Kind, Meta, Entry, EntryKey, tenant_key, entry_key, Store}
use typst_mcp.Store.Dirs.{dir_key}
use typst_mcp.Store.Ids.{validate_id, safe_name, key_dir}
use typst_mcp.Store.Ids.Laws.{validate_id-IsSegment}
use typst_mcp.Store.Removal.{evict_locked}
use typst_mcp.Store.Removal.Consistency.{IsConsistent, counter}
use typst_mcp.Store.Operations.{
  Faults, saturating_add, record_put, put_entry, create_dir, read_file, write_file, write_entry,
  put_checked, put_with_id,
}
use typst_mcp.Store.Operations.Puts.{IsSane, IsValid, record_put-IsConsistent, put_entry-bytes}

module _ (to_json : Entry → List ℕ) (faults : Faults) (now : ℕ) where
  -- The store of a put that has written its files, before eviction.
  abbrev pub committed : Store → EntryKey → Str → List ℕ → Entry → Store
  committed s k name bytes e =
      let d = key_dir s.root k in
      record s {
        disk =
            write_file d (lit "meta.json") (to_json e)
              (write_file d name bytes (create_dir d s.disk));
        index = record_put s.index k e (length bytes) (is_none (Table.get k s.index.entries));
      }

  write_entry-eq-ok :
      (s : Store) (k : EntryKey) (name : Str) (bytes : List ℕ) (d e : Entry)
      → let r =
          write_entry to_json faults now s k name bytes d (is_none (Table.get k s.index.entries)) in
        r.0 ≡ ok e → (d ≡ e) × (r.1 ≡ evict_locked (committed s k name bytes d))
  unfolding write_entry
  write_entry-eq-ok s k name bytes d e h =
      let dir = key_dir s.root k in
      let blocked = is_some (read_file dir name (create_dir dir s.disk)) || faults.write in
      elim (Bool-cases faults.mkdir) [
        | inl a ↦ absurd (cc (rw a at h))
        | inr a ↦ elim (Bool-cases blocked) [
          | inl b ↦ absurd (cc (rw (a, b) at h))
          | inr b ↦ elim (Bool-cases faults.meta) [
            | inl c ↦ absurd (cc (rw (a, b, c) at h))
            | inr c ↦ let same : ok d ≡ ok e = rw (a, b, c) at h in rw (a, b, c) (cc same, refl)
          ]
        ]
      ]

  put_checked-eq-ok :
      (s : Store) (k : EntryKey) (name : Str) (bytes : List ℕ) (meta : Meta) (e : Entry)
      → let r = put_checked to_json faults now s k name bytes meta in
        IsSane s.limits
        → IsValid s
        → r.0 ≡ ok e
        → (e ≡ put_entry s.limits now k.kind k.id (length bytes) meta (Table.get k s.index.entries))
          × IsConsistent (committed s k (safe_name name) bytes e).index
          × (r.1 ≡ evict_locked (committed s k (safe_name name) bytes e))
  unfolding put_checked
  put_checked-eq-ok s k name bytes meta e sane v h =
      let size = length bytes in
      let existing = Table.get k s.index.entries in
      let used = counter k.tenant s.index.per_tenant in
      let d = put_entry s.limits now k.kind k.id size meta existing in
      let guard = ltb s.limits.max_tenant_bytes (saturating_add used size) in
      let full =
        is_none existing
        && leb s.limits.max_tenant_entries (counter k.tenant s.index.per_tenant_entries) in
      elim (Bool-cases guard) [
        | inl a ↦ absurd (cc (rw a at h))
        | inr a ↦ elim (Bool-cases full) [
          | inl b ↦ absurd (cc (rw (a, b) at h))
          | inr b ↦
              let (same, store) =
                write_entry-eq-ok s k (safe_name name) bytes d e (rw (a, b) at h) in
              let room : used + size ≤ s.limits.max_tenant_bytes = ground (arith, sane.bytes) in
              let total : s.index.total + size < u64_mod =
                omega (arith, sane.bytes, v.within.bytes) in
              let tenant : used + size < u64_mod = omega (arith, sane.bytes) in
              let count : counter k.tenant s.index.per_tenant_entries + 1 < u64_mod =
                omega (arith, sane.entries, v.counts k.tenant) in
              let consistent =
                record_put-IsConsistent s.index k d size v.consistent total tenant count
                  (put_entry-bytes s.limits now k size meta s.index v.consistent total) in
              (
                sym same,
                rw same at consistent,
                rw (a, b)
                    (store ∙ ap (λ x. evict_locked (committed s k (safe_name name) bytes x)) same),
              )
        ]
      ]

  pub put_with_id-eq-ok :
      (s : Store) (t : TenantId) (kind : Kind) (id name : Str) (bytes : List ℕ) (meta : Meta)
      (e : Entry)
      → let own : EntryKey = record { tenant = t; kind = kind; id = id } in
        let r = put_with_id to_json faults now s t kind id name bytes meta in
        IsSane s.limits
        → IsValid s
        → r.0 ≡ ok e
        → (validate_id kind id ≡ ok id)
          × (e ≡ put_entry s.limits now kind id (length bytes) meta (Table.get own s.index.entries))
          × IsConsistent (committed s own (safe_name name) bytes e).index
          × (r.1 ≡ evict_locked (committed s own (safe_name name) bytes e))
  unfolding put_with_id
  put_with_id-eq-ok s t kind id name bytes meta e sane v h =
      elim (Result-cases (validate_id kind id)) [
        | inr (x, bad) ↦ absurd (cc (rw (bad, put_with_id) at h))
        | inl (id', good) ↦
            let valid : validate_id kind id ≡ ok id =
              good ∙ ap ok (validate_id-IsSegment kind id id' good).0 in
            let own : EntryKey = record { tenant = t; kind = kind; id = id } in
            let (shape, c, store) =
              put_checked-eq-ok s own name bytes meta e sane v (rw (valid, put_with_id) at h) in
            (valid, shape, c, rw (valid, put_with_id) store)
      ]
