-- ===== src/Store/Operations/Readback.antt =====
-- What a successful put leaves (src/store.rs): the entry it returns and the others, and the bytes that
-- are read back.
use typst_mcp.Common.{
  ℕ, ◌≡◌, refl, sym, ap, ◌∙◌, ◌≢◌, inl, inr, false, none, some, List, [], arith, if◌then◌else◌,
  Bool-cases, length, ok,
}
use typst_mcp.Common.Text.{Str, lit}
use typst_mcp.Common.Text.Laws.{str_eq_iff}
use typst_mcp.Common.Text.Split.{Lacks}
use typst_mcp.Common.Key.{str_key}
use typst_mcp.Common.Table
use typst_mcp.Common.Table.{Table, get-insert}
use typst_mcp.Principal.{TenantId}
use typst_mcp.Store.{
  Kind, Meta, Entry, is_expired, EntryKey, key_eq, key_eq_iff, tenant_key, entry_key, Dir, Files,
  Store,
}
use typst_mcp.Store.Dirs.{dir_key}
use typst_mcp.Store.Ids.{validate_id, safe_name, key_dir}
use typst_mcp.Store.Ids.Laws.{IsPlaced}
use typst_mcp.Store.Removal.{evict_locked}
use typst_mcp.Store.Removal.Disk.{ArePlaced, evict_locked-disk}
use typst_mcp.Store.Removal.Eviction.{evict_locked-IsEvicted}
use typst_mcp.Store.Operations.{
  Faults, files_at, record_put, put_entry, read_file, write_file, put_with_id, check_live, get,
}
use typst_mcp.Store.Operations.Puts.{IsSane, IsValid}
use typst_mcp.Store.Operations.Isolation.{read_file-write_file}
use typst_mcp.Store.Operations.Committed.{committed, put_with_id-eq-ok}

-- What a live entry with the file on disk gives.
get-eq-ok :
    (r : Store) (now : ℕ) (t : TenantId) (kind : Kind) (id name : Str) (e : Entry) (bytes : List ℕ)
    → let own : EntryKey = record { tenant = t; kind = kind; id = id } in
      validate_id kind id ≡ ok id
      → Table.get own r.index.entries ≡ some e
      → is_expired e now ≡ false
      → read_file (key_dir r.root own) (safe_name name) r.disk ≡ some bytes
      → get r now false t kind id name ≡ ok bytes
unfolding get check_live
get-eq-ok r now t kind id name e bytes valid there young stored =
    rw (valid, get) (rw (there, check_live) (rw young (rw stored refl)))

-- The file of a name that is not the metadata's is what was written first.
read_file-both :
    (d : Dir) (name : Str) (bytes json : List ℕ) (disk : Table Dir Files)
    → name ≢ lit "meta.json"
    → read_file d name (write_file d (lit "meta.json") json (write_file d name bytes disk))
      ≡ some bytes
read_file-both d name bytes json disk other = ground (
  arith,
  read_file-write_file d (lit "meta.json") name json (write_file d name bytes disk),
  read_file-write_file d name name bytes disk,
  str_eq_iff (lit "meta.json") name,
  str_eq_iff name name,
)

-- Reading depends on the directory alone.
read_file-same :
    (d : Dir) (name : Str) (one other : Table Dir Files)
    → Table.get d one ≡ Table.get d other
    → read_file d name one ≡ read_file d name other
unfolding read_file files_at
read_file-same d name one other h =
    ap (λ f. Table.get name (elim f as (λ x. Files) [ none ↦ [] | some files ↦ files ])) h

inserted-ArePlaced :
    (own : EntryKey) (e : Entry) (entries : Table EntryKey Entry)
    → ArePlaced entries
    → IsPlaced own
    → ArePlaced (Table.insert own e entries)
inserted-ArePlaced own e entries placed here k d h = elim (Bool-cases (key_eq own k)) [
  | inl a ↦ rw ((key_eq_iff own k).0 a) at here
  | inr a ↦ placed k d (ground (arith, a, h, get-insert own k e entries))
]

module _ (to_json : Entry → List ℕ) (faults : Faults) (now : ℕ) where
  -- On a valid store under limits that leave room in 64 bits, a put that returns an entry returns what was recorded for the id, grown by the bytes that came in,
  -- or a new one; what is under the id afterwards is that entry, unless the eviction took it, and what
  -- is under any other key was there before, unchanged.
  pub put_with_id_lem :
      (s : Store) (t : TenantId) (kind : Kind) (id name : Str) (bytes : List ℕ) (meta : Meta)
      (e : Entry)
      → let own : EntryKey = record { tenant = t; kind = kind; id = id } in
        let r = put_with_id to_json faults now s t kind id name bytes meta in
        IsSane s.limits
        → IsValid s
        → r.0 ≡ ok e
        → (e ≡ put_entry s.limits now kind id (length bytes) meta (Table.get own s.index.entries))
          × ((k : EntryKey) (d : Entry)
              → Table.get k r.1.index.entries ≡ some d
              → (if key_eq own k then some e else Table.get k s.index.entries) ≡ some d)
  unfolding record_put
  put_with_id_lem s t kind id name bytes meta e sane v h =
      let own : EntryKey = record { tenant = t; kind = kind; id = id } in
      let (valid, shape, c, store) =
        put_with_id-eq-ok to_json faults now s t kind id name bytes meta e sane v h in
      (
        shape,
        λ k d there.
            let kept = (evict_locked-IsEvicted _ c).eviction.kept k d (rw store at there) in
            sym (get-insert own k e s.index.entries) ∙ kept,
      )

  -- A successful put leaves entries at placed keys.
  pub put_with_id-ArePlaced :
      (s : Store) (t : TenantId) (kind : Kind) (id name : Str) (bytes : List ℕ) (meta : Meta)
      (e : Entry)
      → let r = put_with_id to_json faults now s t kind id name bytes meta in
        IsSane s.limits
        → IsValid s
        → ArePlaced s.index.entries
        → Lacks b'/' t.text
        → r.0 ≡ ok e
        → ArePlaced r.1.index.entries
  put_with_id-ArePlaced s t kind id name bytes meta e sane v placed tenant h k d there =
      let own : EntryKey = record { tenant = t; kind = kind; id = id } in
      let (valid, shape, c, store) =
        put_with_id-eq-ok to_json faults now s t kind id name bytes meta e sane v h in
      inserted-ArePlaced own e s.index.entries placed (record { tenant = tenant; id = valid }) k d
        (get-insert own k e s.index.entries
          ∙ (put_with_id_lem s t kind id name bytes meta e sane v h).1 k d there)

  -- What was put into a valid store, under limits that leave room in 64 bits, is read back at any time
  -- at which the entry has not expired, provided that the put returned an entry which its own eviction
  -- left, that the name does not clean to the one of the metadata, that the file can be read, that every
  -- entry has an accepted id, and that no slash stands in the tenant id or in that of any entry.
  pub get-put_with_id :
      (s : Store) (t : TenantId) (kind : Kind) (id name : Str) (bytes : List ℕ) (meta : Meta)
      (e : Entry) (later : ℕ)
      → let own : EntryKey = record { tenant = t; kind = kind; id = id } in
        let r = put_with_id to_json faults now s t kind id name bytes meta in
        IsSane s.limits
        → IsValid s
        → ArePlaced s.index.entries
        → Lacks b'/' t.text
        → r.0 ≡ ok e
        → Table.get own r.1.index.entries ≡ some e
        → is_expired e later ≡ false
        → safe_name name ≢ lit "meta.json"
        → get r.1 later false t kind id name ≡ ok bytes
  unfolding record_put
  get-put_with_id s t kind id name bytes meta e later sane v placed tenant h there young other =
      let own : EntryKey = record { tenant = t; kind = kind; id = id } in
      let (valid, shape, c, store) =
        put_with_id-eq-ok to_json faults now s t kind id name bytes meta e sane v h in
      let full = committed to_json faults now s own (safe_name name) bytes e in
      let left : Table.get own (evict_locked full).index.entries ≡ some e = rw store at there in
      let all_placed =
        inserted-ArePlaced own e s.index.entries placed (record { tenant = tenant; id = valid }) in
      let (root, same) = evict_locked-disk full own e c all_placed left in
      let stored : read_file (key_dir s.root own) (safe_name name) (evict_locked full).disk
          ≡ some bytes =
        read_file-same (key_dir s.root own) (safe_name name) _ _ same
        ∙ read_file-both (key_dir s.root own) (safe_name name) bytes _ _ other in
      rw store (
        get-eq-ok (evict_locked full) later t kind id name e bytes valid left young
          (rw root stored))
