-- ===== src/Store/Operations/Tests.antt =====
-- A concrete store (src/store.rs) with one document.
use typst_mcp.Common.{
  ℕ, ◌≡◌, refl, ◌≢◌, false, none, some, List, [], ◌∷◌, arith, if◌then◌else◌, all, Result, ok,
}
use typst_mcp.Common.Text.{Str, lit, bytes, len, utf8, strip_prefix, str_eq, split}
use typst_mcp.Common.Key.{str_key}
use typst_mcp.Common.Table
use typst_mcp.Common.Table.{Table}
use typst_mcp.Common.Table.Weight.{weight}
use typst_mcp.Principal.{TenantId}
use typst_mcp.Store.{
  Kind, output, Limits, StoreError, Meta, Entry, is_expired, EntryKey, key_eq, tenant_eq,
  tenant_key, entry_key, Dir, Leftover, Store,
}
use typst_mcp.Store.Dirs.{dir_key, dir_eq}
use typst_mcp.Store.Ids.{
  validate_id, is_ulid_shape, prefix, is_safe, clean, safe_name, dir, entry_dir, join_path,
  components,
}
use typst_mcp.Store.Ids.Laws.{
  IsPlaced, IsSegment, safe_name-IsSegment, validate_id-IsSegment, key_dir_inj,
}
use typst_mcp.Store.Removal.{evict_locked, evict, is_over}
use typst_mcp.Store.Removal.Eviction.{IsEvicted, evict_locked-IsEvicted}
use typst_mcp.Store.Operations.{
  Faults, put_checked, write_entry, create_dir, read_file, write_file, files_at, record_put, add_to,
  remove_live, check_live, put_entry, put_with_id, get, delete, reap,
}
use typst_mcp.Store.Operations.Puts.{IsSane, IsValid, put_with_id-IsValid}
use typst_mcp.Store.Operations.Runs.{
  puts, deletes, reaps, here, next, empty, empty-IsValid, Reach-IsValid,
}
use typst_mcp.Store.Operations.Reaping.{unexpired, reap-unexpired}
use typst_mcp.Store.Operations.Isolation.{delete_lem}
use typst_mcp.Store.Operations.Readback.{put_with_id_lem, put_with_id-ArePlaced, get-put_with_id}
use typst_mcp.Store.Removal.Disk.{ArePlaced}

abbrev limits : Limits
limits = record {
  output_ttl = 60;
  asset_ttl = 600;
  template_ttl = 600;
  max_tenant_bytes = 8;
  max_store_bytes = 16;
  max_tenant_entries = 2;
  max_store_entries = 3;
}

limits-IsSane : IsSane limits
limits-IsSane = record { bytes = omega arith; entries = omega arith }

abbrev tenant_a : TenantId
tenant_a = record { text = lit "a0" }

abbrev doc : Str
doc = lit "job_0123456789abcdef0123456789"

abbrev file : Str
file = lit "main.pdf"

abbrev root : Dir
root = lit "data" ∷ []

abbrev all_removed : Leftover
all_removed d files = none

abbrev no_faults : Faults
no_faults = record { mkdir = false; write = false; meta = false }

abbrev no_meta : Meta
no_meta = record { filename = none; content_type = none; asset_role = none }

abbrev no_json : Entry → List ℕ
no_json e = []

abbrev start : Store
start = empty root all_removed limits

-- A put of three bytes at the time 100.
abbrev stored : Result Entry StoreError × Store
stored = put_with_id no_json no_faults 100 start tenant_a output doc file (1 ∷ 2 ∷ 3 ∷ []) no_meta

abbrev doc_entry : Entry
doc_entry = record {
  id = doc;
  kind = output;
  bytes = 3;
  created_at = 100;
  expires_at = 160;
  filename = none;
  content_type = none;
  asset_role = none;
}

abbrev doc_key : EntryKey
doc_key = record { tenant = tenant_a; kind = output; id = doc }

stored_ok : stored.0 ≡ ok doc_entry
unfolding put_with_id put_checked write_entry put_entry create_dir read_file write_file files_at
    record_put add_to validate_id is_ulid_shape prefix safe_name is_safe clean entry_dir join_path
    components split dir dir_eq tenant_eq key_eq str_eq len bytes utf8 strip_prefix all evict_locked
    evict is_over Table.get Table.insert
stored_ok = refl

stored_there : Table.get doc_key stored.1.index.entries ≡ some doc_entry
unfolding put_with_id put_checked write_entry put_entry create_dir read_file write_file files_at
    record_put add_to validate_id is_ulid_shape prefix safe_name is_safe clean entry_dir join_path
    components split dir dir_eq tenant_eq key_eq str_eq len bytes utf8 strip_prefix all evict_locked
    evict is_over Table.get Table.insert
stored_there = refl

file_name : safe_name file ≢ lit "meta.json"
unfolding safe_name is_safe clean
file_name = λ h. cc h

stored-IsSane : IsSane stored.1.limits
stored-IsSane =
    rw
      (put_with_id-IsValid no_json no_faults 100 start tenant_a output doc file (1 ∷ 2 ∷ 3 ∷ [])
        no_meta limits-IsSane (empty-IsValid root all_removed limits)).0
      limits-IsSane

stored-IsValid : IsValid stored.1
stored-IsValid =
    (put_with_id-IsValid no_json no_faults 100 start tenant_a output doc file (1 ∷ 2 ∷ 3 ∷ [])
      no_meta limits-IsSane (empty-IsValid root all_removed limits)).1

deleted_ok : (delete stored.1 159 tenant_a output doc).0 ≡ ok doc_entry
unfolding delete remove_live check_live put_with_id put_checked write_entry put_entry create_dir
    read_file write_file files_at record_put add_to validate_id is_ulid_shape prefix safe_name
    is_safe clean entry_dir join_path components split dir dir_eq tenant_eq key_eq str_eq len bytes
    utf8 strip_prefix all evict_locked evict is_over Table.get Table.insert
deleted_ok = refl

-- The run that deletes the document again and reaps.
Reach-IsValid_example :
    let s' = (delete stored.1 101 tenant_a output doc).1 in
    ((reap s' 200).1.limits ≡ limits) × IsValid (reap s' 200).1
Reach-IsValid_example =
    let s' = (delete stored.1 101 tenant_a output doc).1 in
    Reach-IsValid no_json root all_removed limits (reap s' 200).1 limits-IsSane (
      next
        (next
          (next here (puts start no_faults 100 tenant_a output doc file (1 ∷ 2 ∷ 3 ∷ []) no_meta))
          (deletes stored.1 101 tenant_a output doc))
        (reaps s' 200))

put_with_id_lem_example :
    (doc_entry ≡ put_entry limits 100 output doc 3 no_meta (Table.get doc_key start.index.entries))
    × ((k : EntryKey) (d : Entry)
        → Table.get k stored.1.index.entries ≡ some d
        → (if key_eq doc_key k then some doc_entry else Table.get k start.index.entries) ≡ some d)
put_with_id_lem_example =
    put_with_id_lem no_json no_faults 100 start tenant_a output doc file (1 ∷ 2 ∷ 3 ∷ []) no_meta
      doc_entry limits-IsSane (empty-IsValid root all_removed limits) stored_ok

-- A second file of the document, ten seconds later.
abbrev page : Str
page = lit "p.png"

abbrev grown : Result Entry StoreError × Store
grown = put_with_id no_json no_faults 110 stored.1 tenant_a output doc page (4 ∷ 5 ∷ []) no_meta

abbrev grown_entry : Entry
grown_entry = record doc_entry { bytes = 5; expires_at = 170 }

grown_ok : grown.0 ≡ ok grown_entry
unfolding put_with_id put_checked write_entry put_entry create_dir read_file write_file files_at
    record_put add_to validate_id is_ulid_shape prefix safe_name is_safe clean entry_dir join_path
    components split dir dir_eq tenant_eq key_eq str_eq len bytes utf8 strip_prefix all evict_locked
    evict is_over Table.get Table.insert
grown_ok = refl

grown_there : Table.get doc_key grown.1.index.entries ≡ some grown_entry
unfolding put_with_id put_checked write_entry put_entry create_dir read_file write_file files_at
    record_put add_to validate_id is_ulid_shape prefix safe_name is_safe clean entry_dir join_path
    components split dir dir_eq tenant_eq key_eq str_eq len bytes utf8 strip_prefix all evict_locked
    evict is_over Table.get Table.insert
grown_there = refl

page_name : safe_name page ≢ lit "meta.json"
unfolding safe_name is_safe clean
page_name = λ h. cc h

stored-ArePlaced : ArePlaced stored.1.index.entries
unfolding Table.get
stored-ArePlaced =
    put_with_id-ArePlaced no_json no_faults 100 start tenant_a output doc file (1 ∷ 2 ∷ 3 ∷ [])
      no_meta doc_entry limits-IsSane (empty-IsValid root all_removed limits)
      (λ k e h. absurd (cc h)) (ground arith) stored_ok

get-put_with_id_example : get grown.1 169 false tenant_a output doc page ≡ ok (4 ∷ 5 ∷ [])
get-put_with_id_example =
    get-put_with_id no_json no_faults 110 stored.1 tenant_a output doc page (4 ∷ 5 ∷ []) no_meta
      grown_entry 169 stored-IsSane stored-IsValid stored-ArePlaced (ground arith) grown_ok
      grown_there refl page_name

delete_lem_example :
    (Table.get doc_key stored.1.index.entries ≡ some doc_entry)
    × (is_expired doc_entry 159 ≡ false)
    × ((k : EntryKey)
        → Table.get k (delete stored.1 159 tenant_a output doc).1.index.entries
          ≡ (if key_eq doc_key k then none else Table.get k stored.1.index.entries))
delete_lem_example = delete_lem stored.1 159 tenant_a output doc doc_entry deleted_ok

-- The same store under a limit that the document exceeds.
abbrev crowded : Store
crowded = record stored.1 { limits = record limits { max_store_bytes = 2 } }

evict_locked-IsEvicted_example : IsEvicted crowded (evict_locked crowded)
evict_locked-IsEvicted_example = evict_locked-IsEvicted crowded stored-IsValid.consistent

reap-unexpired_example :
    ((j : EntryKey)
      → Table.get j (reap stored.1 160).1.index.entries
        ≡ unexpired 160 (Table.get j stored.1.index.entries))
    × ((reap stored.1 160).0
        ≡ weight (λ k e. if is_expired e 160 then 1 else 0) stored.1.index.entries)
reap-unexpired_example = reap-unexpired stored.1 160 stored-IsValid.consistent.unique

safe_name-IsSegment_example : IsSegment (safe_name (lit "../../etc/passwd"))
safe_name-IsSegment_example = safe_name-IsSegment (lit "../../etc/passwd")

doc_accepted : validate_id output doc ≡ ok doc
unfolding validate_id is_ulid_shape prefix str_eq len bytes utf8 strip_prefix all
doc_accepted = refl

validate_id-IsSegment_example :
    (doc ≡ doc) × IsSegment doc × ((kind' : Kind) → kind' ≢ output → validate_id kind' doc ≢ ok doc)
validate_id-IsSegment_example = validate_id-IsSegment output doc doc doc_accepted

doc-IsPlaced : IsPlaced doc_key
doc-IsPlaced = record { tenant = ground arith; id = doc_accepted }

key_dir_inj_example : doc_key ≡ doc_key
key_dir_inj_example = key_dir_inj root doc_key doc_key doc-IsPlaced doc-IsPlaced refl
