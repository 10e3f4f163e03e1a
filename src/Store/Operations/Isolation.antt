-- ===== src/Store/Operations/Isolation.antt =====
-- What a put and a deletion do to other entries, and reading back what was put (src/store.rs).
use typst_mcp.Common.{
  ℕ, ◌≡◌, refl, ap, ◌∙◌, inl, inr, true, false, none, some, List, arith, if◌then◌else◌, Bool-cases,
  ok, ok_or, bind-eq-ok, Result-cases,
}
use typst_mcp.Common.Text.{Str, str_eq}
use typst_mcp.Common.Errors.{ok_or-eq-ok}
use typst_mcp.Common.Key.{str_key}
use typst_mcp.Common.Table
use typst_mcp.Common.Table.{Table, get-insert}
use typst_mcp.Principal.{TenantId}
use typst_mcp.Store.{
  Kind, not_found, Entry, is_expired, EntryKey, key_eq, tenant_key, entry_key, Dir, Files, Store,
}
use typst_mcp.Store.Dirs.{dir_key, dir_eq, dir_eq_iff}
use typst_mcp.Store.Ids.{validate_id}
use typst_mcp.Store.Ids.Laws.{validate_id-IsSegment}
use typst_mcp.Store.Removal.Dropping.{get-drop_entry}
use typst_mcp.Store.Operations.{files_at, read_file, write_file, remove_live, check_live, delete}

files_at-insert :
    (d e : Dir) (files : Files) (disk : Table Dir Files)
    → files_at e (Table.insert d files disk) ≡ (if dir_eq d e then files else files_at e disk)
unfolding files_at
files_at-insert d e files disk = ground (arith, get-insert d e files disk)

dir_eq_refl : (d : Dir) → dir_eq d d ≡ true
dir_eq_refl d = (dir_eq_iff d d).1 refl

-- A file that was written is read back; another file of the directory is as it was.
pub read_file-write_file :
    (d : Dir) (name other : Str) (bytes : List ℕ) (disk : Table Dir Files)
    → read_file d other (write_file d name bytes disk)
      ≡ (if str_eq name other then some bytes else read_file d other disk)
unfolding read_file write_file
read_file-write_file d name other bytes disk =
    rw (files_at-insert d d (Table.insert name bytes (files_at d disk)) disk, dir_eq_refl d)
      (get-insert name other bytes (files_at d disk))

check_live-eq-ok :
    (s : Store) (now : ℕ) (k : EntryKey) (e : Entry)
    → check_live s now k ≡ ok e
    → (Table.get k s.index.entries ≡ some e) × (is_expired e now ≡ false)
unfolding check_live
check_live-eq-ok s now k e h =
    let (d, found, live) =
      bind-eq-ok (ok_or (Table.get k s.index.entries) (not_found k.kind k.id)) _ h in
    let there : Table.get k s.index.entries ≡ some d = ok_or-eq-ok _ _ found in
    elim (Bool-cases (is_expired d now)) [
      | inl old ↦ absurd (cc (rw old at live))
      | inr young ↦
          let same : ok d ≡ ok e = rw young at live in (cc (there, same), cc (young, same))
    ]

-- A deletion that returns an entry returns the one that was there, which had not expired, and removes
-- it and no other.
pub delete_lem :
    (s : Store) (now : ℕ) (t : TenantId) (kind : Kind) (id : Str) (e : Entry)
    → let own : EntryKey = record { tenant = t; kind = kind; id = id } in
      (delete s now t kind id).0 ≡ ok e
      → (Table.get own s.index.entries ≡ some e)
        × (is_expired e now ≡ false)
        × ((k : EntryKey)
            → Table.get k (delete s now t kind id).1.index.entries
              ≡ (if key_eq own k then none else Table.get k s.index.entries))
unfolding delete remove_live
delete_lem s now t kind id e h = elim (Result-cases (validate_id kind id)) [
  | inr (x, bad) ↦ absurd (cc (rw (bad, delete) at h))
  | inl (id', good) ↦
      let own : EntryKey = record { tenant = t; kind = kind; id = id } in
      let valid : validate_id kind id ≡ ok id =
        good ∙ ap ok (validate_id-IsSegment kind id id' good).0 in
      elim (Result-cases (check_live s now own)) [
        | inr (x, gone) ↦ absurd (cc (rw (gone, remove_live) at (rw (valid, delete) at h)))
        | inl (d, live) ↦
            let same : ok d ≡ ok e = rw (live, remove_live) at (rw (valid, delete) at h) in
            let (there, young) = check_live-eq-ok s now own e (live ∙ same) in
            (
              there,
              young,
              rw (valid, delete) (rw (live, remove_live) (λ k. get-drop_entry s own k)),
            )
      ]
]
