-- ===== src/Store/Removal/Disk.antt =====
-- Eviction (src/store.rs) leaves the directories of the entries that stay.
use typst_mcp.Common.{
  ℕ, zero, suc, ◌≡◌, refl, sym, ◌∙◌, ◌≢◌, inl, inr, Option, none, some, arith, Bool-cases,
  Option-cases, length,
}
use typst_mcp.Common.Table
use typst_mcp.Common.Table.{Table, get-remove, get-insert}
use typst_mcp.Store.{Entry, EntryKey, key_eq_iff, entry_key, Dir, Files, Leftover, Store}
use typst_mcp.Store.Dirs.{dir_eq_iff, dir_key}
use typst_mcp.Store.Ids.{key_dir}
use typst_mcp.Store.Ids.Laws.{IsPlaced, key_dir_inj}
use typst_mcp.Store.Removal.{
  remove_dir, drop_entry, evict_one, evict, evict_locked, is_over, oldest,
}
use typst_mcp.Store.Removal.Consistency.{IsConsistent}
use typst_mcp.Store.Removal.Eviction.{IsEviction, evict-IsEviction, evict_one-IsConsistent}
use typst_mcp.Store.Removal.Oldest.{oldest-IsOldest}
use typst_mcp.Store.Removal.Dropping.{get-drop_entry}

-- The directories of the entries are those of placed keys, so that different ones differ.
abbrev pub ArePlaced : Table EntryKey Entry → Type 0
ArePlaced entries = (k : EntryKey) (e : Entry) → Table.get k entries ≡ some e → IsPlaced k

drop_entry-ArePlaced :
    (s : Store) (k : EntryKey)
    → ArePlaced s.index.entries
    → ArePlaced (drop_entry s k).index.entries
drop_entry-ArePlaced s k p j e h = p j e (ground (arith, h, get-drop_entry s k j))

evict_one-ArePlaced :
    (s : Store) (k : EntryKey) → ArePlaced s.index.entries → ArePlaced (evict_one s k).index.entries
unfolding evict_one
evict_one-ArePlaced s k p = drop_entry-ArePlaced s k p

-- Removing a directory, or trying to, leaves the other directories.
get-remove_dir :
    (leftover : Leftover) (d e : Dir) (disk : Table Dir Files) (found : Option Files)
    → d ≢ e
    → Table.get e (remove_dir leftover d disk found) ≡ Table.get e disk
unfolding remove_dir
get-remove_dir leftover d e disk none ne = refl
get-remove_dir leftover d e disk (some files) ne = elim (Option-cases (leftover d files)) [
  | inl a ↦ rw (a, remove_dir) (ground (arith, get-remove d e disk, dir_eq_iff d e, ne))
  | inr (left, a) ↦
      rw (a, remove_dir) (ground (arith, get-insert d e left disk, dir_eq_iff d e, ne))
]

disk-evict_one :
    (s : Store) (k j : EntryKey)
    → IsPlaced j
    → IsPlaced k
    → j ≢ k
    → Table.get (key_dir s.root j) (evict_one s k).disk ≡ Table.get (key_dir s.root j) s.disk
unfolding evict_one drop_entry
disk-evict_one s k j p q ne =
    get-remove_dir s.leftover (key_dir s.root k) (key_dir s.root j) s.disk
      (Table.get (key_dir s.root k) s.disk) (λ same. ne (sym (key_dir_inj s.root k j q p same)))

root-evict_one : (s : Store) (k : EntryKey) → (evict_one s k).root ≡ s.root
unfolding evict_one drop_entry
root-evict_one s k = refl

kept-ne :
    (s r : Store) (k j : EntryKey) (e : Entry)
    → IsEviction (evict_one s k).index r.index
    → Table.get j r.index.entries ≡ some e
    → j ≢ k
unfolding evict_one
kept-ne s r k j e v h same = ground (arith, v.kept j e h, get-drop_entry s k j, key_eq_iff k j)

-- The directory of an entry that is there after eviction is as it was before.
pub evict-disk :
    (fuel : ℕ) (s : Store) (j : EntryKey) (e : Entry)
    → IsConsistent s.index
    → ArePlaced s.index.entries
    → Table.get j (evict fuel s).index.entries ≡ some e
    → ((evict fuel s).root ≡ s.root)
      × (Table.get (key_dir s.root j) (evict fuel s).disk ≡ Table.get (key_dir s.root j) s.disk)
unfolding evict
evict-disk zero s j e c p h = (refl, refl)
evict-disk (suc fuel) s j e c p h = elim (Bool-cases (is_over s.limits s.index)) [
  | inr a ↦ rw a (refl, refl)
  | inl a ↦ elim (Option-cases (oldest s.index.entries)) [
    | inl b ↦ rw (a, b) (refl, refl)
    | inr (k, b) ↦
        let c' = evict_one-IsConsistent s k c in
        let later : Table.get j (evict fuel (evict_one s k)).index.entries ≡ some e =
          rw (a, b, evict) at h in
        let (root, same) =
          evict-disk fuel (evict_one s k) j e c' (evict_one-ArePlaced s k p) later in
        let ne =
          kept-ne s (evict fuel (evict_one s k)) k j e (evict-IsEviction fuel (evict_one s k) c')
            later in
        let own = root-evict_one s k in
        let (oldest_entry, found, _) = oldest-IsOldest s.index.entries k c.unique b in
        let kept =
          evict_one-ArePlaced s k p j e
            ((evict-IsEviction fuel (evict_one s k) c').kept j e later) in
        rw (a, b)
          (root ∙ own, rw own at same ∙ disk-evict_one s k j kept (p k oldest_entry found) ne)
  ]
]

pub evict_locked-disk :
    (s : Store) (j : EntryKey) (e : Entry)
    → IsConsistent s.index
    → ArePlaced s.index.entries
    → Table.get j (evict_locked s).index.entries ≡ some e
    → ((evict_locked s).root ≡ s.root)
      × (Table.get (key_dir s.root j) (evict_locked s).disk ≡ Table.get (key_dir s.root j) s.disk)
unfolding evict_locked
evict_locked-disk s j e c p h = evict-disk (length s.index.entries) s j e c p h
