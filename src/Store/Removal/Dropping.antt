-- ===== src/Store/Removal/Dropping.antt =====
-- What the removal of one entry (src/store.rs) does.
-- entries.
use typst_mcp.Common.{
  ℕ, ◌≤◌, ◌≡◌, refl, inl, inr, none, some, [], ◌∷◌, arith, if◌then◌else◌, Option-cases, length,
}
use typst_mcp.Common.Table
use typst_mcp.Common.Table.{Table, get-remove}
use typst_mcp.Common.Table.Weight.{weight, weight-remove}
use typst_mcp.Store.{Entry, EntryKey, Index, Store, entry_key, key_eq, key_eq_iff}
use typst_mcp.Store.Removal.{remove_from_index, remove_entry, drop_entry}
use typst_mcp.Store.Removal.Consistency.{IsConsistent, remove_from_index-IsConsistent}

abbrev pub one : EntryKey → Entry → ℕ
one k e = 1

pub weight-one : (m : Table EntryKey Entry) → weight one m ≡ length m
weight-one [] = refl
weight-one ((k, e) ∷ m) = omega (arith, weight-one m)

pub entries-remove_from_index :
    (i : Index) (k : EntryKey) (e : Entry)
    → Table.get k i.entries ≡ some e
    → (remove_from_index i k).entries ≡ Table.remove k i.entries
unfolding remove_from_index remove_entry
entries-remove_from_index i k e h = rw h

pub drop_entry-IsConsistent :
    (s : Store) (k : EntryKey) → IsConsistent s.index → IsConsistent (drop_entry s k).index
unfolding drop_entry
drop_entry-IsConsistent s k c = remove_from_index-IsConsistent s.index k c

pub get-drop_entry :
    (s : Store) (k j : EntryKey)
    → Table.get j (drop_entry s k).index.entries
      ≡ (if key_eq k j then none else Table.get j s.index.entries)
unfolding drop_entry remove_from_index remove_entry
get-drop_entry s k j = elim (Option-cases (Table.get k s.index.entries)) [
  | inl n ↦ rw (n, remove_entry) (ground (arith, n, key_eq_iff k j))
  | inr (e, found) ↦ rw (found, remove_entry) (get-remove k j s.index.entries)
]

pub weight-drop_entry-le :
    (w : EntryKey → Entry → ℕ) (s : Store) (k : EntryKey)
    → IsConsistent s.index
    → weight w (drop_entry s k).index.entries ≤ weight w s.index.entries
unfolding drop_entry remove_from_index remove_entry
weight-drop_entry-le w s k c = elim (Option-cases (Table.get k s.index.entries)) [
  | inl n ↦ rw (n, remove_entry) (omega arith)
  | inr (e, found) ↦
      rw (found, remove_entry) (omega (arith, weight-remove w k s.index.entries c.unique))
]

pub length-drop_entry-le :
    (s : Store) (k : EntryKey)
    → IsConsistent s.index
    → length (drop_entry s k).index.entries ≤ length s.index.entries
length-drop_entry-le s k c = omega (
  arith,
  weight-drop_entry-le one s k c,
  weight-one (drop_entry s k).index.entries,
  weight-one s.index.entries,
)

pub limits-drop_entry : (s : Store) (k : EntryKey) → (drop_entry s k).limits ≡ s.limits
unfolding drop_entry
limits-drop_entry s k = refl
