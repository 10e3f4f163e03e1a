-- ===== src/Store/Operations/Reaping.antt =====
-- A round of the reaper (src/store.rs) drops exactly what has expired.
use typst_mcp.Common.{
  ℕ, ◌≡◌, refl, ◌∙◌, ◌≢◌, inl, inr, Bool, false, Option, none, some, List, [], ◌∷◌, arith,
  if◌then◌else◌, Bool-cases, length, All, any,
}
use mathlib.Core.Path.{subst}
use typst_mcp.Common.Table
use typst_mcp.Common.Table.{Table}
use typst_mcp.Common.Table.Weight.{weight, HasUniqueKeys}
use typst_mcp.Store.{Entry, is_expired, EntryKey, key_eq, key_eq_iff, entry_key, Store}
use typst_mcp.Store.Removal.{drop_entry}
use typst_mcp.Store.Removal.Dropping.{get-drop_entry}
use typst_mcp.Store.Operations.{expired_keys, drop_all, reap}

-- What the reaper leaves of an entry.
abbrev pub unexpired : ℕ → Option Entry → Option Entry
unexpired now none = none
unexpired now (some e) = if is_expired e now then none else some e

names : EntryKey → List EntryKey → Bool
names j ks = any (λ k. key_eq k j) ks

get-drop_all :
    (ks : List EntryKey) (s : Store) (j : EntryKey)
    → Table.get j (drop_all ks s).index.entries
      ≡ (if names j ks then none else Table.get j s.index.entries)
unfolding drop_all names any
get-drop_all [] s j = refl
get-drop_all (k ∷ ks) s j = ground (arith, get-drop_all ks (drop_entry s k) j, get-drop_entry s k j)

names-absent :
    (now : ℕ) (m : Table EntryKey Entry) (j : EntryKey)
    → All (λ e. e.0 ≢ j) m
    → names j (expired_keys now m) ≡ false
unfolding names any expired_keys
names-absent now [] j h = refl
names-absent now ((k, e) ∷ m) j h = ground (arith, names-absent now m j h.1, key_eq_iff k j)

names-expired_keys :
    (now : ℕ) (m : Table EntryKey Entry) (j : EntryKey)
    → HasUniqueKeys m
    → (if names j (expired_keys now m) then none else Table.get j m) ≡ unexpired now (Table.get j m)
unfolding names any expired_keys Table.get
names-expired_keys now [] j u = refl
names-expired_keys now ((k, e) ∷ m) j u = elim (Bool-cases (key_eq k j)) [
  | inl same ↦
      let others = subst (λ x. All (λ y. y.0 ≢ x) m) ((key_eq_iff k j).0 same) u.0 in
      ground (arith, same, names-absent now m j others)
  | inr differ ↦ ground (arith, differ, names-expired_keys now m j u.1)
]

length-expired_keys :
    (now : ℕ) (m : Table EntryKey Entry)
    → length (expired_keys now m) ≡ weight (λ k e. if is_expired e now then 1 else 0) m
unfolding expired_keys
length-expired_keys now [] = refl
length-expired_keys now ((k, e) ∷ m) = ground (arith, length-expired_keys now m)

-- In a store without repeated keys, after a round of the reaper an entry that had expired is gone and every other is as it was; the
-- number that is returned counts the expired entries.
pub reap-unexpired :
    (s : Store) (now : ℕ)
    → HasUniqueKeys s.index.entries
    → ((j : EntryKey)
        → Table.get j (reap s now).1.index.entries ≡ unexpired now (Table.get j s.index.entries))
      × ((reap s now).0 ≡ weight (λ k e. if is_expired e now then 1 else 0) s.index.entries)
unfolding reap
reap-unexpired s now u = (
  λ j.
      get-drop_all (expired_keys now s.index.entries) s j
      ∙ names-expired_keys now s.index.entries j u,
  length-expired_keys now s.index.entries,
)
