-- ===== src/Store/Removal/Eviction.antt =====
-- Eviction (src/store.rs) ends within the ceilings of the store, keeps the accounting and only drops
-- entries.
use typst_mcp.Common.{
  ℕ, zero, suc, ◌+◌, ◌≤◌, ◌≡◌, refl, ap, ◌∙◌, inl, inr, false, none, some, [], ◌∷◌, arith,
  if◌then◌else◌, Bool-cases, Option-cases, length,
}
use typst_mcp.Common.Table
use typst_mcp.Common.Table.{Table, get-remove}
use typst_mcp.Common.Table.Weight.{weight, weight-remove}
use typst_mcp.Store.{Limits, Entry, EntryKey, Index, Store, entry_key, key_eq, key_eq_iff}
use typst_mcp.Store.Removal.{oldest, is_over, drop_entry, evict_one, evict, evict_locked}
use typst_mcp.Store.Removal.Consistency.{IsConsistent, bytes_of, remove_from_index-IsConsistent}
use typst_mcp.Store.Removal.Oldest.{oldest-IsOldest, oldest-none}
use typst_mcp.Store.Removal.Dropping.{one, weight-one, entries-remove_from_index}

-- Within the ceilings of the whole store.
pub record IsWithin (l : Limits) (i : Index) : Type 0 where
  pub bytes : i.total ≤ l.max_store_bytes
  pub count : length i.entries ≤ l.max_store_entries

length-evict_one :
    (s : Store) (k : EntryKey) (e : Entry)
    → IsConsistent s.index
    → Table.get k s.index.entries ≡ some e
    → length (evict_one s k).index.entries + 1 ≡ length s.index.entries
unfolding evict_one drop_entry
length-evict_one s k e c found =
    let w = rw found at (weight-remove one k s.index.entries c.unique) in
    rw (entries-remove_from_index s.index k e found)
      (omega (arith, w, weight-one (Table.remove k s.index.entries), weight-one s.index.entries))

pub evict_one-IsConsistent :
    (s : Store) (k : EntryKey) → IsConsistent s.index → IsConsistent (evict_one s k).index
unfolding evict_one drop_entry
evict_one-IsConsistent s k c = remove_from_index-IsConsistent s.index k c

pub evict-IsConsistent :
    (fuel : ℕ) (s : Store) → IsConsistent s.index → IsConsistent (evict fuel s).index
unfolding evict
evict-IsConsistent zero s c = c
evict-IsConsistent (suc fuel) s c = elim (Bool-cases (is_over s.limits s.index)) [
  | inr e ↦ rw e c
  | inl e ↦ elim (Option-cases (oldest s.index.entries)) [
    | inl n ↦ rw (e, n) c
    | inr (k, o) ↦
        rw (e, o) (evict-IsConsistent fuel (evict_one s k) (evict_one-IsConsistent s k c))
  ]
]

empty_of_length : (m : Table EntryKey Entry) → length m ≤ 0 → m ≡ []
empty_of_length [] h = refl
empty_of_length (e ∷ m) h = absurd (omega arith)

is_over-false : (l : Limits) (i : Index) → is_over l i ≡ false → IsWithin l i
unfolding is_over
is_over-false l i h = ground arith

pub evict-IsWithin :
    (fuel : ℕ) (s : Store)
    → IsConsistent s.index
    → length s.index.entries ≤ fuel
    → IsWithin s.limits (evict fuel s).index
unfolding evict
evict-IsWithin zero s c h =
    let none_left : s.index.entries ≡ [] = empty_of_length s.index.entries h in
    record { bytes = omega (arith, c.total, ap (weight bytes_of) none_left); count = omega arith }
evict-IsWithin (suc fuel) s c h = elim (Bool-cases (is_over s.limits s.index)) [
  | inr e ↦ rw e (is_over-false s.limits s.index e)
  | inl e ↦ elim (Option-cases (oldest s.index.entries)) [
    | inl n ↦
        let none_left = oldest-none s.index.entries n in
        rw (e, n)
          record {
            bytes = omega (arith, c.total, ap (weight bytes_of) none_left);
            count = omega (arith, ap length none_left);
          }
    | inr (k, o) ↦
        let (entry, found, _) = oldest-IsOldest s.index.entries k c.unique o in
        rw (e, o)
          (evict-IsWithin fuel (evict_one s k) (evict_one-IsConsistent s k c)
            (omega (arith, length-evict_one s k entry c found)))
  ]
]

-- Eviction leaves an entry as it is or drops it, and none that it drops is newer than one that it
-- leaves.
pub record IsEviction (i j : Index) : Type 0 where
  pub kept :
      (k : EntryKey) (e : Entry) → Table.get k j.entries ≡ some e → Table.get k i.entries ≡ some e
  pub oldest_first :
      (k l : EntryKey) (d e : Entry)
      → Table.get k i.entries ≡ some d
      → Table.get k j.entries ≡ none
      → Table.get l j.entries ≡ some e
      → d.created_at ≤ e.created_at

IsEviction-refl : (i : Index) → IsEviction i i
IsEviction-refl i = record {
  kept = λ k e h. h;
  oldest_first = λ k l d e before after later. absurd (cc (before, after));
}

get-evict_one :
    (s : Store) (k j : EntryKey) (e : Entry)
    → Table.get k s.index.entries ≡ some e
    → Table.get j (evict_one s k).index.entries
      ≡ (if key_eq k j then none else Table.get j s.index.entries)
unfolding evict_one drop_entry
get-evict_one s k j e found =
    rw (entries-remove_from_index s.index k e found) (get-remove k j s.index.entries)

pub evict-IsEviction :
    (fuel : ℕ) (s : Store) → IsConsistent s.index → IsEviction s.index (evict fuel s).index
unfolding evict
evict-IsEviction zero s c = IsEviction-refl s.index
evict-IsEviction (suc fuel) s c = elim (Bool-cases (is_over s.limits s.index)) [
  | inr e ↦ rw e (IsEviction-refl s.index)
  | inl e ↦ elim (Option-cases (oldest s.index.entries)) [
    | inl n ↦ rw (e, n) (IsEviction-refl s.index)
    | inr (k, o) ↦
        let (entry, found, least) = oldest-IsOldest s.index.entries k c.unique o in
        let rest = evict-IsEviction fuel (evict_one s k) (evict_one-IsConsistent s k c) in
        rw (e, o)
          record {
            kept = λ j d h. ground (arith, rest.kept j d h, get-evict_one s k j entry found);
            oldest_first = λ j l d d' before after later. ground (
              arith,
              rest.oldest_first j l d d',
              rest.kept l d' later,
              get-evict_one s k j entry found,
              get-evict_one s k l entry found,
              key_eq_iff k j,
              least l d',
            );
          }
  ]
]

weight-evict_one :
    (w : EntryKey → Entry → ℕ) (s : Store) (k : EntryKey) (e : Entry)
    → IsConsistent s.index
    → Table.get k s.index.entries ≡ some e
    → weight w (evict_one s k).index.entries ≤ weight w s.index.entries
unfolding evict_one drop_entry
weight-evict_one w s k e c found =
    let r = weight-remove w k s.index.entries c.unique in
    rw (entries-remove_from_index s.index k e found) (omega (arith, r))

limits-evict_one : (s : Store) (k : EntryKey) → (evict_one s k).limits ≡ s.limits
unfolding evict_one drop_entry
limits-evict_one s k = refl

-- No sum over the entries grows, and the limits stay.
pub evict-weight-le :
    (w : EntryKey → Entry → ℕ) (fuel : ℕ) (s : Store)
    → IsConsistent s.index
    → (weight w (evict fuel s).index.entries ≤ weight w s.index.entries)
      × ((evict fuel s).limits ≡ s.limits)
unfolding evict
evict-weight-le w zero s c = (omega arith, refl)
evict-weight-le w (suc fuel) s c = elim (Bool-cases (is_over s.limits s.index)) [
  | inr e ↦ rw e (omega arith, refl)
  | inl e ↦ elim (Option-cases (oldest s.index.entries)) [
    | inl n ↦ rw (e, n) (omega arith, refl)
    | inr (k, o) ↦
        let (entry, found, _) = oldest-IsOldest s.index.entries k c.unique o in
        let (less, same) = evict-weight-le w fuel (evict_one s k) (evict_one-IsConsistent s k c) in
        let step = weight-evict_one w s k entry c found in
        rw (e, o) (omega (arith, less, step), same ∙ limits-evict_one s k)
  ]
]

-- What `evict_locked` does to a store whose counters are right.
pub record IsEvicted (s r : Store) : Type 0 where
  pub consistent : IsConsistent r.index
  pub within : IsWithin s.limits r.index
  pub eviction : IsEviction s.index r.index
  pub limits : r.limits ≡ s.limits
  pub weights : (w : EntryKey → Entry → ℕ) → weight w r.index.entries ≤ weight w s.index.entries

-- From a store whose counters are right, `evict_locked` leaves one whose counters are right and whose
-- total and number of entries are within the store's limits. It keeps entries as they were, keeps the
-- limits, adds nothing, and takes no entry that is younger than one it leaves.
pub evict_locked-IsEvicted : (s : Store) → IsConsistent s.index → IsEvicted s (evict_locked s)
unfolding evict_locked
evict_locked-IsEvicted s c =
    let n = length s.index.entries in
    record {
      consistent = evict-IsConsistent n s c;
      within = evict-IsWithin n s c (omega arith);
      eviction = evict-IsEviction n s c;
      limits = (evict-weight-le bytes_of n s c).1;
      weights = λ w. (evict-weight-le w n s c).0;
    }
