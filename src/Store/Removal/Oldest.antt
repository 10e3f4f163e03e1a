-- ===== src/Store/Removal/Oldest.antt =====
-- The entry that eviction takes (src/store.rs) is one of the oldest.
-- entries.
use typst_mcp.Common.{
  ◌≤◌, ◌≡◌, refl, sym, inl, inr, none, some, [], ◌∷◌, arith, ltb, if◌then◌else◌, Bool-cases, All,
  Has, Has-All,
}
use mathlib.Core.Path.{subst}
use typst_mcp.Common.Table
use typst_mcp.Common.Table.{Table, get-remove}
use typst_mcp.Common.Table.Weight.{HasUniqueKeys, get-of_Has, Has-of_get}
use typst_mcp.Store.{Entry, EntryKey, entry_key}
use typst_mcp.Store.Removal.{oldest, oldest_from}

skip_second :
    {x : EntryKey × Entry} (a b : EntryKey × Entry) (m : Table EntryKey Entry)
    → Has x (a ∷ m)
    → Has x (a ∷ b ∷ m)
skip_second a b m (inl e) = inl e
skip_second a b m (inr h) = inr (inr h)

-- The key stands in the list with an entry that none in the list precedes.
abbrev IsLeast : EntryKey → Table EntryKey Entry → Type 0
IsLeast k m = (b : Entry) × Has (k, b) m × All (λ x. b.created_at ≤ x.1.created_at) m

oldest_from-cons :
    (k : EntryKey) (e : Entry) (k' : EntryKey) (e' : Entry) (m : Table EntryKey Entry)
    → oldest_from k e ((k', e') ∷ m)
      ≡ (if ltb e'.created_at e.created_at then oldest_from k' e' m else oldest_from k e m)
unfolding oldest_from
oldest_from-cons k e k' e' m = refl

oldest_from-IsLeast :
    (k : EntryKey) (e : Entry) (m : Table EntryKey Entry) → IsLeast (oldest_from k e m) ((k, e) ∷ m)
oldest_from-IsLeast k e [] = unfold oldest_from in (e, inl refl, (omega arith, tt))
oldest_from-IsLeast k e ((k', e') ∷ m) =
    let all = (k, e) ∷ (k', e') ∷ m in
    let step = oldest_from-cons k e k' e' m in
    elim (Bool-cases (ltb e'.created_at e.created_at)) [
      | inl younger ↦
          let (b, found, least) = oldest_from-IsLeast k' e' m in
          subst (λ x. IsLeast x all) (sym (rw younger at step))
            (b, inr found, (ground (arith, least.0), least))
      | inr older ↦
          let (b, found, least) = oldest_from-IsLeast k e m in
          subst (λ x. IsLeast x all) (sym (rw older at step))
            (b, skip_second (k, e) (k', e') m found, (least.0, (ground (arith, least.0), least.1)))
    ]

-- No entry of the table is older than the one under the key.
abbrev pub IsOldest : EntryKey → Table EntryKey Entry → Type 0
IsOldest k m =
    (e : Entry) × (Table.get k m ≡ some e)
    × ((j : EntryKey) (d : Entry) → Table.get j m ≡ some d → e.created_at ≤ d.created_at)

pub oldest-IsOldest :
    (m : Table EntryKey Entry) (k : EntryKey) → HasUniqueKeys m → oldest m ≡ some k → IsOldest k m
unfolding oldest
oldest-IsOldest [] k u h = absurd (ground arith)
oldest-IsOldest ((j, e) ∷ m) k u h =
    let same : oldest_from j e m ≡ k = ground arith in
    let (b, found, least) = subst (λ x. IsLeast x ((j, e) ∷ m)) same (oldest_from-IsLeast j e m) in
    (
      b,
      get-of_Has k b ((j, e) ∷ m) u found,
      λ i d f.
          Has-All (λ x. b.created_at ≤ x.1.created_at) (i, d) ((j, e) ∷ m) least
            (Has-of_get i d ((j, e) ∷ m) f),
    )

pub oldest-none : (m : Table EntryKey Entry) → oldest m ≡ none → m ≡ []
unfolding oldest
oldest-none [] h = refl
oldest-none ((j, e) ∷ m) h = ground arith
