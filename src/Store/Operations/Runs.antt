-- ===== src/Store/Operations/Runs.antt =====
-- Every run of the store (src/store.rs) keeps the invariant.
use typst_mcp.Common.{ℕ, ◌≡◌, refl, ◌∙◌, inl, inr, List, [], ◌∷◌, arith, Result-cases}
use typst_mcp.Common.Text.{Str}
use typst_mcp.Common.Table
use typst_mcp.Common.Table.{Table}
use typst_mcp.Principal.{TenantId}
use typst_mcp.Store.{
  Kind, Limits, Meta, Entry, EntryKey, tenant_key, entry_key, Store, Dir, Leftover,
}
use typst_mcp.Store.Ids.{validate_id}
use typst_mcp.Store.Removal.{drop_entry}
use typst_mcp.Store.Removal.Consistency.{bytes_of, tenant_bytes, tenant_entries}
use typst_mcp.Store.Removal.Dropping.{
  drop_entry-IsConsistent, weight-drop_entry-le, length-drop_entry-le, limits-drop_entry,
}
use typst_mcp.Store.Operations.{
  Faults, put_with_id, remove_live, check_live, delete, expired_keys, drop_all, reap,
}
use typst_mcp.Store.Operations.Puts.{IsSane, IsValid, put_with_id-IsValid}

drop_entry-IsValid : (s : Store) (k : EntryKey) → IsValid s → IsValid (drop_entry s k)
drop_entry-IsValid s k v =
    let c = drop_entry-IsConsistent s k v.consistent in
    let less = λ (w : EntryKey → Entry → ℕ). weight-drop_entry-le w s k v.consistent in
    let same = limits-drop_entry s k in
    record {
      consistent = c;
      within = record {
        bytes = rw same (omega (arith, c.total, v.consistent.total, less bytes_of, v.within.bytes));
        count = rw same (omega (arith, length-drop_entry-le s k v.consistent, v.within.count));
      };
      tenants = λ t.
          rw same (
            omega (arith, c.tenants t, v.consistent.tenants t, less (tenant_bytes t), v.tenants t));
      counts = λ t.
          rw same
            (omega (arith, c.counts t, v.consistent.counts t, less (tenant_entries t), v.counts t));
    }

-- Valid, and under the same limits as before.
abbrev Keeps : Store → Store → Type 0
Keeps s r = (r.limits ≡ s.limits) × IsValid r

drop_all-IsValid : (ks : List EntryKey) (s : Store) → IsValid s → Keeps s (drop_all ks s)
unfolding drop_all
drop_all-IsValid [] s v = (refl, v)
drop_all-IsValid (k ∷ ks) s v =
    let (same, valid) = drop_all-IsValid ks (drop_entry s k) (drop_entry-IsValid s k v) in
    (same ∙ limits-drop_entry s k, valid)

delete-IsValid :
    (s : Store) (now : ℕ) (t : TenantId) (kind : Kind) (id : Str)
    → IsValid s
    → Keeps s (delete s now t kind id).1
unfolding delete remove_live
delete-IsValid s now t kind id v = elim (Result-cases (validate_id kind id)) [
  | inr (e, bad) ↦ rw (bad, delete) (refl, v)
  | inl (id', good) ↦
      let k : EntryKey = record { tenant = t; kind = kind; id = id' } in
      elim (Result-cases (check_live s now k)) [
        | inr (e, gone) ↦ rw (good, delete) (rw (gone, remove_live) (refl, v))
        | inl (e, live) ↦
            rw (good, delete)
              (rw (live, remove_live) (limits-drop_entry s k, drop_entry-IsValid s k v))
      ]
]

reap-IsValid : (s : Store) (now : ℕ) → IsValid s → Keeps s (reap s now).1
unfolding reap
reap-IsValid s now v =
    let (same, w) = drop_all-IsValid (expired_keys now s.index.entries) s v in
    (
      same,
      record {
        consistent = w.consistent;
        within = w.within;
        tenants = w.tenants;
        counts = w.counts;
      },
    )

-- One call of an operation that changes the store: a put under a new or an existing id, with the
-- failures of the file system that it meets, a deletion, a round of the reaper, or its second half
-- alone, at keys that were collected before other calls came in between.
pub data Step (to_json : Entry → List ℕ) : Store → Store → Type 0 where
  puts :
      (s : Store) (faults : Faults) (now : ℕ) (t : TenantId) (kind : Kind) (id name : Str)
      (bytes : List ℕ) (meta : Meta)
      → Step to_json s (put_with_id to_json faults now s t kind id name bytes meta).1
  deletes :
      (s : Store) (now : ℕ) (t : TenantId) (kind : Kind) (id : Str)
      → Step to_json s (delete s now t kind id).1
  reaps : (s : Store) (now : ℕ) → Step to_json s (reap s now).1
  drops : (s : Store) (keys : List EntryKey) → Step to_json s (drop_all keys s)

pub data Reach (to_json : Entry → List ℕ) (s : Store) : Store → Type 0 where
  here : Reach to_json s s
  next : {t u : Store} → Reach to_json s t → Step to_json t u → Reach to_json s u

-- A store with nothing in it.
abbrev pub empty : Dir → Leftover → Limits → Store
empty root leftover limits = record {
  root = root;
  limits = limits;
  index = record { entries = []; per_tenant = []; per_tenant_entries = []; total = 0 };
  disk = [];
  leftover = leftover;
  expired_evictions = 0;
  quota_evictions = 0;
}

pub empty-IsValid :
    (root : Dir) (leftover : Leftover) (limits : Limits) → IsValid (empty root leftover limits)
unfolding Table.get
empty-IsValid root leftover limits = record {
  consistent = record { unique = tt; total = refl; tenants = λ t. refl; counts = λ t. refl };
  within = omega arith;
  tenants = λ t. omega arith;
  counts = λ t. omega arith;
}

Step-Keeps :
    {to_json : Entry → List ℕ} {s t : Store}
    → Step to_json s t
    → IsSane s.limits
    → IsValid s
    → Keeps s t
Step-Keeps {to_json = j} (puts s faults now t kind id name bytes meta) sane v =
    put_with_id-IsValid j faults now s t kind id name bytes meta sane v
Step-Keeps (deletes s now t kind id) sane v = delete-IsValid s now t kind id v
Step-Keeps (reaps s now) sane v = reap-IsValid s now v
Step-Keeps (drops s keys) sane v = drop_all-IsValid keys s v

Reach-Keeps :
    {to_json : Entry → List ℕ} {s t : Store}
    → IsSane s.limits
    → IsValid s
    → Reach to_json s t
    → Keeps s t
Reach-Keeps sane v here = (refl, v)
Reach-Keeps sane v (next r step) =
    let (same, w) = Reach-Keeps sane v r in
    let (same', w') = Step-Keeps step (rw same sane) w in (same' ∙ same, w')

-- In every store that a run reaches from the empty one, under limits that leave room in 64 bits, the
-- total, the bytes of each tenant and the entries of each tenant are what the entries add up to, and
-- none of them, nor the number of entries, exceeds its limit. The run may mix puts, deletions and
-- reaping, also where calls come in between the two halves of a round of the reaper, and the file
-- system may fail at any put and at any removal.
pub Reach-IsValid :
    (to_json : Entry → List ℕ) (root : Dir) (leftover : Leftover) (limits : Limits) (s : Store)
    → IsSane limits
    → Reach to_json (empty root leftover limits) s
    → (s.limits ≡ limits) × IsValid s
Reach-IsValid to_json root leftover limits s sane r =
    Reach-Keeps sane (empty-IsValid root leftover limits) r
