-- ===== src/Store.antt =====
-- src/store.rs: tenant-partitioned storage, with its index, quotas and evictions. The disk is a
-- table of directories; the clock, the random part of a new id and the failures of the file system
-- are arguments.
pub mod Dirs
pub mod Ids
pub mod Removal
pub mod Operations
use typst_mcp.Common.{
  ℕ, zero, suc, ◌+◌, ◌-◌, ◌*◌, ◌/◌, ◌%◌, ◌^◌, ◌≤◌, ◌<◌, ◌≡◌, refl, sym, ap, ◌∙◌, ◌≢◌, ◌↔◌, ◌⊎◌, inl,
  inr, Bool, true, false, ◌&&◌, ◌||◌, Option, none, some, List, [], ◌∷◌, ◌++◌, map, arith, ltb, leb,
  ◌==◌, if◌then◌else◌, not, Bool-cases, Option-cases, is_some, is_none, length, All, any, all, sum,
  Has, Has-All, AreDistinct, take, drop, get_or, Result, ok, err, ◌>>=◌, ok_or, map_err, bind-eq-ok,
  map_err-eq-ok,
}
use typst_mcp.Common.Key.{Key}
use typst_mcp.Common.Text.{Str, str_eq}
use typst_mcp.Common.Text.Laws.{str_eq_iff}
use typst_mcp.Common.Table.{Table}
use typst_mcp.Principal.{TenantId}

pub data Kind : Type 0 where
  output asset template : Kind

abbrev pub kind_eq : Kind → Kind → Bool
kind_eq output output = true
kind_eq asset asset = true
kind_eq template template = true
kind_eq _ _ = false

pub record Limits : Type 0 where
  pub output_ttl : ℕ
  pub asset_ttl : ℕ
  pub template_ttl : ℕ
  pub max_tenant_bytes : ℕ
  pub max_store_bytes : ℕ
  pub max_tenant_entries : ℕ
  pub max_store_entries : ℕ

-- `Limits::ttl`, in seconds.
abbrev pub ttl : Limits → Kind → ℕ
ttl l output = l.output_ttl
ttl l asset = l.asset_ttl
ttl l template = l.template_ttl

pub data StoreError : Type 0 where
  not_found expired bad_id : Kind → Str → StoreError
  tenant_full : (size limit : ℕ) → StoreError
  tenant_entries_full : (limit : ℕ) → StoreError
  io : StoreError

pub data AssetRole : Type 0 where
  image font file : AssetRole

pub record Meta : Type 0 where
  pub filename : Option Str
  pub content_type : Option Str
  pub asset_role : Option AssetRole

pub record Entry : Type 0 where
  pub id : Str
  pub kind : Kind
  pub bytes : ℕ
  pub created_at : ℕ
  pub expires_at : ℕ
  pub filename : Option Str
  pub content_type : Option Str
  pub asset_role : Option AssetRole

-- `Entry::is_expired`.
abbrev pub is_expired : Entry → ℕ → Bool
is_expired e now = leb e.expires_at now

-- The key of an entry: `(TenantId, Kind, String)`.
pub record EntryKey : Type 0 where
  pub tenant : TenantId
  pub kind : Kind
  pub id : Str

unfoldable pub tenant_eq : TenantId → TenantId → Bool
tenant_eq t u = str_eq t.text u.text

pub tenant_eq_iff : (t u : TenantId) → (tenant_eq t u ≡ true) ↔ (t ≡ u)
unfolding tenant_eq
tenant_eq_iff t u =
    (λ h. ground (arith, str_eq_iff t.text u.text), λ e. ground (arith, str_eq_iff t.text u.text))

instance abbrev pub tenant_key : Key TenantId
tenant_key = record { beq = tenant_eq; beq_iff = tenant_eq_iff }

unfoldable pub key_eq : EntryKey → EntryKey → Bool
key_eq j k = tenant_eq j.tenant k.tenant && kind_eq j.kind k.kind && str_eq j.id k.id

pub kind_eq_iff : (j k : Kind) → (kind_eq j k ≡ true) ↔ (j ≡ k)
kind_eq_iff j k = ground arith

pub key_eq_iff : (j k : EntryKey) → (key_eq j k ≡ true) ↔ (j ≡ k)
unfolding key_eq
key_eq_iff j k = (
  λ h.
      ground
        (arith, tenant_eq_iff j.tenant k.tenant, kind_eq_iff j.kind k.kind, str_eq_iff j.id k.id),
  λ e.
      ground
        (arith, tenant_eq_iff j.tenant k.tenant, kind_eq_iff j.kind k.kind, str_eq_iff j.id k.id),
)

instance abbrev pub entry_key : Key EntryKey
entry_key = record { beq = key_eq; beq_iff = key_eq_iff }

-- The accounting.
pub record Index : Type 0 where
  pub entries : Table EntryKey Entry
  pub per_tenant : Table TenantId ℕ
  pub per_tenant_entries : Table TenantId ℕ
  pub total : ℕ

-- A directory is the list of the components of its path, the first of which is `/` if that is
-- absolute; its files are named bytes.
abbrev pub Dir : Type 0
Dir = List Str

abbrev pub Files : Type 0
Files = Table Str (List ℕ)

-- What the removal of a directory leaves of its files: nothing, or what a failed one leaves.
abbrev pub Leftover : Type 0
Leftover = Dir → Files → Option Files

pub record Store : Type 0 where
  pub root : Dir
  pub limits : Limits
  pub index : Index
  pub disk : Table Dir Files
  pub leftover : Leftover
  pub expired_evictions : ℕ
  pub quota_evictions : ℕ
