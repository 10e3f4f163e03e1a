-- ===== src/Render/Requests/Assets.antt =====
-- What `load_assets` of src/render.rs checks before it reads a file.
mod Tests
use typst_mcp.Common.{
  ℕ, zero, suc, ◌+◌, ◌-◌, ◌*◌, ◌/◌, ◌%◌, ◌^◌, ◌≤◌, ◌<◌, ◌≡◌, refl, sym, ap, ◌∙◌, ◌≢◌, ◌↔◌, ◌⊎◌, inl,
  inr, Bool, true, false, ◌&&◌, ◌||◌, Option, none, some, List, [], ◌∷◌, ◌++◌, map, arith, ltb, leb,
  ◌==◌, if◌then◌else◌, not, Bool-cases, Option-cases, is_some, is_none, length, All, any, all, sum,
  Has, Has-All, AreDistinct, take, drop, get_or, Result, ok, err, ◌>>=◌, ok_or, map_err, bind-eq-ok,
  map_err-eq-ok, Result-cases, if-cases, unwrap_or,
}
use mathlib.Core.Path.{subst}
use typst_mcp.Common.Lists.{All-map}
use typst_mcp.Common.Text.{Str, str_eq}
use typst_mcp.Common.Text.Laws.{str_eq_iff}
use typst_mcp.Bundle.{max_files, FileContent, BundleFile, BundleError}
use typst_mcp.Principal.{TenantId}
use typst_mcp.Store.{asset, Entry, Store}
use typst_mcp.Store.Operations
use typst_mcp.Store.Operations.{entry}
use typst_mcp.Templates.Archive.{saturating_add}
use typst_mcp.Render.{RenderError}
use typst_mcp.Render.Requests.{contains, preflight, read_assets, load_assets}

-- An id that stands nowhere in the list.
abbrev IsNew : Str → List Str → Type 0
IsNew id seen = All (λ s. s ≢ id) seen

contains-IsNew : (id : Str) (seen : List Str) → contains id seen ≡ false → IsNew id seen
unfolding contains any
contains-IsNew id [] h = tt
contains-IsNew id (s ∷ seen) h =
    (λ e. cc ((str_eq_iff s id).1 e, h), contains-IsNew id seen (ground (arith, h)))

length-map : {A B : Type 0} (f : A → B) (xs : List A) → length (map f xs) ≡ length xs
length-map f [] = refl
length-map f (x ∷ xs) = ap suc (length-map f xs)

module _ (store : Store) (now : ℕ) (tenant : TenantId) (max_bundle_bytes : ℕ) where
  abbrev declared : List (Str × Entry) → ℕ
  declared entries = sum (map (λ p. p.1.bytes) entries)

  -- The entries of these ids: each a live asset of the tenant, none twice, and together no larger
  -- than the limit.
  pub record ArePreflighted (ids : List Str) (entries : List (Str × Entry)) : Type 0 where
    pub listed : map (λ p. p.0) entries ≡ ids
    pub live : All (λ p. entry store now tenant asset p.0 ≡ ok p.1) entries
    pub distinct : AreDistinct (λ id. id) ids
    pub small : declared entries ≤ max_bundle_bytes

  preflight-eq-ok :
      (ids seen : List Str) (total : ℕ) (entries : List (Str × Entry))
      → max_bundle_bytes < 2 ^ 64 - 1
      → total ≤ max_bundle_bytes
      → preflight store now tenant max_bundle_bytes ids seen total ≡ ok entries
      → (map (λ p. p.0) entries ≡ ids)
        × All (λ p. entry store now tenant asset p.0 ≡ ok p.1) entries
        × All (λ id. IsNew id seen) ids
        × AreDistinct (λ id. id) ids
        × (total + declared entries ≤ max_bundle_bytes)
  unfolding preflight
  preflight-eq-ok [] seen total entries room le h =
      let same : [] ≡ entries = cc h in rw (← same) (refl, tt, tt, tt, omega (arith, le))
  preflight-eq-ok (id ∷ ids) seen total entries room le h = elim (Bool-cases (contains id seen)) [
    | inl e ↦ absurd (cc (rw e at h))
    | inr e ↦
        let (found, live, h₁) =
          bind-eq-ok (map_err RenderError.store (entry store now tenant asset id)) _ (rw e at h) in
        elim (Bool-cases (ltb max_bundle_bytes (saturating_add total found.bytes))) [
          | inl f ↦ absurd (cc (rw f at h₁))
          | inr f ↦
              let exact : saturating_add total found.bytes ≡ total + found.bytes =
                ground (arith, f, room) in
              let within : saturating_add total found.bytes ≤ max_bundle_bytes =
                ground (arith, f) in
              let (rest, others, h₂) =
                bind-eq-ok
                  (preflight store now tenant max_bundle_bytes ids (id ∷ seen)
                    (saturating_add total found.bytes))
                  _ (rw f at h₁) in
              let (listed, all_live, fresh, distinct, small) =
                preflight-eq-ok ids (id ∷ seen) (saturating_add total found.bytes) rest room within
                  others in
              let same : (id, found) ∷ rest ≡ entries = cc h₂ in
              rw (← same) (
                ap (λ x. id ∷ x) listed,
                (map_err-eq-ok _ _ live, all_live),
                (
                  contains-IsNew id seen e,
                  All-map (λ x. IsNew x (id ∷ seen)) (λ x. IsNew x seen) ids (λ x n. n.1) fresh,
                ),
                (
                  All-map (λ x. IsNew x (id ∷ seen)) (λ x. x ≢ id) ids (λ x n e. n.0 (sym e)) fresh,
                  distinct,
                ),
                omega (arith, small, exact),
              )
        ]
  ]

  length-read_assets :
      (read_fails : Str → Bool) (entries : List (Str × Entry)) (files : List BundleFile)
      → read_assets store now read_fails tenant entries ≡ ok files
      → length files ≡ length entries
  unfolding read_assets
  length-read_assets read_fails [] files h = let same : [] ≡ files = cc h in rw (← same) refl
  length-read_assets read_fails ((id, e) ∷ entries) files h =
      let (b, got, h₁) =
        bind-eq-ok
          (map_err RenderError.store
            (Operations.get store now (read_fails id) tenant asset id (unwrap_or e.filename id)))
          _ h in
      let (rest, others, h₂) = bind-eq-ok (read_assets store now read_fails tenant entries) _ h₁ in
      let same : (record { path = unwrap_or e.filename id; content = FileContent.binary b }) ∷ rest
          ≡ files =
        cc h₂ in
      rw (← same) (ap suc (length-read_assets read_fails entries rest others))

  -- When assets are loaded, there were at most 64 ids and none twice, each is that of a live asset
  -- of the tenant, the sizes that the index has for them are together within the limit of a bundle,
  -- and each gives one file, provided the limit is below the largest number.
  pub load_assets-ArePreflighted :
      (read_fails : Str → Bool) (ids : List Str) (files : List BundleFile)
      → max_bundle_bytes < 2 ^ 64 - 1
      → load_assets store now read_fails tenant max_bundle_bytes ids ≡ ok files
      → (length ids ≤ max_files)
        × (length files ≡ length ids)
        × ((entries : List (Str × Entry)) × ArePreflighted ids entries)
  unfolding load_assets
  load_assets-ArePreflighted read_fails ids files room h =
      elim (Bool-cases (ltb max_files (length ids))) [
        | inl e ↦ absurd (cc (rw e at h))
        | inr e ↦
            let (entries, checked, h₁) =
              bind-eq-ok (preflight store now tenant max_bundle_bytes ids [] 0) _ (rw e at h) in
            let (listed, live, fresh, distinct, small) =
              preflight-eq-ok ids [] 0 entries room (omega arith) checked in
            let few : length ids ≤ max_files = ground (arith, e) in
            let one_each = length-read_assets read_fails entries files h₁ in
            (
              few,
              one_each ∙ sym (length-map (λ (p : Str × Entry). p.0) entries) ∙ ap length listed,
              (
                entries,
                record {
                  listed = listed;
                  live = live;
                  distinct = distinct;
                  small = omega (arith, small);
                },
              ),
            )
      ]
