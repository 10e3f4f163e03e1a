-- ===== src/Store/Ids/Laws.antt =====
-- The names that reach the file system (src/store.rs) are safe path segments, and different keys have
-- different directories.
use typst_mcp.Common.{
  ℕ, ap, ◌≡◌, refl, sym, ◌∙◌, ◌≢◌, inl, inr, true, false, ◌||◌, [], ◌∷◌, ◌++◌, arith, Bool-cases,
  Option-cases, all, ok,
}
use typst_mcp.Common.Text.{
  Str, lit, split, strip_prefix, is_ascii_alphanumeric, starts_with_char, is_empty,
}
use typst_mcp.Common.Text.Laws.{all-bytes, eq_of_strip_prefix, str_eq_iff}
use typst_mcp.Common.Text.Split.{Lacks}
use typst_mcp.Store.{Kind, output, asset, template, Dir, EntryKey}
use typst_mcp.Store.Ids.{
  dir, prefix, is_ulid_shape, validate_id, is_safe, clean, safe_name, entry_dir, key_dir,
  components, join_path,
}

-- A name that stays in its directory: not empty, no leading dot, and only letters, digits, dots,
-- dashes and underscores.
pub record IsSegment (s : Str) : Type 0 where
  pub filled : s ≢ []
  pub visible : starts_with_char b'.' s ≡ false
  pub safe : all is_safe s ≡ true

all-clean : (s : Str) → all is_safe (clean s) ≡ true
unfolding clean all
all-clean [] = refl
all-clean (c ∷ s) = elim (Bool-cases (is_safe c)) [
  | inl e ↦ rw e (rw e (all-clean s))
  | inr e ↦ rw e (all-clean s)
]

-- Whatever the name, `safe_name` gives a plain segment: not empty, with no leading dot, and made of
-- letters, digits, dots, dashes and underscores.
pub safe_name-IsSegment : (name : Str) → IsSegment (safe_name name)
unfolding safe_name
safe_name-IsSegment name =
    let cleaned = clean name in
    elim (Bool-cases (is_empty cleaned || starts_with_char b'.' cleaned)) [
      | inl e ↦
          rw e (
            unfold all is_safe in
            record { filled = λ h. ground arith; visible = refl; safe = refl })
      | inr e ↦ rw e record { filled = ground arith; visible = ground arith; safe = all-clean name }
    ]

-- A name that is safe already is kept.
clean-of_safe : (s : Str) → all is_safe s ≡ true → clean s ≡ s
unfolding clean all
clean-of_safe [] h = refl
clean-of_safe (c ∷ s) h = ground (arith, clean-of_safe s)

pub safe_name-of_IsSegment : (name : Str) → IsSegment name → safe_name name ≡ name
unfolding safe_name
safe_name-of_IsSegment name h = rw (clean-of_safe name h.safe) (ground (arith, h.visible, h.filled))

alphanumeric-is_safe : (s : Str) → all is_ascii_alphanumeric s ≡ true → all is_safe s ≡ true
unfolding all is_safe
alphanumeric-is_safe [] h = refl
alphanumeric-is_safe (c ∷ s) h = ground (arith, alphanumeric-is_safe s)

validate_id_lem :
    (kind : Kind) (id id' : Str)
    → validate_id kind id ≡ ok id'
    → (id' ≡ id) × ((body : Str) × (id ≡ prefix kind ++ body) × (is_ulid_shape body ≡ true))
unfolding validate_id
validate_id_lem kind id id' h = elim (Option-cases (strip_prefix (prefix kind) id)) [
  | inl e ↦ absurd (ground (arith, e))
  | inr (body, e) ↦
      (ground (arith, e), (body, eq_of_strip_prefix (prefix kind) id body e, ground (arith, e)))
]

prefix_inj : (j k : Kind) (s t : Str) → prefix j ++ s ≡ prefix k ++ t → j ≡ k
unfolding prefix
prefix_inj output output s t e = refl
prefix_inj output asset s t e = ground arith
prefix_inj output template s t e = ground arith
prefix_inj asset output s t e = ground arith
prefix_inj asset asset s t e = refl
prefix_inj asset template s t e = ground arith
prefix_inj template output s t e = ground arith
prefix_inj template asset s t e = ground arith
prefix_inj template template s t e = refl

prefix-IsSegment : (kind : Kind) (s : Str) → all is_safe s ≡ true → IsSegment (prefix kind ++ s)
unfolding prefix all is_safe
prefix-IsSegment output s h = record { filled = ground arith; visible = refl; safe = h }
prefix-IsSegment asset s h = record { filled = ground arith; visible = refl; safe = h }
prefix-IsSegment template s h = record { filled = ground arith; visible = refl; safe = h }

is_ulid_shape-safe : (body : Str) → is_ulid_shape body ≡ true → all is_safe body ≡ true
unfolding is_ulid_shape
is_ulid_shape-safe body h =
    let same = all-bytes is_ascii_alphanumeric (λ c big. ground arith) body in
    alphanumeric-is_safe body (ground (arith, same))

-- An id that is accepted is returned as it is, is a plain segment of a path, and is accepted for no
-- other kind.
pub validate_id-IsSegment :
    (kind : Kind) (id id' : Str)
    → validate_id kind id ≡ ok id'
    → (id' ≡ id) × IsSegment id × ((kind' : Kind) → kind' ≢ kind → validate_id kind' id ≢ ok id)
validate_id-IsSegment kind id id' h =
    let (same, (body, shape, ulid)) = validate_id_lem kind id id' h in
    (
      same,
      rw shape (prefix-IsSegment kind body (is_ulid_shape-safe body ulid)),
      λ kind' differ accepted.
          let (_, (body', shape', _)) = validate_id_lem kind' id id accepted in
          differ (prefix_inj kind' kind body' body (sym shape' ∙ shape)),
    )

split-of_Lacks : (c : ℕ) (s : Str) → Lacks c s → split c s ≡ s ∷ []
unfolding split
split-of_Lacks c [] h = refl
split-of_Lacks c (d ∷ s) h = ground (arith, split-of_Lacks c s h.1, h.0)

starts_with_char-of_Lacks : (s : Str) → Lacks b'/' s → starts_with_char b'/' s ≡ false
starts_with_char-of_Lacks [] h = refl
starts_with_char-of_Lacks (c ∷ s) h = ground (arith, h.0)

append_assoc_three :
    (root : Dir) (a b c : Str) → ((root ++ a ∷ []) ++ b ∷ []) ++ c ∷ [] ≡ root ++ a ∷ b ∷ c ∷ []
append_assoc_three [] a b c = refl
append_assoc_three (s ∷ root) a b c = ap (λ r. s ∷ r) (append_assoc_three root a b c)

dir_inj : (j k : Kind) → dir j ≡ dir k → j ≡ k
unfolding dir
dir_inj j k e = ground arith

-- A text without a slash that is not empty and not a single dot is one component.
join_path-component :
    (base : Dir) (s : Str) → Lacks b'/' s → s ≢ [] → s ≢ lit "." → join_path base s ≡ base ++ s ∷ []
unfolding join_path components
join_path-component base s lacks filled dotted =
    rw (split-of_Lacks b'/' s lacks)
      (ground (arith, str_eq_iff s (lit "."), starts_with_char-of_Lacks s lacks))

IsSegment-Lacks : (s : Str) → all is_safe s ≡ true → Lacks b'/' s
unfolding all is_safe
IsSegment-Lacks [] h = tt
IsSegment-Lacks (c ∷ s) h = (ground (arith, h), IsSegment-Lacks s (ground (arith, h)))

-- A key under which the store can have put an entry: no slash stands in the tenant id, and the id is
-- one that the store accepts for the kind.
pub record IsPlaced (k : EntryKey) : Type 0 where
  pub tenant : Lacks b'/' k.tenant.text
  pub id : validate_id k.kind k.id ≡ ok k.id

dir-Lacks : (kind : Kind) → Lacks b'/' (dir kind)
unfolding dir
dir-Lacks output = ground arith
dir-Lacks asset = ground arith
dir-Lacks template = ground arith

dir-ne : (kind : Kind) → (dir kind ≢ []) × (dir kind ≢ lit ".")
unfolding dir
dir-ne output = (λ h. ground (arith, h), λ h. ground (arith, h))
dir-ne asset = (λ h. ground (arith, h), λ h. ground (arith, h))
dir-ne template = (λ h. ground (arith, h), λ h. ground (arith, h))

-- The directory of such a key is three components below the root.
key_dir_lem :
    (root : Dir) (k : EntryKey)
    → IsPlaced k
    → key_dir root k ≡ root ++ (lit "t_" ++ k.tenant.text) ∷ dir k.kind ∷ k.id ∷ []
unfolding entry_dir
key_dir_lem root k p =
    let (_, segment, _) = validate_id-IsSegment k.kind k.id k.id p.id in
    let tenant = lit "t_" ++ k.tenant.text in
    let one : join_path root tenant ≡ root ++ tenant ∷ [] =
      join_path-component root tenant (ground arith, (ground arith, p.tenant))
        (λ h. ground (arith, h)) (λ h. ground (arith, h)) in
    let two =
      join_path-component (root ++ tenant ∷ []) (dir k.kind) (dir-Lacks k.kind) (dir-ne k.kind).0
        (dir-ne k.kind).1 in
    let three =
      join_path-component ((root ++ tenant ∷ []) ++ dir k.kind ∷ []) k.id
        (IsSegment-Lacks k.id segment.safe) segment.filled
        (λ h. absurd (cc (rw h at segment.visible))) in
    rw (one, two, three) (append_assoc_three root tenant (dir k.kind) k.id)

components_inj :
    (root : Dir) (j k : EntryKey)
    → root ++ (lit "t_" ++ j.tenant.text) ∷ dir j.kind ∷ j.id ∷ []
      ≡ root ++ (lit "t_" ++ k.tenant.text) ∷ dir k.kind ∷ k.id ∷ []
    → j ≡ k
components_inj [] j k e = ground (arith, dir_inj j.kind k.kind)
components_inj (s ∷ root) j k e = ground (arith, components_inj root j k)

-- Below one root, different keys have different directories, if their ids are accepted and no slash
-- stands in their tenant ids.
pub key_dir_inj :
    (root : Dir) (j k : EntryKey)
    → IsPlaced j
    → IsPlaced k
    → key_dir root j ≡ key_dir root k
    → j ≡ k
key_dir_inj root j k p q e =
    components_inj root j k (sym (key_dir_lem root j p) ∙ e ∙ key_dir_lem root k q)
