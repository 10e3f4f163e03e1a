-- ===== src/Principal/Keys/Config.antt =====
-- What a configuration of API keys that is accepted guarantees (src/principal.rs).
use typst_mcp.Common.{
  ℕ, ◌+◌, ◌≤◌, ◌≡◌, ◌≢◌, inl, inr, true, false, List, [], ◌∷◌, ◌++◌, arith, Bool-cases,
  Option-cases, All, any, all, AreDistinct, ok, bind-eq-ok,
}
use typst_mcp.Common.Lists.{All-append, AreDistinct-snoc}
use typst_mcp.Common.Text.{Str, bytes, len, trim, split, split_once, is_empty}
use typst_mcp.Common.Text.Laws.{str_eq_iff}
use typst_mcp.Principal.{min_api_key_bytes, max_api_key_label_bytes}
use typst_mcp.Principal.Keys.{
  ApiKey, is_malformed, is_label_byte, contains, check_parts, parse_key, parse_entries, parse_keys,
}

not-mem-cons :
    (s t : List ℕ) (set : List (List ℕ))
    → contains s (t ∷ set) ≡ false
    → (t ≢ s) × (contains s set ≡ false)
unfolding contains any
not-mem-cons s t set h = (ground (arith, str_eq_iff t s), ground arith)

-- The set holds the `f` of every key that was read.
abbrev Covers : (ApiKey → List ℕ) → List (List ℕ) → List ApiKey → Type 0
Covers f set keys = (s : List ℕ) → contains s set ≡ false → All (λ k. f k ≢ s) keys

Covers-snoc :
    (f : ApiKey → List ℕ) (set : List (List ℕ)) (keys : List ApiKey) (key : ApiKey)
    → Covers f set keys
    → Covers f (f key ∷ set) (keys ++ key ∷ [])
Covers-snoc f set keys key h s e =
    let (ne, rest) = not-mem-cons s (f key) set e in
    All-append (λ k. f k ≢ s) keys (key ∷ []) (h s rest) (ne, tt)

-- A key as the configuration may give it.
pub record IsSound (key : ApiKey) : Type 0 where
  pub labelled : key.label ≢ []
  pub simple : all is_label_byte (bytes key.label) ≡ true
  pub short : len key.label ≤ max_api_key_label_bytes
  pub long : min_api_key_bytes ≤ len key.secret
  pub trimmed : trim key.secret ≡ key.secret

check_parts-IsSound :
    (sha256 : List ℕ → List ℕ) (hex : List ℕ → Str) (label secret : Str) (position : ℕ)
    (key : ApiKey)
    → check_parts sha256 hex label secret position ≡ ok key
    → IsSound key
unfolding check_parts is_malformed
check_parts-IsSound sha256 hex label secret position key h =
    ground (arith, str_eq_iff (trim secret) secret)

parse_key-IsSound :
    (sha256 : List ℕ → List ℕ) (hex : List ℕ → Str) (entry : Str) (position : ℕ) (key : ApiKey)
    → parse_key sha256 hex entry position ≡ ok key
    → IsSound key
unfolding parse_key
parse_key-IsSound sha256 hex entry position key h =
    elim (Option-cases (split_once b':' (trim entry))) [
      | inl e ↦ absurd (ground (arith, e))
      | inr (parts, e) ↦
          check_parts-IsSound sha256 hex parts.0 parts.1 position key (ground (arith, e))
    ]

-- What `ApiKeys::parse` guarantees of the keys that it returns.
pub record AreSound (sha256 : List ℕ → List ℕ) (keys : List ApiKey) : Type 0 where
  pub sound : All IsSound keys
  pub labels : AreDistinct (λ k. k.label) keys
  pub secrets : AreDistinct (λ k. sha256 (bytes k.secret)) keys

module _ (sha256 : List ℕ → List ℕ) (hex : List ℕ → Str) where
  abbrev digest : ApiKey → List ℕ
  digest k = sha256 (bytes k.secret)

  parse_entries-AreSound :
      (index : ℕ) (entries : List Str) (labels : List Str) (secrets : List (List ℕ))
      (keys result : List ApiKey)
      → AreSound sha256 keys
      → Covers (λ k. k.label) labels keys
      → Covers digest secrets keys
      → parse_entries sha256 hex index entries labels secrets keys ≡ ok result
      → AreSound sha256 result
  unfolding parse_entries
  parse_entries-AreSound index [] labels secrets keys result a c d h = ground arith
  parse_entries-AreSound index (e ∷ es) labels secrets keys result a c d h =
      let (key, parsed, more) = bind-eq-ok (parse_key sha256 hex e (index + 1)) _ h in
      let new_label : contains key.label labels ≡ false = ground arith in
      let new_secret : contains (digest key) secrets ≡ false = ground arith in
      parse_entries-AreSound (index + 1) es (key.label ∷ labels) (digest key ∷ secrets)
        (keys ++ key ∷ []) result
        record {
          sound =
              All-append IsSound keys (key ∷ []) a.sound
                (parse_key-IsSound sha256 hex e (index + 1) key parsed, tt);
          labels = AreDistinct-snoc (λ k. k.label) keys key a.labels (c key.label new_label);
          secrets = AreDistinct-snoc digest keys key a.secrets (d (digest key) new_secret);
        }
        (Covers-snoc (λ k. k.label) labels keys key c) (Covers-snoc digest secrets keys key d)
        (ground arith)

  -- In a configuration that is accepted every label is a simple text of 1 to 64 bytes, every secret
  -- has at least 32 bytes and no space around it, no two keys share a label and no two keys have
  -- secrets of the same digest.
  pub parse_keys-AreSound :
      (value : Str) (keys : List ApiKey)
      → parse_keys sha256 hex value ≡ ok keys
      → AreSound sha256 keys
  unfolding parse_keys
  parse_keys-AreSound value keys h = elim (Bool-cases (is_empty (trim value))) [
    | inl e ↦ ground (arith, e)
    | inr e ↦
        parse_entries-AreSound 0 (split b',' value) [] [] [] keys
          (record { sound = tt; labels = tt; secrets = tt }) (λ s _. tt) (λ s _. tt)
          (ground (arith, e))
  ]
