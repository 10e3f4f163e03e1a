-- ===== src/Principal/Keys/Tests.antt =====
-- Concrete keys (src/principal.rs).
use typst_mcp.Common.{ℕ, ◌≡◌, refl, ◌↔◌, some, List, [], ◌∷◌, any, all, Has, ok}
use typst_mcp.Common.Text.{
  Str, lit, bytes, len, trim, trim_start, trim_end_matches, trim_start_matches, is_whitespace,
  split, split_once, str_eq, utf8,
}
use typst_mcp.Principal.Keys.{
  ApiKey, authenticate, parse_keys, parse_entries, parse_key, check_parts, is_malformed,
  is_label_byte, contains, fingerprint,
}
use typst_mcp.Principal.Keys.Config.{AreSound, parse_keys-AreSound}
use typst_mcp.Principal.Keys.Matching.{authenticate_iff}

abbrev sha256 : List ℕ → List ℕ
sha256 b = b

abbrev hex : List ℕ → Str
hex b = b

abbrev ci_key : ApiKey
ci_key = record {
  label = lit "ci";
  secret = lit "0123456789abcdef0123456789abcdef";
  fingerprint = lit "0123456789abcdef";
}

abbrev config : Str
config = lit " ci:0123456789abcdef0123456789abcdef"

config_parses : parse_keys sha256 hex config ≡ ok (ci_key ∷ [])
unfolding parse_keys parse_entries parse_key check_parts is_malformed is_label_byte contains
    fingerprint trim trim_start trim_end_matches trim_start_matches is_whitespace split split_once
    str_eq len bytes utf8 all any
config_parses = refl

parse_keys-AreSound_example : AreSound sha256 (ci_key ∷ [])
parse_keys-AreSound_example = parse_keys-AreSound sha256 hex config (ci_key ∷ []) config_parses

authenticate_iff_example :
    (authenticate sha256 (ci_key ∷ []) (lit "guess") ≡ some ci_key)
    ↔ (Has ci_key (ci_key ∷ []) × (sha256 (bytes ci_key.secret) ≡ sha256 (bytes (lit "guess"))))
authenticate_iff_example =
    authenticate_iff sha256 (ci_key ∷ []) (lit "guess") ci_key
      (parse_keys-AreSound sha256 hex config (ci_key ∷ []) config_parses)
