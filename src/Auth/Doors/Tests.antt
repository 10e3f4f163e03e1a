-- ===== src/Auth/Doors/Tests.antt =====
-- A concrete caller at the door of the API keys (src/auth.rs).
use typst_mcp.Common.{
  ℕ, ◌≡◌, refl, ◌⊎◌, Option, some, List, [], ◌∷◌, ◌++◌, arith, all, Has, ok, err,
}
use typst_mcp.Common.Text.{
  Str, lit, bytes, len, utf8, trim, trim_start, trim_end_matches, trim_start_matches, is_whitespace,
}
use typst_mcp.Principal.Keys
use typst_mcp.Principal.Keys.{ApiKey, is_label_byte}
use typst_mcp.Principal.Keys.Config.{IsSound, AreSound}
use typst_mcp.Auth.{Authenticated, AuthError, metric_reason, authenticate_key}
use typst_mcp.Auth.Doors.{IsBearer, authenticate_key_lem}

abbrev sha256 : List ℕ → List ℕ
sha256 b = b

abbrev to_str : List ℕ → Option Str
to_str b = some b

abbrev ci_key : ApiKey
ci_key = record {
  label = lit "ci";
  secret = lit "0123456789abcdef0123456789abcdef";
  fingerprint = lit "0123456789abcdef";
}

abbrev keys : List ApiKey
keys = ci_key ∷ []

ci_key-IsSound : IsSound ci_key
unfolding len bytes utf8 all is_label_byte trim trim_start trim_end_matches trim_start_matches
    is_whitespace
ci_key-IsSound = record {
  labelled = λ h. cc h;
  simple = refl;
  short = omega arith;
  long = omega arith;
  trimmed = refl;
}

keys-AreSound : AreSound sha256 keys
keys-AreSound = record { sound = (ci_key-IsSound, tt); labels = (tt, tt); secrets = (tt, tt) }

abbrev header : Option (List ℕ)
header = some (lit "bearer 0123456789abcdef0123456789abcdef")

authenticate_key_lem_example :
    let (result, metrics') = authenticate_key to_str sha256 keys header [] in
    ((a : Authenticated) × (key : ApiKey) × (credential : Str) × (result ≡ ok a)
      × IsBearer to_str header credential
      × Has key keys
      × (sha256 (bytes key.secret) ≡ sha256 (bytes credential))
      × (a ≡ record { principal = Keys.principal key; fingerprint = key.fingerprint })
      × (metrics' ≡ []))
    ⊎ ((e : AuthError) × (result ≡ err e) × (metrics' ≡ [] ++ metric_reason e ∷ []))
authenticate_key_lem_example = authenticate_key_lem to_str sha256 keys header [] keys-AreSound
