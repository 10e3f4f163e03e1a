-- ===== src/Auth/Doors.antt =====
-- Who passes the doors of src/auth.rs.
mod Tests
use typst_mcp.Common.{
  ℕ, zero, suc, ◌+◌, ◌-◌, ◌*◌, ◌/◌, ◌%◌, ◌^◌, ◌≤◌, ◌<◌, ◌≡◌, refl, sym, ap, ◌∙◌, ◌≢◌, ◌↔◌, ◌⊎◌, inl,
  inr, Bool, true, false, ◌&&◌, ◌||◌, Option, none, some, List, [], ◌∷◌, ◌++◌, map, arith, ltb, leb,
  ◌==◌, if◌then◌else◌, not, Bool-cases, Option-cases, is_some, is_none, length, All, any, all, sum,
  Has, Has-All, AreDistinct, take, drop, get_or, Result, ok, err, ◌>>=◌, ok_or, map_err, bind-eq-ok,
  map_err-eq-ok, Result-cases, if-cases, unwrap_or,
}
use mathlib.Core.Path.{subst}
use typst_mcp.Common.Errors.{ok_or-eq-ok}
use typst_mcp.Common.Text.{Str, lit, bytes, is_empty, trim_start, split_once, eq_ignore_ascii_case}
use typst_mcp.Principal.{Principal}
use typst_mcp.Principal.Keys
use typst_mcp.Principal.Keys.{ApiKey}
use typst_mcp.Principal.Keys.Config.{AreSound}
use typst_mcp.Principal.Keys.Matching.{authenticate_iff}
use typst_mcp.Auth.{
  Authenticated, AuthError, missing, malformed, rejected, unavailable, metric_reason, credential_of,
  bearer, counted, check_key, authenticate_key,
}

-- A header that carries a credential behind the scheme `Bearer`, in any case, and one or more
-- spaces.
pub record IsBearer (to_str : List ℕ → Option Str) (header : Option (List ℕ)) (credential : Str)
    : Type 0 where
  pub raw : List ℕ
  pub scheme : Str
  pub rest : Str
  pub value : Str
  pub there : header ≡ some raw
  pub readable : to_str raw ≡ some value
  pub parts : split_once b' ' value ≡ some (scheme, rest)
  pub bearer_scheme : eq_ignore_ascii_case scheme (lit "bearer") ≡ true
  pub behind : credential ≡ trim_start rest
  pub filled : credential ≢ []

module _ (to_str : List ℕ → Option Str) (sha256 : List ℕ → List ℕ) where
  bearer-IsBearer :
      (header : Option (List ℕ)) (credential : Str)
      → bearer to_str header ≡ ok credential
      → IsBearer to_str header credential
  unfolding bearer credential_of
  bearer-IsBearer none credential h = absurd (cc h)
  bearer-IsBearer (some raw) credential h = elim (Option-cases (to_str raw)) [
    | inl n ↦ absurd (ground arith)
    | inr (value, n) ↦ elim (Option-cases (split_once b' ' value)) [
      | inl m ↦ absurd (ground arith)
      | inr ((scheme, rest), m) ↦ record {
        raw = raw;
        scheme = scheme;
        rest = rest;
        value = value;
        there = refl;
        readable = n;
        parts = m;
        bearer_scheme = ground arith;
        behind = ground arith;
        filled = ground arith;
      }
    ]
  ]

  check_key-eq-ok :
      (keys : List ApiKey) (header : Option (List ℕ)) (a : Authenticated)
      → AreSound sha256 keys
      → check_key to_str sha256 keys header ≡ ok a
      → (key : ApiKey) × (credential : Str) × IsBearer to_str header credential
        × Has key keys
        × (sha256 (bytes key.secret) ≡ sha256 (bytes credential))
        × (a ≡ record { principal = Keys.principal key; fingerprint = key.fingerprint })
  unfolding check_key
  check_key-eq-ok keys header a sound h = elim (Result-cases (bearer to_str header)) [
    | inr (e, bad) ↦ absurd (ground arith)
    | inl (credential, good) ↦ elim (Option-cases (Keys.authenticate sha256 keys credential)) [
      | inl n ↦ absurd (ground arith)
      | inr (key, n) ↦
          let (there, same) = (authenticate_iff sha256 keys credential key sound).0 n in
          (key, credential, bearer-IsBearer header credential good, there, same, ground arith)
    ]
  ]

  -- With a sound configuration, a caller that passes the door of the API keys carries a bearer
  -- credential with the digest of a configured key, is taken for this key's service, and is not
  -- counted as a failure; one that does not pass is counted once, under the reason of its error.
  pub authenticate_key_lem :
      (keys : List ApiKey) (header : Option (List ℕ)) (metrics : List Str)
      → AreSound sha256 keys
      → let (result, metrics') = authenticate_key to_str sha256 keys header metrics in
        ((a : Authenticated) × (key : ApiKey) × (credential : Str) × (result ≡ ok a)
          × IsBearer to_str header credential
          × Has key keys
          × (sha256 (bytes key.secret) ≡ sha256 (bytes credential))
          × (a ≡ record { principal = Keys.principal key; fingerprint = key.fingerprint })
          × (metrics' ≡ metrics))
        ⊎ ((e : AuthError) × (result ≡ err e) × (metrics' ≡ metrics ++ metric_reason e ∷ []))
  unfolding authenticate_key counted
  authenticate_key_lem keys header metrics sound =
      elim (Result-cases (check_key to_str sha256 keys header)) [
        | inr (e, bad) ↦ inr (e, rw (bad, authenticate_key) refl, rw (bad, authenticate_key) refl)
        | inl (a, good) ↦
            let (key, credential, b, there, same, shape) =
              check_key-eq-ok keys header a sound good in
            inl (
              a,
              key,
              credential,
              rw (good, authenticate_key) refl,
              b,
              there,
              same,
              shape,
              rw (good, authenticate_key) refl,
            )
      ]
