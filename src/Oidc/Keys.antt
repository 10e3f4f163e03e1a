-- ===== src/Oidc/Keys.antt =====
-- The signing keys of src/oidc.rs: the cache, the key ids that were not found, and the refreshes.
pub mod Inspection
pub mod Refreshing
mod Tests
use typst_mcp.Common.{
  ℕ, zero, suc, ◌+◌, ◌-◌, ◌*◌, ◌/◌, ◌%◌, ◌^◌, ◌≤◌, ◌<◌, ◌≡◌, refl, sym, ap, ◌∙◌, ◌≢◌, ◌↔◌, ◌⊎◌, inl,
  inr, Bool, true, false, ◌&&◌, ◌||◌, Option, none, some, List, [], ◌∷◌, ◌++◌, map, arith, ltb, leb,
  ◌==◌, if◌then◌else◌, not, Bool-cases, Option-cases, is_some, is_none, length, All, any, all, sum,
  Has, Has-All, AreDistinct, take, drop, get_or, Result, ok, err, ◌>>=◌, ok_or, map_err, bind-eq-ok,
  map_err-eq-ok, Result-cases, if-cases, unwrap_or,
}
use typst_mcp.Common.Text.{Str, lit, len, str_eq, trim_end_slashes}
use typst_mcp.Common.Key.{str_key}
use typst_mcp.Common.Table
use typst_mcp.Common.Table.{Table}
use typst_mcp.Common.Table.Retain.{retain}
use typst_mcp.Oidc.{
  jwks_ttl, jwks_refresh_interval, fetch_failure_backoff, unknown_kid_ttl, unknown_kid_cap,
  TokenError, token_provider_unavailable, OidcConfig,
}

-- `KeyCache`; a decoding key is of a type of another package.
pub record KeyCache (K : Type 0) : Type 0 where
  pub keys : Table Str K
  pub fetched_at : ℕ

pub record KeyState (K : Type 0) : Type 0 where
  pub cache : Option (KeyCache K)
  pub unknown_kids : Table Str ℕ
  pub last_failure : Option ℕ

-- What the clock shows at each of its readings in one call of `inspect_key_state`.
pub record Clock : Type 0 where
  pub now : ℕ
  pub ttl_read : ℕ
  pub interval_read : ℕ
  pub backoff_read : ℕ

abbrev pub is_recent : ℕ → Str → ℕ → Bool
is_recent now kid seen = ltb (now - seen) unknown_kid_ttl

-- The last test of `inspect_key_state`.
pub backs_off : Option ℕ → ℕ → Bool
backs_off none read = false
backs_off (some failed) read = ltb (read - failed) fetch_failure_backoff

module _ {K : Type 0} where
  -- `KeyState::default`.
  abbrev pub no_keys : KeyState K
  no_keys = record { cache = none; unknown_kids = []; last_failure = none }

  pub remember_unknown : KeyState K → Str → ℕ → KeyState K
  remember_unknown state kid now =
      if ltb (length state.unknown_kids) unknown_kid_cap
        || Table.contains_key kid state.unknown_kids
      then record state { unknown_kids = Table.insert kid now state.unknown_kids }
      else state

  pub after_cache : KeyState K → Clock → Option (Result (Option K) TokenError) × KeyState K
  unfolding backs_off
  after_cache state clock =
      if backs_off state.last_failure clock.backoff_read
      then (some (err token_provider_unavailable), state)
      else (none, state)

  -- What the cached keys answer.
  pub ask_cache :
      Option (KeyCache K)
      → KeyState K
      → Str
      → Clock
      → Option (Result (Option K) TokenError) × KeyState K
  unfolding remember_unknown after_cache
  ask_cache none state kid clock = after_cache state clock
  ask_cache (some cache) state kid clock =
      if ltb (clock.ttl_read - cache.fetched_at) jwks_ttl
      then elim (Table.get kid cache.keys) [
        | some key ↦ (some (ok (some key)), state)
        | none ↦
            if ltb (clock.interval_read - cache.fetched_at) jwks_refresh_interval
            then (some (ok none), remember_unknown state kid clock.now)
            else after_cache state clock
      ]
      else after_cache state clock

  -- `inspect_key_state`: a cached answer, or `none` when the caller should refresh.
  pub inspect_key_state :
      KeyState K → Str → Clock → Option (Result (Option K) TokenError) × KeyState K
  unfolding ask_cache retain
  inspect_key_state state kid clock =
      let swept = record state { unknown_kids = retain (is_recent clock.now) state.unknown_kids } in
      if Table.contains_key kid swept.unknown_kids
      then (some (ok none), swept)
      else ask_cache swept.cache swept kid clock

  -- What `key` does with the keys that were fetched; the clock is read twice.
  pub record_fetch :
      KeyState K → Str → Table Str K → ℕ → ℕ → Result (Option K) TokenError × KeyState K
  unfolding remember_unknown
  record_fetch state kid keys fetched_at now =
      let found = Table.get kid keys in
      let fresh : KeyState K = record state {
        cache = some (record { keys = keys; fetched_at = fetched_at });
        last_failure = none;
      } in
      (ok found, if is_none found then remember_unknown fresh kid now else fresh)

  -- What `key` does with a fetch that failed.
  pub record_failure : KeyState K → TokenError → ℕ → Result (Option K) TokenError × KeyState K
  record_failure state error now = (err error, record state { last_failure = some now })

-- The documents that the provider serves.
pub record Discovery : Type 0 where
  pub jwks_uri : Str
  pub issuer : Str

pub record Jwk : Type 0 where
  pub kid : Str
  pub kty : Str
  pub n : Option Str
  pub e : Option Str

module _ {K : Type 0} (from_rsa_components : Str → Str → Option K) where
  decoding_key : Option Str → Option Str → Option K
  decoding_key (some n) (some e) = from_rsa_components n e
  decoding_key _ _ = none

  -- The keys of a key set: those of RSA that can be read; of two with one id, the later one.
  collect_keys : List Jwk → Table Str K → Table Str K
  unfolding decoding_key
  collect_keys [] keys = keys
  collect_keys (k ∷ jwks) keys = collect_keys jwks (
      if str_eq k.kty (lit "RSA")
      then elim (decoding_key k.n k.e) [ none ↦ keys | some key ↦ Table.insert k.kid key keys ]
      else keys)

  -- `fetch_keys`, over what the network answers.
  pub fetch_keys :
      OidcConfig
      → (Str → Option Discovery)
      → (Str → Option (List Jwk))
      → Result (Table Str K) TokenError
  unfolding collect_keys
  fetch_keys config get_discovery get_jwks = do
    discovery ←
        ok_or
          (get_discovery
            (trim_end_slashes config.issuer ++ lit "/.well-known/openid-configuration"))
          token_provider_unavailable
    if not (str_eq (trim_end_slashes discovery.issuer) (trim_end_slashes config.issuer))
        then err token_provider_unavailable
        else do
          jwks ← ok_or (get_jwks discovery.jwks_uri) token_provider_unavailable
          ok (collect_keys jwks [])
