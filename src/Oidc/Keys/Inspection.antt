-- ===== src/Oidc/Keys/Inspection.antt =====
-- What one look at the cached keys (src/oidc.rs) answers, and what it leaves.
use typst_mcp.Common.{
  ℕ, ◌-◌, ◌≤◌, ◌≡◌, refl, sym, ◌∙◌, ◌⊎◌, inl, inr, false, ◌||◌, Option, none, some, [], ◌∷◌, arith,
  ltb, Bool-cases, Option-cases, length, Result, ok, err, if-cases,
}
use typst_mcp.Common.Text.{Str}
use typst_mcp.Common.Key.{str_key}
use typst_mcp.Common.Table
use typst_mcp.Common.Table.{Table, get-insert}
use typst_mcp.Common.Table.Retain.{
  retain, kept_if, get-retain, length-retain-le, retain-HasUniqueKeys,
}
use typst_mcp.Common.Table.Weight.{HasUniqueKeys, insert-HasUniqueKeys, weight, weight-insert}
use typst_mcp.Oidc.{
  jwks_ttl, jwks_refresh_interval, fetch_failure_backoff, unknown_kid_cap, TokenError,
  token_provider_unavailable,
}
use typst_mcp.Oidc.Keys.{
  KeyCache, KeyState, Clock, is_recent, remember_unknown, backs_off, after_cache, ask_cache,
  inspect_key_state,
}

abbrev one : Str → ℕ → ℕ
one k v = 1

weight-one : (m : Table Str ℕ) → weight one m ≡ length m
weight-one [] = refl
weight-one ((k, v) ∷ m) = omega (arith, weight-one m)

abbrev pub IsRetry : Option ℕ → Clock → Type 0
IsRetry none clock = Unit
IsRetry (some failed) clock = fetch_failure_backoff ≤ clock.backoff_read - failed

backs_off-eq :
    (last : Option ℕ) (clock : Clock)
    → backs_off last clock.backoff_read ≡ false
    → IsRetry last clock
unfolding backs_off
backs_off-eq none clock h = tt
backs_off-eq (some failed) clock h = ground (arith, h)

abbrev Looked : Type 0 → Type 0
Looked K = Option (Result (Option K) TokenError) × KeyState K

module _ {K : Type 0} where
  -- The memory of unknown key ids is a map of bounded size.
  pub record IsBounded (state : KeyState K) : Type 0 where
    pub unique : HasUniqueKeys state.unknown_kids
    pub few : length state.unknown_kids ≤ unknown_kid_cap

  pub remember_unknown-IsBounded :
      (state : KeyState K) (kid : Str) (now : ℕ)
      → IsBounded state
      → IsBounded (remember_unknown state kid now)
  unfolding remember_unknown
  remember_unknown-IsBounded state kid now b =
      elim (Bool-cases (
        ltb (length state.unknown_kids) unknown_kid_cap
        || Table.contains_key kid state.unknown_kids)) [
          | inr e ↦ rw e b
          | inl e ↦ rw e record {
            unique = insert-HasUniqueKeys kid now state.unknown_kids b.unique;
            few = ground (
              arith,
              b.few,
              weight-insert one kid now state.unknown_kids,
              weight-one state.unknown_kids,
              weight-one (Table.insert kid now state.unknown_kids),
            );
          }
        ]

  -- What is left of the state: the cache and the failure stay, and the memory stays bounded.
  pub record Keeps (s t : KeyState K) : Type 0 where
    pub cache : t.cache ≡ s.cache
    pub last_failure : t.last_failure ≡ s.last_failure
    pub bounded : IsBounded t

  remember_unknown-Keeps :
      (state : KeyState K) (kid : Str) (now : ℕ)
      → IsBounded state
      → Keeps state (remember_unknown state kid now)
  unfolding remember_unknown
  remember_unknown-Keeps state kid now b =
      let c = remember_unknown-IsBounded state kid now b in
      record { cache = ground arith; last_failure = ground arith; bounded = c }

  after_cache-Keeps :
      (state : KeyState K) (clock : Clock)
      → IsBounded state
      → Keeps state (after_cache state clock).1
  unfolding after_cache
  after_cache-Keeps state clock b =
      if-cases (λ (r : Looked K). Keeps state r.1) (backs_off state.last_failure clock.backoff_read)
        (some (err token_provider_unavailable), state) (none, state)
        (λ _. record { cache = refl; last_failure = refl; bounded = b })
        (λ _. record { cache = refl; last_failure = refl; bounded = b })

  ask_cache-Keeps :
      (cache : Option (KeyCache K)) (state : KeyState K) (kid : Str) (clock : Clock)
      → IsBounded state
      → Keeps state (ask_cache cache state kid clock).1
  unfolding ask_cache
  ask_cache-Keeps none state kid clock b = after_cache-Keeps state clock b
  ask_cache-Keeps (some cache) state kid clock b = elim (Option-cases (Table.get kid cache.keys)) [
    | inr (key, e) ↦ rw e elim (Bool-cases (ltb (clock.ttl_read - cache.fetched_at) jwks_ttl)) [
      | inl f ↦ rw f record { cache = refl; last_failure = refl; bounded = b }
      | inr f ↦ rw f (after_cache-Keeps state clock b)
    ]
    | inl e ↦ rw e elim (Bool-cases (ltb (clock.ttl_read - cache.fetched_at) jwks_ttl)) [
      | inr f ↦ rw f (after_cache-Keeps state clock b)
      | inl f ↦
          rw f
            elim (Bool-cases (ltb (clock.interval_read - cache.fetched_at) jwks_refresh_interval)) [
              | inl g ↦ rw g (remember_unknown-Keeps state kid clock.now b)
              | inr g ↦ rw g (after_cache-Keeps state clock b)
            ]
    ]
  ]

  -- The state that a look sweeps.
  swept : KeyState K → ℕ → KeyState K
  swept state now = record state { unknown_kids = retain (is_recent now) state.unknown_kids }

  swept-IsBounded : (state : KeyState K) (now : ℕ) → IsBounded state → IsBounded (swept state now)
  unfolding swept
  swept-IsBounded state now b = record {
    unique = retain-HasUniqueKeys (is_recent now) state.unknown_kids b.unique;
    few = omega (arith, b.few, length-retain-le (is_recent now) state.unknown_kids);
  }

  pub inspect_key_state-Keeps :
      (state : KeyState K) (kid : Str) (clock : Clock)
      → IsBounded state
      → Keeps state (inspect_key_state state kid clock).1
  unfolding inspect_key_state swept
  inspect_key_state-Keeps state kid clock b =
      let c = swept-IsBounded state clock.now b in
      let asked = ask_cache-Keeps state.cache (swept state clock.now) kid clock c in
      if-cases (λ (r : Looked K). Keeps state r.1)
        (Table.contains_key kid (swept state clock.now).unknown_kids)
        (some (ok none), swept state clock.now)
        (ask_cache state.cache (swept state clock.now) kid clock)
        (λ _. record { cache = refl; last_failure = refl; bounded = c })
        (λ _. record {
          cache = asked.cache;
          last_failure = asked.last_failure;
          bounded = asked.bounded;
        })

  -- A key id that was not found lately.
  abbrev pub IsForgotten : KeyState K → Str → ℕ → Type 0
  IsForgotten state kid now = kept_if (is_recent now) kid (Table.get kid state.unknown_kids) ≡ none

  -- The keys are old, or they lack the key and are not fresh either.
  abbrev pub IsStale : Option (KeyCache K) → Str → Clock → Type 0
  IsStale none kid clock = Unit
  IsStale (some cache) kid clock =
      (jwks_ttl ≤ clock.ttl_read - cache.fetched_at)
      ⊎ ((Table.get kid cache.keys ≡ none)
          × (jwks_refresh_interval ≤ clock.interval_read - cache.fetched_at))

  -- When a look leads to a refresh.
  pub record IsDue (state : KeyState K) (kid : Str) (clock : Clock) : Type 0 where
    pub forgotten : IsForgotten state kid clock.now
    pub stale : IsStale state.cache kid clock
    pub retry : IsRetry state.last_failure clock

  after_cache-eq :
      (state : KeyState K) (clock : Clock)
      → (after_cache state clock).0 ≡ none
      → IsRetry state.last_failure clock
  unfolding after_cache
  after_cache-eq state clock h =
      elim (Bool-cases (backs_off state.last_failure clock.backoff_read)) [
        | inl e ↦ absurd (cc (rw e at h))
        | inr e ↦ backs_off-eq state.last_failure clock e
      ]

  ask_cache-eq :
      (cache : Option (KeyCache K)) (state : KeyState K) (kid : Str) (clock : Clock)
      → (ask_cache cache state kid clock).0 ≡ none
      → IsStale cache kid clock × IsRetry state.last_failure clock
  unfolding ask_cache
  ask_cache-eq none state kid clock h = (tt, after_cache-eq state clock h)
  ask_cache-eq (some cache) state kid clock h =
      elim (Bool-cases (ltb (clock.ttl_read - cache.fetched_at) jwks_ttl)) [
        | inr f ↦ (inl (ground (arith, f)), after_cache-eq state clock (rw f at h))
        | inl f ↦ elim (Option-cases (Table.get kid cache.keys)) [
          | inr (key, e) ↦ absurd (cc (rw (f, e) at h))
          | inl e ↦
              elim (Bool-cases
                (ltb (clock.interval_read - cache.fetched_at) jwks_refresh_interval)) [
                  | inl g ↦ absurd (cc (rw (f, e, g) at h))
                  | inr g ↦
                      (inr (e, ground (arith, g)), after_cache-eq state clock (rw (f, e, g) at h))
                ]
        ]
      ]

  pub inspect_key_state-IsDue :
      (state : KeyState K) (kid : Str) (clock : Clock)
      → HasUniqueKeys state.unknown_kids
      → (inspect_key_state state kid clock).0 ≡ none
      → IsDue state kid clock
  unfolding inspect_key_state swept
  inspect_key_state-IsDue state kid clock u h =
      let g = get-retain (is_recent clock.now) kid state.unknown_kids u in
      elim (Option-cases (Table.get kid (retain (is_recent clock.now) state.unknown_kids))) [
        | inr (seen, e) ↦ absurd (cc (rw e at h))
        | inl e ↦
            let due = ask_cache-eq state.cache (swept state clock.now) kid clock (rw e at h) in
            record { forgotten = sym g ∙ e; stale = due.0; retry = due.1 }
      ]
