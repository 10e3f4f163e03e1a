-- ===== src/Oidc/Keys/Refreshing.antt =====
-- `TokenValidator::key` of src/oidc.rs: requests that look at the cached keys, one at a time, and
-- refreshes, which one request at a time owns while it waits for the network.
pub mod Spacing
use typst_mcp.Common.{
  ℕ, zero, suc, ◌+◌, ◌-◌, ◌*◌, ◌/◌, ◌%◌, ◌^◌, ◌≤◌, ◌<◌, ◌≡◌, refl, sym, ap, ◌∙◌, ◌≢◌, ◌↔◌, ◌⊎◌, inl,
  inr, Bool, true, false, ◌&&◌, ◌||◌, Option, none, some, List, [], ◌∷◌, ◌++◌, map, arith, ltb, leb,
  ◌==◌, if◌then◌else◌, not, Bool-cases, Option-cases, is_some, is_none, length, All, any, all, sum,
  Has, Has-All, AreDistinct, take, drop, get_or, Result, ok, err, ◌>>=◌, ok_or, map_err, bind-eq-ok,
  map_err-eq-ok, Result-cases, if-cases, unwrap_or,
}
use typst_mcp.Common.Text.{Str}
use typst_mcp.Common.Key.{str_key}
use typst_mcp.Common.Table.{Table}
use typst_mcp.Oidc.{TokenError}
use typst_mcp.Oidc.Keys.{KeyState, Clock, no_keys, inspect_key_state, record_fetch, record_failure}

-- Who owns the refresh: nobody, a request that is about to look again, or one that waits for the
-- provider, with the id it wants and the time it started.
pub data Phase : Type 0 where
  idle : Phase
  owned : Str → Phase
  fetching : Str → ℕ → Phase

-- A fetch that came to an end; the program keeps no such list.
pub record Fetch : Type 0 where
  pub started : ℕ
  pub finished : ℕ
  pub succeeded : Bool

-- The validator, the time, and the fetches so far, the last one first.
pub record Validator (K : Type 0) : Type 0 where
  pub keys : KeyState K
  pub phase : Phase
  pub now : ℕ
  pub fetches : List Fetch

-- Readings in the order in which the code takes them, none before `now`.
pub record IsRead (now : ℕ) (clock : Clock) : Type 0 where
  pub entered : now ≤ clock.now
  pub ttl : clock.now ≤ clock.ttl_read
  pub interval : clock.ttl_read ≤ clock.interval_read
  pub backoff : clock.interval_read ≤ clock.backoff_read

module _ {K : Type 0} where
  -- The state after a look.
  abbrev pub after_look : Validator K → Phase → Str → Clock → Validator K
  after_look s phase kid clock = record s {
    keys = (inspect_key_state s.keys kid clock).1;
    phase = phase;
    now = clock.backoff_read;
  }

  -- The state after a fetch; `finished` and `now` are the readings behind it.
  abbrev pub after_fetch : Validator K → Str → ℕ → Table Str K → ℕ → ℕ → Validator K
  after_fetch s kid started keys finished now = record {
    keys = (record_fetch s.keys kid keys finished now).1;
    phase = idle;
    now = now;
    fetches = record { started = started; finished = finished; succeeded = true } ∷ s.fetches;
  }

  abbrev pub after_failure : Validator K → ℕ → TokenError → ℕ → Validator K
  after_failure s started error finished = record {
    keys = (record_failure s.keys error finished).1;
    phase = idle;
    now = finished;
    fetches = record { started = started; finished = finished; succeeded = false } ∷ s.fetches;
  }

-- One critical section of a request: the first look; the lock of the refresh; the second look,
-- which answers or leads to a fetch; the end of the fetch; or the end of a request that is dropped
-- while it owns the refresh.
pub data Step {K : Type 0} : Validator K → Validator K → Type 0 where
  looks :
      (s : Validator K) (kid : Str) (clock : Clock)
      → IsRead s.now clock
      → Step s (after_look s s.phase kid clock)
  owns : (s : Validator K) (kid : Str) → s.phase ≡ idle → Step s (record s { phase = owned kid })
  answers :
      (s : Validator K) (kid : Str) (clock : Clock)
      → s.phase ≡ owned kid
      → IsRead s.now clock
      → is_some (inspect_key_state s.keys kid clock).0 ≡ true
      → Step s (after_look s idle kid clock)
  fetches :
      (s : Validator K) (kid : Str) (clock : Clock)
      → s.phase ≡ owned kid
      → IsRead s.now clock
      → (inspect_key_state s.keys kid clock).0 ≡ none
      → Step s (after_look s (fetching kid clock.backoff_read) kid clock)
  succeeds :
      (s : Validator K) (kid : Str) (started : ℕ) (keys : Table Str K) (finished now : ℕ)
      → s.phase ≡ fetching kid started
      → s.now ≤ finished
      → finished ≤ now
      → Step s (after_fetch s kid started keys finished now)
  fails :
      (s : Validator K) (kid : Str) (started : ℕ) (error : TokenError) (finished : ℕ)
      → s.phase ≡ fetching kid started
      → s.now ≤ finished
      → Step s (after_failure s started error finished)
  cancels : (s : Validator K) → Step s (record s { phase = idle })

-- The validator as `new` makes it.
abbrev pub fresh : {K : Type 0} → ℕ → Validator K
fresh now = record { keys = no_keys; phase = idle; now = now; fetches = [] }

pub data Reach {K : Type 0} : Validator K → Type 0 where
  starts : (now : ℕ) → Reach (fresh now)
  next : {s t : Validator K} → Reach s → Step s t → Reach t
