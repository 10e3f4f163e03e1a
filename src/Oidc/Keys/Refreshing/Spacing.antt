-- ===== src/Oidc/Keys/Refreshing/Spacing.antt =====
-- How often the validator of src/oidc.rs asks the provider, and how much it remembers.
use typst_mcp.Common.{
  ℕ, ◌+◌, ◌*◌, ◌≤◌, ◌≡◌, refl, ◌∙◌, Bool, true, false, none, some, List, [], ◌∷◌, arith,
  if◌then◌else◌, is_none, if-cases,
}
use typst_mcp.Common.Text.{Str}
use typst_mcp.Common.Key.{str_key}
use typst_mcp.Common.Table
use typst_mcp.Common.Table.{Table}
use typst_mcp.Oidc.{second}
use typst_mcp.Oidc.Keys.{KeyCache, KeyState, Clock, remember_unknown, record_fetch, record_failure}
use typst_mcp.Oidc.Keys.Inspection.{
  IsBounded, remember_unknown-IsBounded, inspect_key_state-Keeps, inspect_key_state-IsDue, IsDue,
  IsStale, IsRetry, Keeps,
}
use typst_mcp.Oidc.Keys.Refreshing.{
  Phase, idle, owned, fetching, Fetch, Validator, IsRead, after_look, Step, looks, owns, answers,
  fetches, succeeds, fails, cancels, Reach, starts, next,
}

-- How long the provider is left alone behind a fetch.
abbrev pub pause : Fetch → ℕ
pause f = if f.succeeded then 30 * second else 5 * second

-- `time` is far enough behind the last fetch.
abbrev pub IsAfter : List Fetch → ℕ → Type 0
IsAfter [] time = Unit
IsAfter (f ∷ fs) time = f.finished + pause f ≤ time

-- Each fetch starts far enough behind the end of the one before it.
abbrev pub IsSpaced : List Fetch → Type 0
IsSpaced [] = Unit
IsSpaced (f ∷ fs) = (f.started ≤ f.finished) × IsAfter fs f.started × IsSpaced fs

abbrev IsTimely : Phase → List Fetch → ℕ → Type 0
IsTimely idle fs now = Unit
IsTimely (owned kid) fs now = Unit
IsTimely (fetching kid started) fs now = IsAfter fs started × (started ≤ now)

IsTimely-later :
    (p : Phase) (fs : List Fetch) (now later : ℕ)
    → IsTimely p fs now
    → now ≤ later
    → IsTimely p fs later
IsTimely-later idle fs now later h le = tt
IsTimely-later (owned kid) fs now later h le = tt
IsTimely-later (fetching kid started) fs now later h le = (h.0, omega (arith, h.1))

module _ {K : Type 0} where
  -- The keys know when a fetch ended that succeeded, or failed.
  abbrev Ended : Bool → KeyState K → ℕ → Type 0
  Ended true keys time = (c : KeyCache K) × (keys.cache ≡ some c) × (c.fetched_at ≡ time)
  Ended false keys time = keys.last_failure ≡ some time

  abbrev IsKnown : KeyState K → List Fetch → Type 0
  IsKnown keys [] = Unit
  IsKnown keys (f ∷ fs) = Ended f.succeeded keys f.finished

  record Inv (s : Validator K) : Type 0 where
    bounded : IsBounded s.keys
    known : IsKnown s.keys s.fetches
    timely : IsTimely s.phase s.fetches s.now
    spaced : IsSpaced s.fetches

  IsDue-IsAfter :
      (keys : KeyState K) (kid : Str) (clock : Clock) (now : ℕ) (b : Bool) (time : ℕ)
      → Ended b keys time
      → IsRead now clock
      → IsDue keys kid clock
      → time + (if b then 30 * second else 5 * second) ≤ clock.backoff_read
  IsDue-IsAfter keys kid clock now true time (c, e, at) read due =
      let stale : IsStale (some c) kid clock = rw e at due.stale in
      let order = read.ttl in
      let order' = read.interval in let order'' = read.backoff in ground (arith, stale, at)
  IsDue-IsAfter keys kid clock now false time ended read due =
      let retry : IsRetry (some time) clock = rw ended at due.retry in ground (arith, retry)

  fetch-IsAfter :
      (keys : KeyState K) (kid : Str) (clock : Clock) (now : ℕ) (fs : List Fetch)
      → IsKnown keys fs
      → IsRead now clock
      → IsDue keys kid clock
      → IsAfter fs clock.backoff_read
  fetch-IsAfter keys kid clock now [] known read due = tt
  fetch-IsAfter keys kid clock now (f ∷ fs) known read due =
      IsDue-IsAfter keys kid clock now f.succeeded f.finished known read due

  Keeps-Ended :
      (s t : KeyState K) (b : Bool) (time : ℕ) → Keeps s t → Ended b s time → Ended b t time
  Keeps-Ended s t true time k (c, e, at) = (c, k.cache ∙ e, at)
  Keeps-Ended s t false time k h = k.last_failure ∙ h

  Keeps-IsKnown : (s t : KeyState K) (fs : List Fetch) → Keeps s t → IsKnown s fs → IsKnown t fs
  Keeps-IsKnown s t [] k h = tt
  Keeps-IsKnown s t (f ∷ fs) k h = Keeps-Ended s t f.succeeded f.finished k h

  record_fetch-IsBounded :
      (state : KeyState K) (kid : Str) (keys : Table Str K) (finished now : ℕ)
      → IsBounded state
      → IsBounded (record_fetch state kid keys finished now).1
  unfolding record_fetch
  record_fetch-IsBounded state kid keys finished now b =
      let fresh : KeyState K = record state {
        cache = some (record { keys = keys; fetched_at = finished });
        last_failure = none;
      } in
      let still : IsBounded fresh = record { unique = b.unique; few = b.few } in
      if-cases IsBounded (is_none (Table.get kid keys)) (remember_unknown fresh kid now) fresh
        (λ _. remember_unknown-IsBounded fresh kid now still) (λ _. still)

  record_fetch-IsKnown :
      (state : KeyState K) (kid : Str) (keys : Table Str K) (finished now : ℕ)
      → (c : KeyCache K) × ((record_fetch state kid keys finished now).1.cache ≡ some c)
        × (c.fetched_at ≡ finished)
  unfolding record_fetch remember_unknown
  record_fetch-IsKnown state kid keys finished now =
      (record { keys = keys; fetched_at = finished }, ground arith, refl)

  after_look-Inv :
      (s : Validator K) (phase : Phase) (kid : Str) (clock : Clock)
      → Inv s
      → IsTimely phase s.fetches clock.backoff_read
      → Inv (after_look s phase kid clock)
  after_look-Inv s phase kid clock inv timely =
      let k = inspect_key_state-Keeps s.keys kid clock inv.bounded in
      record {
        bounded = k.bounded;
        known = Keeps-IsKnown s.keys _ s.fetches k inv.known;
        timely = timely;
        spaced = inv.spaced;
      }

  Step-Inv : {s t : Validator K} → Step s t → Inv s → Inv t
  unfolding record_failure
  Step-Inv (looks s kid clock read) inv = after_look-Inv s s.phase kid clock inv (
      IsTimely-later s.phase s.fetches s.now clock.backoff_read inv.timely
        (omega (arith, read.entered, read.ttl, read.interval, read.backoff)))
  Step-Inv (owns s kid e) inv = record {
    bounded = inv.bounded;
    known = inv.known;
    timely = tt;
    spaced = inv.spaced;
  }
  Step-Inv (answers s kid clock e read h) inv = after_look-Inv s idle kid clock inv tt
  Step-Inv (fetches s kid clock e read h) inv =
      let due = inspect_key_state-IsDue s.keys kid clock inv.bounded.unique h in
      after_look-Inv s (fetching kid clock.backoff_read) kid clock inv
        (fetch-IsAfter s.keys kid clock s.now s.fetches inv.known read due, omega arith)
  Step-Inv (succeeds s kid started keys finished now e le le') inv =
      let timely : IsTimely (fetching kid started) s.fetches s.now = rw e at inv.timely in
      record {
        bounded = record_fetch-IsBounded s.keys kid keys finished now inv.bounded;
        known = record_fetch-IsKnown s.keys kid keys finished now;
        timely = tt;
        spaced = (omega (arith, timely.1), timely.0, inv.spaced);
      }
  Step-Inv (fails s kid started error finished e le) inv =
      let timely : IsTimely (fetching kid started) s.fetches s.now = rw e at inv.timely in
      record {
        bounded = record { unique = inv.bounded.unique; few = inv.bounded.few };
        known = refl;
        timely = tt;
        spaced = (omega (arith, timely.1), timely.0, inv.spaced);
      }
  Step-Inv (cancels s) inv = record {
    bounded = inv.bounded;
    known = inv.known;
    timely = tt;
    spaced = inv.spaced;
  }

  Reach-Inv : {s : Validator K} → Reach s → Inv s
  Reach-Inv (starts now) = record {
    bounded = record { unique = tt; few = omega arith };
    known = tt;
    timely = tt;
    spaced = tt;
  }
  Reach-Inv (next r step) = Step-Inv step (Reach-Inv r)

  -- In every state that the validator can reach, whatever the requests and their order, the memory
  -- of unknown key ids has at most 1,024 entries, and no two for one id.
  pub Reach-IsBounded : (s : Validator K) → Reach s → IsBounded s.keys
  Reach-IsBounded s r = (Reach-Inv r).bounded

  -- In every state that the validator can reach, each fetch that came to an end started at least
  -- 30 seconds behind the end of the one before it, or 5 seconds if that one had failed.
  pub Reach-IsSpaced : (s : Validator K) → Reach s → IsSpaced s.fetches
  Reach-IsSpaced s r = (Reach-Inv r).spaced
