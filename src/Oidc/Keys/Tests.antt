-- ===== src/Oidc/Keys/Tests.antt =====
-- The refreshes of src/oidc.rs in a concrete run.
use typst_mcp.Common.{ℕ, ◌*◌, ◌≤◌, refl, [], ◌∷◌, arith}
use typst_mcp.Common.Text.{Str, lit}
use typst_mcp.Common.Table
use typst_mcp.Common.Table.{Table}
use typst_mcp.Oidc.{second, token_provider_unavailable}
use typst_mcp.Oidc.Keys.{
  Clock, inspect_key_state, ask_cache, after_cache, backs_off, record_failure,
}
use typst_mcp.Oidc.Keys.Inspection.{IsBounded}
use typst_mcp.Oidc.Keys.Refreshing.{
  owned, fetching, Validator, IsRead, after_look, after_fetch, after_failure, owns, fetches,
  succeeds, fails, fresh, Reach, starts, next,
}
use typst_mcp.Oidc.Keys.Refreshing.Spacing.{IsSpaced, Reach-IsBounded, Reach-IsSpaced}

-- A clock that stands still during one look.
abbrev at : ℕ → Clock
at t = record { now = t; ttl_read = t; interval_read = t; backoff_read = t }

at-IsRead : (now t : ℕ) → now ≤ t → IsRead now (at t)
at-IsRead now t h = record {
  entered = h;
  ttl = omega arith;
  interval = omega arith;
  backoff = omega arith;
}

abbrev k1 : Str
k1 = lit "k1"

abbrev keys : Table Str ℕ
keys = (k1, 7) ∷ []

-- A fetch fails; 6 seconds later one succeeds.
abbrev s1 : Validator ℕ
s1 = record (fresh 0) { phase = owned k1 }

abbrev s2 : Validator ℕ
s2 = after_look s1 (fetching k1 (1 * second)) k1 (at (1 * second))

abbrev s3 : Validator ℕ
s3 = after_failure s2 (1 * second) token_provider_unavailable (2 * second)

abbrev s4 : Validator ℕ
s4 = record s3 { phase = owned k1 }

abbrev s5 : Validator ℕ
s5 = after_look s4 (fetching k1 (8 * second)) k1 (at (8 * second))

abbrev s6 : Validator ℕ
s6 = after_fetch s5 k1 (8 * second) keys (9 * second) (9 * second)

s6-Reach : Reach s6
unfolding inspect_key_state ask_cache after_cache backs_off record_failure Table.get
s6-Reach =
    next
      (next
        (next
          (next
            (next (next (starts 0) (owns (fresh 0) k1 refl))
              (fetches s1 k1 (at (1 * second)) refl (at-IsRead 0 (1 * second) (omega arith)) refl))
            (fails s2 k1 (1 * second) token_provider_unavailable (2 * second) refl (omega arith)))
          (owns s3 k1 refl))
        (fetches s4 k1 (at (8 * second)) refl (at-IsRead (2 * second) (8 * second) (omega arith))
          refl))
      (succeeds s5 k1 (8 * second) keys (9 * second) (9 * second) refl (omega arith) (omega arith))

Reach-IsSpaced_example : IsSpaced s6.fetches
Reach-IsSpaced_example = Reach-IsSpaced s6 s6-Reach

Reach-IsBounded_example : IsBounded s6.keys
Reach-IsBounded_example = Reach-IsBounded s6 s6-Reach
