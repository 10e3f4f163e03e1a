-- ===== src/Session.antt =====
-- src/session.rs: the cap on the MCP sessions. The manager of the sessions is of another package and
-- is a parameter.
pub mod Cap
use typst_mcp.Common.{
  ℕ, zero, suc, ◌+◌, ◌-◌, ◌*◌, ◌/◌, ◌%◌, ◌^◌, ◌≤◌, ◌<◌, ◌≡◌, refl, sym, ap, ◌∙◌, ◌≢◌, ◌↔◌, ◌⊎◌, inl,
  inr, Bool, true, false, ◌&&◌, ◌||◌, Option, none, some, List, [], ◌∷◌, ◌++◌, map, arith, ltb, leb,
  ◌==◌, if◌then◌else◌, not, Bool-cases, Option-cases, is_some, is_none, length, All, any, all, sum,
  Has, Has-All, AreDistinct, take, drop, get_or, Result, ok, err, ◌>>=◌, ok_or, map_err, bind-eq-ok,
  map_err-eq-ok, Result-cases, if-cases, unwrap_or,
}

-- `RestoreOutcome`, with the transport of type `T`.
pub data RestoreOutcome (T : Type 0) : Type 0 where
  restored : T → RestoreOutcome T
  already_present not_supported : RestoreOutcome T

-- What the code calls of `LocalSessionManager`, on a state of type `S` with ids of type `SessionId`: the
-- number of its sessions, and the calls that change them.
pub record Local (S SessionId T E : Type 0) : Type 0 where
  pub len : S → ℕ
  pub has_session : S → SessionId → Result Bool E
  pub create_session : S → Result (SessionId × T) E × S
  pub restore_session : S → SessionId → Result (RestoreOutcome T) E × S
  pub close_session : S → SessionId → Result (Unit {0}) E × S

-- What the cap relies on: a session is made by the two calls that make one, and by no other.
pub record IsLocal {S SessionId T E : Type 0} (local : Local S SessionId T E) : Type 0 where
  pub create : (s : S) → local.len (local.create_session s).1 ≤ suc (local.len s)
  pub restore :
      (s : S) (id : SessionId) → local.len (local.restore_session s id).1 ≤ suc (local.len s)
  pub close : (s : S) (id : SessionId) → local.len (local.close_session s id).1 ≤ local.len s

pub data CappedSessionError (E : Type 0) : Type 0 where
  capacity : ℕ → CappedSessionError E
  from_local : E → CappedSessionError E

module _ {S SessionId T E : Type 0} (local : Local S SessionId T E) (max_sessions : ℕ) where
  pub ensure_capacity : S → Result (Unit {0}) (CappedSessionError E)
  ensure_capacity s = if leb max_sessions (local.len s) then err (capacity max_sessions) else ok tt

  -- `create_session`, when nothing comes in between.
  pub create_session : S → Result (SessionId × T) (CappedSessionError E) × S
  unfolding ensure_capacity
  create_session s = elim (ensure_capacity s) [
    | err e ↦ (err e, s)
    | ok _ ↦ let (made, t) = local.create_session s in (map_err from_local made, t)
  ]

  pub close_session : S → SessionId → Result (Unit {0}) (CappedSessionError E) × S
  close_session s id = let (closed, t) = local.close_session s id in (map_err from_local closed, t)

  -- What `restore_session` does after it has looked for the session.
  restore_unless : Bool → S → SessionId → Result (RestoreOutcome T) (CappedSessionError E) × S
  unfolding ensure_capacity
  restore_unless true s id = (ok already_present, s)
  restore_unless false s id = elim (ensure_capacity s) [
    | err e ↦ (err e, s)
    | ok _ ↦ let (made, t) = local.restore_session s id in (map_err from_local made, t)
  ]

  -- `restore_session`, when nothing comes in between.
  pub restore_session : S → SessionId → Result (RestoreOutcome T) (CappedSessionError E) × S
  unfolding restore_unless
  restore_session s id = elim (local.has_session s id) [
    | err e ↦ (err (from_local e), s)
    | ok present ↦ restore_unless present s id
  ]
