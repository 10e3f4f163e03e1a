-- ===== src/Session/Cap.antt =====
-- The cap of src/session.rs holds however the calls interleave.
mod Tests
use typst_mcp.Common.{
  ℕ, zero, suc, ◌+◌, ◌-◌, ◌*◌, ◌/◌, ◌%◌, ◌^◌, ◌≤◌, ◌<◌, ◌≡◌, refl, sym, ap, ◌∙◌, ◌≢◌, ◌↔◌, ◌⊎◌, inl,
  inr, Bool, true, false, ◌&&◌, ◌||◌, Option, none, some, List, [], ◌∷◌, ◌++◌, map, arith, ltb, leb,
  ◌==◌, if◌then◌else◌, not, Bool-cases, Option-cases, is_some, is_none, length, All, any, all, sum,
  Has, Has-All, AreDistinct, take, drop, get_or, Result, ok, err, ◌>>=◌, ok_or, map_err, bind-eq-ok,
  map_err-eq-ok, Result-cases, if-cases, unwrap_or,
}
use typst_mcp.Session.{
  RestoreOutcome, Local, IsLocal, CappedSessionError, ensure_capacity, create_session,
  restore_session, close_session,
}

-- The lock `creation`: free, held by a call that has not checked yet, or by one that may go on.
pub data Creation : Type 0 where
  free held admitted : Creation

pub record Manager (S : Type 0) : Type 0 where
  pub inner : S
  pub creation : Creation

module _ {S SessionId T E : Type 0} (local : Local S SessionId T E) (max_sessions : ℕ) where
  -- What happens between two awaits. `forwards` stands for the calls that are passed on and make no
  -- session, and `releases` for a call that gives up the lock: it was refused, the session was
  -- there already, or its client went away.
  pub data Step : Manager S → Manager S → Type 0 where
    locks : (m : Manager S) → m.creation ≡ free → Step m (record m { creation = held })
    checks :
        (m : Manager S)
        → m.creation ≡ held
        → ensure_capacity local max_sessions m.inner ≡ ok tt
        → Step m (record m { creation = admitted })
    creates :
        (m : Manager S)
        → m.creation ≡ admitted
        → Step m (record { inner = (local.create_session m.inner).1; creation = free })
    restores :
        (m : Manager S) (id : SessionId)
        → m.creation ≡ admitted
        → Step m (record { inner = (local.restore_session m.inner id).1; creation = free })
    closes :
        (m : Manager S) (id : SessionId)
        → Step m (record m { inner = (close_session local max_sessions m.inner id).1 })
    forwards :
        (m : Manager S) (s : S) → local.len s ≤ local.len m.inner → Step m (record m { inner = s })
    releases : (m : Manager S) → Step m (record m { creation = free })

  pub data Reach (s : S) : Manager S → Type 0 where
    starts : Reach s (record { inner = s; creation = free })
    next : {m n : Manager S} → Reach s m → Step m n → Reach s n

  -- Room for what the holder of the lock may still make.
  HasRoom : Creation → S → Type 0
  HasRoom admitted s = local.len s < max_sessions
  HasRoom _ s = local.len s ≤ max_sessions

  Room-le : (c : Creation) (s : S) → HasRoom c s → local.len s ≤ max_sessions
  unfolding HasRoom
  Room-le free s h = h
  Room-le held s h = h
  Room-le admitted s h = omega (arith, h)

  le-Room : (c : Creation) (s t : S) → local.len t ≤ local.len s → HasRoom c s → HasRoom c t
  unfolding HasRoom
  le-Room free s t le h = omega (arith, h)
  le-Room held s t le h = omega (arith, h)
  le-Room admitted s t le h = omega (arith, h)

  ensure_capacity-lt :
      (s : S) → ensure_capacity local max_sessions s ≡ ok tt → local.len s < max_sessions
  unfolding ensure_capacity
  ensure_capacity-lt s h = ground (arith, h)

  Step-Room :
      {m n : Manager S}
      → IsLocal local
      → Step m n
      → HasRoom m.creation m.inner
      → HasRoom n.creation n.inner
  unfolding HasRoom close_session
  Step-Room l (locks m e) h = Room-le m.creation m.inner h
  Step-Room l (checks m e c) h = ensure_capacity-lt m.inner c
  Step-Room l (creates m e) h =
      let room : HasRoom admitted m.inner = rw e at h in omega (arith, room, l.create m.inner)
  Step-Room l (restores m id e) h =
      let room : HasRoom admitted m.inner = rw e at h in omega (arith, room, l.restore m.inner id)
  Step-Room l (closes m id) h = le-Room m.creation m.inner _ (l.close m.inner id) h
  Step-Room l (forwards m s le) h = le-Room m.creation m.inner s le h
  Step-Room l (releases m) h = Room-le m.creation m.inner h

  Reach-Room :
      {s : S} {m : Manager S}
      → IsLocal local
      → local.len s ≤ max_sessions
      → Reach s m
      → HasRoom m.creation m.inner
  unfolding HasRoom
  Reach-Room l le starts = le
  Reach-Room l le (next r step) = Step-Room l step (Reach-Room l le r)

  -- Whatever the calls and their order, also where sessions are closed between a check and the
  -- creation it allows, and where clients go away, there are never more than `max_sessions`
  -- sessions, provided there were not at first and the inner manager makes at most one session in
  -- a call that makes one and none in any other.
  pub Reach-IsCapped :
      (s : S) (m : Manager S)
      → IsLocal local
      → local.len s ≤ max_sessions
      → Reach s m
      → local.len m.inner ≤ max_sessions
  Reach-IsCapped s m l le r = Room-le m.creation m.inner (Reach-Room l le r)
