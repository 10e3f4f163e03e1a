-- ===== src/Session/Cap/Tests.antt =====
-- The cap of src/session.rs on an inner manager that counts.
use typst_mcp.Common.{ℕ, suc, ◌-◌, ◌≤◌, refl, arith, ltb, ok}
use typst_mcp.Session.{restored, Local, IsLocal, ensure_capacity}
use typst_mcp.Session.Cap.{
  free, held, admitted, Manager, locks, checks, creates, Reach, starts, next, Reach-IsCapped,
}

-- A manager that knows the number of its sessions and nothing else.
abbrev counter : Local ℕ ℕ ℕ ℕ
counter = record {
  len = λ s. s;
  has_session = λ s id. ok (ltb id s);
  create_session = λ s. (ok (s, 0), suc s);
  restore_session = λ s id. (ok (restored id), suc s);
  close_session = λ s id. (ok tt, s - 1);
}

counter-IsLocal : IsLocal counter
counter-IsLocal = record {
  create = λ s. omega arith;
  restore = λ s id. omega arith;
  close = λ s id. omega arith;
}

abbrev before : Manager ℕ
before = record { inner = 1; creation = admitted }

abbrev after : Manager ℕ
after = record { inner = 2; creation = free }

after-Reach : Reach counter 2 1 after
unfolding ensure_capacity
after-Reach =
    next
      (next (next starts (locks (record { inner = 1; creation = free }) refl))
        (checks (record { inner = 1; creation = held }) refl refl))
      (creates before refl)

Reach-IsCapped_example : after.inner ≤ 2
Reach-IsCapped_example = Reach-IsCapped counter 2 1 after counter-IsLocal (omega arith) after-Reach
