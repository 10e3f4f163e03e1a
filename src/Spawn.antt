-- ===== src/Spawn.antt =====
-- src/spawn.rs: how a compile in a worker process can fail. An error of the operating system is its
-- text.
use typst_mcp.Common.{ℕ}
use typst_mcp.Common.Text.{Str}

pub data SpawnError : Type 0 where
  timeout : (after : ℕ) → SpawnError
  overloaded : SpawnError
  died : (exit stderr : Str) → SpawnError
  io : Str → SpawnError
