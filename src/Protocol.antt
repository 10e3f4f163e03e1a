-- ===== src/Protocol.antt =====
-- src/protocol.rs: length-prefixed frames between the server and a worker. The JSON form comes from
-- another package and is a parameter; a stream is the list of the bytes that are left in it.
pub mod Framing
use typst_mcp.Common.{
  ℕ, zero, suc, ◌+◌, ◌-◌, ◌*◌, ◌/◌, ◌%◌, ◌^◌, ◌≤◌, ◌<◌, ◌≡◌, refl, sym, ap, ◌∙◌, ◌≢◌, ◌↔◌, ◌⊎◌, inl,
  inr, Bool, true, false, ◌&&◌, ◌||◌, Option, none, some, List, [], ◌∷◌, ◌++◌, map, arith, ltb, leb,
  ◌==◌, if◌then◌else◌, not, Bool-cases, Option-cases, is_some, is_none, length, All, any, all, sum,
  Has, Has-All, AreDistinct, take, drop, get_or, Result, ok, err, ◌>>=◌, ok_or, map_err, bind-eq-ok,
  map_err-eq-ok, Result-cases, if-cases, unwrap_or,
}

abbrev pub max_frame_bytes : ℕ
max_frame_bytes = 64 * 1024 * 1024

-- Why a frame is neither written nor read.
pub data FrameError : Type 0 where
  not_serialisable too_long unexpected_eof malformed : FrameError

-- `u32::to_le_bytes` and `u32::from_le_bytes`.
pub to_le_bytes : ℕ → List ℕ
to_le_bytes n = n % 256 ∷ n / 256 % 256 ∷ n / 65536 % 256 ∷ n / 16777216 % 256 ∷ []

pub from_le_bytes : ℕ → ℕ → ℕ → ℕ → ℕ
from_le_bytes a b c d = a + 256 * b + 65536 * c + 16777216 * d

-- `read_exact`: so many bytes and what is left, if there are enough.
pub read_exact : ℕ → List ℕ → Option (List ℕ × List ℕ)
read_exact zero input = some ([], input)
read_exact (suc n) [] = none
read_exact (suc n) (b ∷ input) = elim (read_exact n input) [
  | none ↦ none
  | some (bytes, rest) ↦ some (b ∷ bytes, rest)
]

module _ {T : Type 0} (to_json : T → Option (List ℕ)) where
  -- The frame of a payload.
  frame : List ℕ → Result (List ℕ) FrameError
  unfolding to_le_bytes
  frame payload =
      if ltb (length payload) (2 ^ 32) && leb (length payload) max_frame_bytes
      then ok (to_le_bytes (length payload) ++ payload)
      else err too_long

  -- `write_frame`: the bytes that are written.
  pub write_frame : T → Result (List ℕ) FrameError
  unfolding frame
  write_frame value = do payload ← ok_or (to_json value) not_serialisable; frame payload

module _ {T : Type 0} (from_json : List ℕ → Option T) where
  -- The payload of a frame of a given length.
  read_payload : ℕ → List ℕ → Result (T × List ℕ) FrameError
  unfolding read_exact
  read_payload n input = if ltb max_frame_bytes n then err too_long else do
    (payload, rest) ← ok_or (read_exact n input) unexpected_eof
    value ← ok_or (from_json payload) malformed
    ok (value, rest)

  -- `read_frame`: the value and what is left of the stream.
  pub read_frame : List ℕ → Result (T × List ℕ) FrameError
  unfolding read_payload from_le_bytes
  read_frame (a ∷ b ∷ c ∷ d ∷ input) = read_payload (from_le_bytes a b c d) input
  read_frame _ = err unexpected_eof
