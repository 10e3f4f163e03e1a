-- ===== src/Protocol/Framing.antt =====
-- Frames (src/protocol.rs) are read back as they were written.
mod Tests
use typst_mcp.Common.{
  ℕ, zero, suc, ◌+◌, ◌-◌, ◌*◌, ◌/◌, ◌%◌, ◌^◌, ◌≤◌, ◌<◌, ◌≡◌, refl, sym, ap, ◌∙◌, ◌≢◌, ◌↔◌, ◌⊎◌, inl,
  inr, Bool, true, false, ◌&&◌, ◌||◌, Option, none, some, List, [], ◌∷◌, ◌++◌, map, arith, ltb, leb,
  ◌==◌, if◌then◌else◌, not, Bool-cases, Option-cases, is_some, is_none, length, All, any, all, sum,
  Has, Has-All, AreDistinct, take, drop, get_or, Result, ok, err, ◌>>=◌, ok_or, map_err, bind-eq-ok,
  map_err-eq-ok, Result-cases, if-cases, unwrap_or,
}
use typst_mcp.Protocol.{
  max_frame_bytes, FrameError, too_long, not_serialisable, to_le_bytes, from_le_bytes, read_exact,
  frame, write_frame, read_payload, read_frame,
}

read_exact-append :
    (payload rest : List ℕ) → read_exact (length payload) (payload ++ rest) ≡ some (payload, rest)
unfolding read_exact
read_exact-append [] rest = refl
read_exact-append (b ∷ payload) rest = rw (read_exact-append payload rest) refl

from_le_bytes-to_le_bytes :
    (n : ℕ)
    → n < 2 ^ 32
    → from_le_bytes (n % 256) (n / 256 % 256) (n / 65536 % 256) (n / 16777216 % 256) ≡ n
unfolding from_le_bytes
from_le_bytes-to_le_bytes n h = omega arith

module _ {T : Type 0} (to_json : T → Option (List ℕ)) (from_json : List ℕ → Option T) where
  -- A value whose JSON form parses back to it, and is at most 64 MiB long, is written as a frame that
  -- is read back as this value, whatever follows it in the stream, and nothing more is taken from
  -- the stream; a longer form is refused by the writer.
  pub read_frame-write_frame :
      (value : T) (payload rest : List ℕ)
      → to_json value ≡ some payload
      → from_json payload ≡ some value
      → ((length payload ≤ max_frame_bytes)
          × ((bytes : List ℕ) × (write_frame to_json value ≡ ok bytes)
              × (read_frame from_json (bytes ++ rest) ≡ ok (value, rest))))
        ⊎ ((max_frame_bytes < length payload) × (write_frame to_json value ≡ err too_long))
  unfolding write_frame frame read_frame read_payload to_le_bytes
  read_frame-write_frame value payload rest json parsed =
      let n = length payload in
      elim (Bool-cases (leb n max_frame_bytes)) [
        | inr long ↦
            let above : max_frame_bytes < n = ground arith in inr (above, rw json (ground arith))
        | inl short ↦
            let below : n ≤ max_frame_bytes = ground arith in
            let small : ltb n (2 ^ 32) ≡ true = ground arith in
            let within : ltb max_frame_bytes n ≡ false = ground arith in
            let number = from_le_bytes-to_le_bytes n (omega arith) in
            let taken = read_exact-append payload rest in
            inl (
              below,
              (
                to_le_bytes n ++ payload,
                rw (json, write_frame) (rw (small, frame) (rw short refl)),
                rw number (rw (within, read_payload) (rw taken (rw parsed refl))),
              ),
            )
      ]
