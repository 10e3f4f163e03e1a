-- ===== src/Protocol/Framing/Tests.antt =====
-- A concrete frame (src/protocol.rs).
use typst_mcp.Common.{
  ℕ, zero, suc, ◌≤◌, ◌<◌, ◌≡◌, refl, ◌⊎◌, Option, none, some, List, [], ◌∷◌, ◌++◌, length, ok, err,
}
use typst_mcp.Protocol.{max_frame_bytes, too_long, write_frame, read_frame}
use typst_mcp.Protocol.Framing.{read_frame-write_frame}

-- A number is written as so many bytes.
abbrev to_json : ℕ → Option (List ℕ)
to_json zero = some []
to_json (suc n) = elim (to_json n) [ none ↦ none | some b ↦ some (48 ∷ b) ]

abbrev from_json : List ℕ → Option ℕ
from_json b = some (length b)

read_frame-write_frame_example :
    ((length {A = ℕ} (48 ∷ 48 ∷ []) ≤ max_frame_bytes)
      × ((bytes : List ℕ) × (write_frame to_json 2 ≡ ok bytes)
          × (read_frame from_json (bytes ++ 9 ∷ []) ≡ ok (2, 9 ∷ []))))
    ⊎ ((max_frame_bytes < length {A = ℕ} (48 ∷ 48 ∷ [])) × (write_frame to_json 2 ≡ err too_long))
read_frame-write_frame_example =
    read_frame-write_frame to_json from_json 2 (48 ∷ 48 ∷ []) (9 ∷ []) refl refl
