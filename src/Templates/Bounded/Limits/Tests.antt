-- ===== src/Templates/Bounded/Limits/Tests.antt =====
-- The limits of src/templates.rs at concrete inputs.
use typst_mcp.Common.{ℕ, zero, suc, ◌≤◌, List, [], ◌∷◌, arith, length, take, drop, Result, ok}
use typst_mcp.Templates.Bounded.{BoundedReader, read_all}
use typst_mcp.Templates.Bounded.Limits.{delivered, IsReader, delivered-read_all}

-- A reader of a list of bytes that gives as much as it is asked for.
abbrev from_list : List ℕ → ℕ → Result (List ℕ) ℕ × List ℕ
from_list s n = (ok (take n s), drop n s)

length-take-le : (n : ℕ) (s : List ℕ) → length (take n s) ≤ n
length-take-le zero s = omega arith
length-take-le (suc n) [] = omega arith
length-take-le (suc n) (b ∷ s) = omega (arith, length-take-le n s)

from_list-IsReader : IsReader from_list 0
from_list-IsReader s n = length-take-le n s

abbrev bomb : BoundedReader (List ℕ)
bomb = record { inner = 1 ∷ 2 ∷ 3 ∷ 4 ∷ 5 ∷ []; remaining = 3 }

delivered-read_all_example : delivered from_list 0 (read_all from_list 0 bomb (2 ∷ 2 ∷ 2 ∷ [])) ≤ 3
delivered-read_all_example = delivered-read_all from_list 0 bomb (2 ∷ 2 ∷ 2 ∷ []) from_list-IsReader
