-- ===== src/Common/Text/Decimal.antt =====
-- Decimal numbers: `{n}` of a format string, and `str::parse` of an unsigned integer.
use Prim.Native.Nat.{ℕ, zero, suc, ◌+◌, ◌-◌, ◌*◌, ◌/◌, ◌%◌, ◌<◌, ◌≤◌, ◌^◌}
use mathlib.Core.Path.{◌≡◌, refl, ap, ◌∙◌}
use mathlib.Core.Logic.{◌≢◌}
use mathlib.Core.Bool.{◌&&◌}
use mathlib.Core.Option.{Option, none, some}
use mathlib.Core.List.{[], ◌∷◌}
use native.Mathlib.Omega.{arith}
use typst_mcp.Common.Tests.{ltb, ◌==◌, if◌then◌else◌}
use typst_mcp.Common.Lists.{All}
use typst_mcp.Common.Text.{Str, is_digit}

-- The digits of `n`, the last first, put in front of `acc`. A number has fewer digits than itself
-- and one, so the fuel of `show` is enough.
show_onto : ℕ → ℕ → Str → Str
show_onto zero n acc = acc
show_onto (suc f) n acc =
    let more = show_onto f (n / 10) ((b'0' + n % 10) ∷ acc) in
    if ltb n 10 then (b'0' + n) ∷ acc else more

unfoldable pub show : ℕ → Str
unfolding show_onto
show n = show_onto (suc n) n []

-- The digits are read with a checked multiplication and addition below `bound`.
unfoldable pub parse_digits : ℕ → ℕ → Str → Option ℕ
parse_digits bound acc [] = some acc
parse_digits bound acc (c ∷ s) =
    let next = acc * 10 + (c - b'0') in
    let rest = parse_digits bound next s in if is_digit c && ltb next bound then rest else none

-- `from_str_radix(10)` of an unsigned type: no digits is an error, and one `+` may stand in front.
unfoldable pub parse_unsigned : ℕ → Str → Option ℕ
unfolding parse_digits
parse_unsigned bound [] = none
parse_unsigned bound (c ∷ []) = if c == b'+' then none else parse_digits bound 0 (c ∷ [])
parse_unsigned bound (c ∷ d ∷ s) =
    if c == b'+' then parse_digits bound 0 (d ∷ s) else parse_digits bound 0 (c ∷ d ∷ s)

abbrev pub u64_mod : ℕ
u64_mod = 2 ^ 64

-- A number, read behind `acc` at its place value.
shift : ℕ → Str → ℕ
shift acc [] = acc
shift acc (c ∷ s) = shift (acc * 10 + (c - b'0')) s

-- The value that the digits stand for.
abbrev pub AreDigits : Str → Type 0
AreDigits s = All (λ c. (b'0' ≤ c) × (c ≤ b'9')) s

le-shift : (acc : ℕ) (s : Str) → acc ≤ shift acc s
unfolding shift
le-shift acc [] = omega arith
le-shift acc (c ∷ s) = omega (arith, le-shift (acc * 10 + (c - b'0')) s)

parse_digits-shift :
    (bound acc : ℕ) (s : Str)
    → AreDigits s
    → shift acc s < bound
    → parse_digits bound acc s ≡ some (shift acc s)
unfolding parse_digits shift
parse_digits-shift bound acc [] h k = refl
parse_digits-shift bound acc (c ∷ s) h k = ground (
  arith,
  parse_digits-shift bound (acc * 10 + (c - b'0')) s h.1,
  le-shift (acc * 10 + (c - b'0')) s,
)

show_onto-AreDigits : (f n : ℕ) (acc : Str) → AreDigits acc → AreDigits (show_onto f n acc)
unfolding show_onto
show_onto-AreDigits zero n acc h = h
show_onto-AreDigits (suc f) n acc h =
    ground (arith, show_onto-AreDigits f (n / 10) ((b'0' + n % 10) ∷ acc))

shift-show_onto : (f n : ℕ) (acc : Str) → n < f → shift 0 (show_onto f n acc) ≡ shift n acc
unfolding show_onto shift
shift-show_onto zero n acc h = absurd (omega arith)
shift-show_onto (suc f) n acc h = ground (arith, shift-show_onto f (n / 10) ((b'0' + n % 10) ∷ acc))

pub show-AreDigits : (n : ℕ) → AreDigits (show n)
unfolding show
show-AreDigits n = show_onto-AreDigits (suc n) n [] tt

show_onto-ne-nil : (f n : ℕ) (acc : Str) → n < f → show_onto f n acc ≢ []
unfolding show_onto
show_onto-ne-nil zero n acc h = absurd (omega arith)
show_onto-ne-nil (suc f) n acc h =
    ground (arith, show_onto-ne-nil f (n / 10) ((b'0' + n % 10) ∷ acc))

parse_unsigned-digits :
    (bound : ℕ) (s : Str)
    → AreDigits s
    → s ≢ []
    → shift 0 s < bound
    → parse_unsigned bound s ≡ some (shift 0 s)
unfolding parse_unsigned
parse_unsigned-digits bound [] h n k = absurd (n refl)
parse_unsigned-digits bound (c ∷ []) h n k = ground (arith, parse_digits-shift bound 0 (c ∷ []) h k)
parse_unsigned-digits bound (c ∷ d ∷ s) h n k =
    ground (arith, parse_digits-shift bound 0 (c ∷ d ∷ s) h k)

-- Reading back what was printed gives the number.
pub parse_unsigned-show : (bound n : ℕ) → n < bound → parse_unsigned bound (show n) ≡ some n
unfolding show shift
parse_unsigned-show bound n h =
    let value = shift-show_onto (suc n) n [] (omega arith) in
    parse_unsigned-digits bound (show n) (show-AreDigits n)
      (show_onto-ne-nil (suc n) n [] (omega arith)) (omega (arith, value))
    ∙ ap some value

pub show_inj : (m n : ℕ) → show m ≡ show n → m ≡ n
show_inj m n e =
    ground (arith, parse_unsigned-show (suc (m + n)) m, parse_unsigned-show (suc (m + n)) n)
