-- ===== src/Common/Text/Laws.antt =====
-- Laws of equality, length and bytes of texts.
use Prim.Native.Nat.{ℕ, ◌+◌, ◌/◌, ◌<◌}
use mathlib.Core.Path.{◌≡◌, refl}
use mathlib.Core.Logic.{◌↔◌}
use mathlib.Core.Bool.{Bool, true, false, ◌&&◌}
use mathlib.Core.Option.{some}
use mathlib.Core.List.{[], ◌∷◌, ◌++◌}
use native.Mathlib.Omega.{arith}
use typst_mcp.Common.Lists.{All, all}
use typst_mcp.Common.Text.{Str, utf8, bytes, len, str_eq, strip_prefix}

pub eq_of_str_eq : (s t : Str) → str_eq s t ≡ true → s ≡ t
unfolding str_eq
eq_of_str_eq [] [] h = refl
eq_of_str_eq [] (d ∷ t) h = ground arith
eq_of_str_eq (c ∷ s) [] h = ground arith
eq_of_str_eq (c ∷ s) (d ∷ t) h = ground (arith, eq_of_str_eq s t)

pub str_eq_refl : (s : Str) → str_eq s s ≡ true
unfolding str_eq
str_eq_refl [] = refl
str_eq_refl (c ∷ s) = ground (arith, str_eq_refl s)

pub str_eq_iff : (s t : Str) → (str_eq s t ≡ true) ↔ (s ≡ t)
str_eq_iff s t = (eq_of_str_eq s t, λ e. ground (arith, e, str_eq_refl s))

pub all-append :
    (p : ℕ → Bool) (s t : Str) → all p s ≡ true → all p t ≡ true → all p (s ++ t) ≡ true
unfolding all
all-append p [] t h k = k
all-append p (c ∷ s) t h k = ground (arith, all-append p s t)

all_append-and : (p : ℕ → Bool) (s t : Str) → all p (s ++ t) ≡ all p s && all p t
unfolding all
all_append-and p [] t = refl
all_append-and p (c ∷ s) t = ground (arith, all_append-and p s t)

all-utf8 : (p : ℕ → Bool) → ((c : ℕ) → 127 < c → p c ≡ false) → (c : ℕ) → all p (utf8 c) ≡ p c
unfolding all utf8
all-utf8 p h c = ground (arith, h c, h (0xc0 + c / 64), h (0xe0 + c / 4096), h (0xf0 + c / 262144))

-- What holds of no byte above 127 holds of all bytes just when it holds of all characters.
pub all-bytes :
    (p : ℕ → Bool) → ((c : ℕ) → 127 < c → p c ≡ false) → (s : Str) → all p (bytes s) ≡ all p s
unfolding all bytes
all-bytes p h [] = refl
all-bytes p h (c ∷ s) =
    ground (arith, all_append-and p (utf8 c) (bytes s), all-utf8 p h c, all-bytes p h s)

pub len-cons-pos : (c : ℕ) (s : Str) → 0 < len (c ∷ s)
unfolding len
len-cons-pos c s = ground arith

pub strip_prefix-append : (p s : Str) → strip_prefix p (p ++ s) ≡ some s
unfolding strip_prefix
strip_prefix-append [] s = refl
strip_prefix-append (c ∷ p) s = ground (arith, strip_prefix-append p s)

pub eq_of_strip_prefix : (p s t : Str) → strip_prefix p s ≡ some t → s ≡ p ++ t
unfolding strip_prefix
eq_of_strip_prefix [] s t h = ground arith
eq_of_strip_prefix (c ∷ p) [] t h = ground arith
eq_of_strip_prefix (c ∷ p) (d ∷ s) t h = ground (arith, eq_of_strip_prefix p s t)

-- ASCII characters are their own encoding.
pub bytes-ascii : (s : Str) → All (λ c. c < 128) s → bytes s ≡ s
unfolding bytes utf8
bytes-ascii [] h = refl
bytes-ascii (c ∷ s) h = ground (arith, bytes-ascii s h.1)
