-- ===== src/Common/Text.antt =====
-- Rust's `str` and `String`, as the list of their characters (Unicode scalar values), with the
-- methods of `str` that the program calls. `len` and `bytes` are those of the UTF-8 encoding.
pub mod Laws
pub mod Split
pub mod Decimal
use Prim.Native.Nat.{ℕ, zero, suc, ◌+◌, ◌/◌, ◌%◌}
use Prim.Native.Char.{code}
use Prim.Native.String.{String}
use mathlib.Core.Bool.{Bool, true, false, ◌&&◌, ◌||◌}
use mathlib.Core.Option.{Option, none, some}
use mathlib.Core.Option
use mathlib.Core.List.{List, [], ◌∷◌, ◌++◌, map}
use typst_mcp.Common.Tests.{ltb, leb, ◌==◌, if◌then◌else◌}
use typst_mcp.Common.Lists.{length}

abbrev pub Str : Type 0
Str = List ℕ

-- A literal.
abbrev pub lit : String → Str
lit String.[] = []
lit (String.◌∷◌ c s) = code c ∷ lit s

-- The bytes that encode one character.
unfoldable pub utf8 : ℕ → List ℕ
utf8 c =
    if ltb c 0x80
    then c ∷ []
    else if ltb c 0x800
    then (0xc0 + c / 64) ∷ (0x80 + c % 64) ∷ []
    else if ltb c 0x10000
    then (0xe0 + c / 4096) ∷ (0x80 + c / 64 % 64) ∷ (0x80 + c % 64) ∷ []
    else (0xf0 + c / 262144) ∷ (0x80 + c / 4096 % 64) ∷ (0x80 + c / 64 % 64) ∷ (0x80 + c % 64) ∷ []

unfoldable pub bytes : Str → List ℕ
unfolding utf8
bytes [] = []
bytes (c ∷ s) = utf8 c ++ bytes s

unfoldable pub len : Str → ℕ
unfolding bytes
len s = length (bytes s)

unfoldable pub str_eq : Str → Str → Bool
str_eq [] [] = true
str_eq [] (d ∷ t) = false
str_eq (c ∷ s) [] = false
str_eq (c ∷ s) (d ∷ t) = c == d && str_eq s t

abbrev pub is_empty : Str → Bool
is_empty [] = true
is_empty (c ∷ s) = false

-- `starts_with` and `ends_with` of one character.
abbrev pub starts_with_char : ℕ → Str → Bool
starts_with_char c [] = false
starts_with_char c (d ∷ s) = d == c

unfoldable pub ends_with_char : ℕ → Str → Bool
ends_with_char c [] = false
ends_with_char c (d ∷ []) = d == c
ends_with_char c (d ∷ e ∷ s) = ends_with_char c (e ∷ s)

unfoldable pub strip_prefix : Str → Str → Option Str
strip_prefix [] s = some s
strip_prefix (c ∷ p) [] = none
strip_prefix (c ∷ p) (d ∷ s) = if c == d then strip_prefix p s else none

abbrev pub is_digit : ℕ → Bool
is_digit c = leb b'0' c && leb c b'9'

abbrev pub is_ascii_alphabetic : ℕ → Bool
is_ascii_alphabetic c = leb b'a' c && leb c b'z' || leb b'A' c && leb c b'Z'

abbrev pub is_ascii_alphanumeric : ℕ → Bool
is_ascii_alphanumeric c = is_digit c || is_ascii_alphabetic c

abbrev pub to_ascii_lowercase_char : ℕ → ℕ
to_ascii_lowercase_char c = if leb b'A' c && leb c b'Z' then c + 32 else c

unfoldable pub eq_ignore_ascii_case : Str → Str → Bool
unfolding str_eq
eq_ignore_ascii_case s t = str_eq (map to_ascii_lowercase_char s) (map to_ascii_lowercase_char t)

-- The Unicode property White_Space.
unfoldable pub is_whitespace : ℕ → Bool
is_whitespace c =
    leb 9 c && leb c 13
    || c == 0x20
    || c == 0x85
    || c == 0xa0
    || c == 0x1680
    || leb 0x2000 c && leb c 0x200a
    || c == 0x2028
    || c == 0x2029
    || c == 0x202f
    || c == 0x205f
    || c == 0x3000

unfoldable pub trim_start_matches : (ℕ → Bool) → Str → Str
trim_start_matches p [] = []
trim_start_matches p (c ∷ s) = if p c then trim_start_matches p s else c ∷ s

-- `c` in front of what is left of the text behind it.
abbrev keep_unless : (ℕ → Bool) → ℕ → Str → Str
keep_unless p c [] = if p c then [] else c ∷ []
keep_unless p c (d ∷ s) = c ∷ d ∷ s

unfoldable pub trim_end_matches : (ℕ → Bool) → Str → Str
trim_end_matches p [] = []
trim_end_matches p (c ∷ s) = keep_unless p c (trim_end_matches p s)

unfoldable pub trim_start : Str → Str
unfolding trim_start_matches is_whitespace
trim_start s = trim_start_matches is_whitespace s

unfoldable pub trim : Str → Str
unfolding trim_start trim_end_matches
trim s = trim_end_matches is_whitespace (trim_start s)

-- `trim_end_matches('/')`.
unfoldable pub trim_end_slashes : Str → Str
unfolding trim_end_matches
trim_end_slashes s = trim_end_matches (λ c. c == b'/') s

abbrev pub push_head : ℕ → List Str → List Str
push_head c [] = (c ∷ []) ∷ []
push_head c (p ∷ ps) = (c ∷ p) ∷ ps

-- `split(c)`: never empty.
unfoldable pub split : ℕ → Str → List Str
split c [] = [] ∷ []
split c (d ∷ s) = let rest = split c s in if d == c then [] ∷ rest else push_head d rest

unfoldable pub split_once : ℕ → Str → Option (Str × Str)
split_once c [] = none
split_once c (d ∷ s) =
    if d == c then some ([], s) else Option.map (λ p. (d ∷ p.0, p.1)) (split_once c s)

unfoldable pub join : Str → List Str → Str
join sep [] = []
join sep (p ∷ []) = p
join sep (p ∷ q ∷ ps) = p ++ sep ++ join sep (q ∷ ps)

-- `split` at the characters that meet a test.
split_by : (ℕ → Bool) → Str → List Str
split_by p [] = [] ∷ []
split_by p (d ∷ s) = let rest = split_by p s in if p d then [] ∷ rest else push_head d rest

drop_empty : List Str → List Str
drop_empty [] = []
drop_empty (s ∷ ss) = if is_empty s then drop_empty ss else s ∷ drop_empty ss

unfoldable pub split_whitespace : Str → List Str
unfolding split_by drop_empty is_whitespace
split_whitespace s = drop_empty (split_by is_whitespace s)

-- `rsplit(c).next()`: what stands behind the last `c`, or everything.
last_of : Str → List Str → Str
last_of s [] = s
last_of s (t ∷ ts) = last_of t ts

unfoldable pub last_piece : ℕ → Str → Str
unfolding split last_of
last_piece c s = last_of [] (split c s)

unfoldable pub strip_suffix : Str → Str → Option Str
unfolding str_eq
strip_suffix p [] = if is_empty p then some [] else none
strip_suffix p (c ∷ s) =
    let rest = Option.map (λ t. c ∷ t) (strip_suffix p s) in
    if str_eq p (c ∷ s) then some [] else rest

-- `trim_end_matches` of a text that is not empty; each round makes the text shorter, so that its
-- length is fuel enough.
trim_end_rounds : ℕ → Str → Str → Str
unfolding strip_suffix
trim_end_rounds zero p s = s
trim_end_rounds (suc fuel) p s = elim (strip_suffix p s) [
  | none ↦ s
  | some t ↦ trim_end_rounds fuel p t
]

unfoldable pub trim_end_text : Str → Str → Str
unfolding trim_end_rounds
trim_end_text p s = trim_end_rounds (length s) p s
