-- ===== src/TypstValue.antt =====
-- src/typst_value.rs: caller data as Typst literals. A float is the text of its digits and whether it
-- is finite, as the formatter of the standard library gives it.
pub mod Literals
mod Tests
use typst_mcp.Common.{
  ℕ, zero, suc, ◌+◌, ◌-◌, ◌*◌, ◌/◌, ◌%◌, ◌^◌, ◌≤◌, ◌<◌, ◌≡◌, refl, sym, ap, ◌∙◌, ◌≢◌, ◌↔◌, ◌⊎◌, inl,
  inr, Bool, true, false, ◌&&◌, ◌||◌, Option, none, some, List, [], ◌∷◌, ◌++◌, map, arith, ltb, leb,
  ◌==◌, if◌then◌else◌, not, Bool-cases, Option-cases, is_some, is_none, length, All, any, all, sum,
  Has, Has-All, AreDistinct, take, drop, get_or, Result, ok, err, ◌>>=◌, ok_or, map_err, bind-eq-ok,
  map_err-eq-ok, Result-cases, if-cases, unwrap_or,
}
use typst_mcp.Common.Text.{Str, lit, is_ascii_alphabetic, is_ascii_alphanumeric, split}
use typst_mcp.Common.Text.Decimal.{show, parse_unsigned}

-- An `i64` or `i32`, by its sign and its size.
pub record Signed : Type 0 where
  pub negative : Bool
  pub size : ℕ

pub record Float : Type 0 where
  pub finite : Bool
  pub digits : Str

-- An array and a dictionary are lists of values, in a type of their own.
mutual
  pub data TypstValue : Type 0 where
    null : TypstValue
    bool : Bool → TypstValue
    int : Signed → TypstValue
    float : Float → TypstValue
    str ident : Str → TypstValue
    array : Values → TypstValue
    dict : Pairs → TypstValue
    date : (year : Signed) (month day : ℕ) → TypstValue

  pub data Values : Type 0 where
    no_values : Values
    and_value : TypstValue → Values → Values

  pub data Pairs : Type 0 where
    no_pairs : Pairs
    and_pair : Str → TypstValue → Pairs → Pairs

pub data ValueError : Type 0 where
  non_finite bad_ident bad_key : Str → ValueError
  bad_date : (year : Signed) (month day : ℕ) → ValueError

pub show_signed : Signed → Str
show_signed n = if n.negative then b'-' ∷ show n.size else show n.size

-- `char::is_control`.
unfoldable pub is_control : ℕ → Bool
is_control c = ltb c 32 || leb 127 c && leb c 159

pub hex_digit : ℕ → ℕ
hex_digit d = if ltb d 10 then b'0' + d else b'a' + (d - 10)

-- `{:x}`; the quotient shrinks in each round, so that the number itself is fuel enough.
hex_onto : ℕ → ℕ → Str → Str
unfolding hex_digit
hex_onto zero n acc = acc
hex_onto (suc fuel) n acc =
    let more = hex_onto fuel (n / 16) (hex_digit (n % 16) ∷ acc) in
    if ltb n 16 then hex_digit n ∷ acc else more

pub hex : ℕ → Str
unfolding hex_onto
hex n = hex_onto (suc n) n []

-- One round of the loop in `write_string`.
unfoldable pub escape : ℕ → Str
unfolding is_control hex
escape c =
    if c == b'"'
    then lit "\\\""
    else if c == b'\\'
    then lit "\\\\"
    else if c == 10
    then lit "\\n"
    else if c == 13
    then lit "\\r"
    else if c == 9
    then lit "\\t"
    else if is_control c || c == 0x2028 || c == 0x2029 || c == 0xfeff
    then lit "\\u{" ++ hex c ++ lit "}"
    else c ∷ []

unfoldable pub escape_all : Str → Str
unfolding escape
escape_all [] = []
escape_all (c ∷ s) = escape c ++ escape_all s

unfoldable pub write_string : Str → Str
unfolding escape_all
write_string value = b'"' ∷ (escape_all value ++ b'"' ∷ [])

pub is_ident : Str → Bool
is_ident [] = false
is_ident (first ∷ rest) =
    (is_ascii_alphabetic first || first == b'_')
    && all (λ c. is_ascii_alphanumeric c || c == b'_' || c == b'-') (first ∷ rest)

pub is_date : ℕ → ℕ → Bool
is_date month day = leb 1 month && leb month 12 && leb 1 day && leb day 31

mutual
  unfolding show_signed write_string is_ident is_date

  -- `TypstValue::write`, on what is written so far.
  pub write : TypstValue → Result Str ValueError
  write null = ok (lit "none")
  write (bool b) = ok (if b then lit "true" else lit "false")
  write (int n) = ok (show_signed n)
  write (float f) = if f.finite then ok f.digits else err (non_finite f.digits)
  write (str s) = ok (write_string s)
  write (ident name) = if is_ident name then ok name else err (bad_ident name)
  write (array items) = do inner ← write_values items; ok (b'(' ∷ (inner ++ lit ")"))
  write (dict no_pairs) = ok (lit "(:)")
  write (dict (and_pair k v rest)) = do
    inner ← write_pairs (and_pair k v rest)
    ok (b'(' ∷ (inner ++ lit ")"))
  write (date year month day) =
      if is_date month day
      then ok (
          lit "datetime(year: "
          ++ show_signed year
          ++ lit ", month: "
          ++ show month
          ++ lit ", day: "
          ++ show day
          ++ lit ")")
      else err (bad_date year month day)

  pub write_values : Values → Result Str ValueError
  write_values no_values = ok []
  write_values (and_value item items) = do
    first ← write item
    rest ← write_values items
    ok (first ++ lit ", " ++ rest)

  pub write_pairs : Pairs → Result Str ValueError
  write_pairs no_pairs = ok []
  write_pairs (and_pair key value pairs) = do
    first ← if is_ident key then write value else err (bad_key key)
    rest ← write_pairs pairs
    ok (key ++ lit ": " ++ first ++ lit ", " ++ rest)

-- What the three numbers of a date give.
date_of : Option ℕ → Option ℕ → Option ℕ → Option TypstValue
unfolding is_date
date_of (some year) (some month) (some day) =
    if is_date month day
    then some (date (record { negative = false; size = year }) month day)
    else none
date_of _ _ _ = none

-- `parse_date`; a part between dashes has no minus sign.
pub parse_date : Str → Option TypstValue
unfolding date_of
parse_date text = elim (split b'-' text) [
  | year ∷ month ∷ day ∷ [] ↦
      date_of (parse_unsigned (2 ^ 31) year) (parse_unsigned (2 ^ 8) month)
        (parse_unsigned (2 ^ 8) day)
  | _ ↦ none
]
