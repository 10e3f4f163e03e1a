-- ===== src/Templates/Bounded/Limits.antt =====
-- The limits of `BoundedReader` and `BoundedMessage` (src/templates.rs) are kept.
mod Tests
use typst_mcp.Common.{
  ℕ, zero, suc, ◌+◌, ◌-◌, ◌*◌, ◌/◌, ◌%◌, ◌^◌, ◌≤◌, ◌<◌, ◌≡◌, refl, sym, ap, ◌∙◌, ◌≢◌, ◌↔◌, ◌⊎◌, inl,
  inr, Bool, true, false, ◌&&◌, ◌||◌, Option, none, some, List, [], ◌∷◌, ◌++◌, map, arith, ltb, leb,
  ◌==◌, if◌then◌else◌, not, Bool-cases, Option-cases, is_some, is_none, length, All, any, all, sum,
  Has, Has-All, AreDistinct, take, drop, get_or, Result, ok, err, ◌>>=◌, ok_or, map_err, bind-eq-ok,
  map_err-eq-ok, Result-cases, if-cases, unwrap_or,
}
use mathlib.Core.List.{append_assoc}
use typst_mcp.Common.Lists.{length-append}
use typst_mcp.Common.Text.{Str, lit, len, utf8, bytes}
use typst_mcp.Templates.{max_schema_errors, max_schema_diagnostic_bytes, TemplateError, Template}
use typst_mcp.Templates.Bounded.{
  BoundedReader, probed, taken, read, read_all, BoundedMessage, cut, write_str, SchemaError,
  show_error, separate, write_errors, schema_message, validate,
}

module _ {S E : Type 0} (inner_read : S → ℕ → Result (List ℕ) E × S) (exceeded : E) where
  -- The bytes of the reads that succeeded.
  pub delivered : List (Result (List ℕ) E) → ℕ
  delivered [] = 0
  delivered (r ∷ rs) = taken r + delivered rs

  -- A reader never gives more than it is asked for.
  abbrev pub IsReader : Type 0
  IsReader = (s : S) (n : ℕ) → taken (inner_read s n).0 ≤ n

  taken-probed : (r : Result (List ℕ) E) → taken (probed inner_read exceeded r) ≡ 0
  taken-probed (err e) = refl
  taken-probed (ok []) = refl
  taken-probed (ok (b ∷ bs)) = refl

  taken-read :
      (r : BoundedReader S) (buf : ℕ)
      → IsReader
      → taken (read inner_read exceeded r buf).0 + (read inner_read exceeded r buf).1.remaining
        ≤ r.remaining
  unfolding read
  taken-read r buf h = elim (Bool-cases (buf == 0)) [
    | inl e ↦ rw e (omega arith)
    | inr e ↦ rw e (elim (Bool-cases (r.remaining == 0)) [
      | inl f ↦ rw f (omega (arith, taken-probed (inner_read r.inner 1).0))
      | inr f ↦
          rw f
            let limit = if ltb buf r.remaining then buf else r.remaining in
              let least : limit ≤ r.remaining = ground arith in
              omega (arith, h r.inner limit, least)
    ])
  ]

  -- However it is read, a bounded reader never delivers more bytes than it was allowed, if the inner
  -- reader never gives more than it is asked for.
  pub delivered-read_all :
      (r : BoundedReader S) (bufs : List ℕ)
      → IsReader
      → delivered (read_all inner_read exceeded r bufs) ≤ r.remaining
  unfolding delivered read_all
  delivered-read_all r [] h = omega arith
  delivered-read_all r (buf ∷ bufs) h =
      omega
        (arith, taken-read r buf h, delivered-read_all (read inner_read exceeded r buf).1 bufs h)

-- The message and what is left of its limit.
abbrev size : BoundedMessage → ℕ
size m = len m.value + m.remaining

bytes-append : (s t : Str) → bytes (s ++ t) ≡ bytes s ++ bytes t
unfolding bytes
bytes-append [] t = refl
bytes-append (c ∷ s) t =
    ap (λ x. utf8 c ++ x) (bytes-append s t) ∙ sym (append_assoc (utf8 c) (bytes s) (bytes t))

len-append : (s t : Str) → len (s ++ t) ≡ len s + len t
unfolding len
len-append s t = ap length (bytes-append s t) ∙ length-append (bytes s) (bytes t)

len-cons : (c : ℕ) (s : Str) → len (c ∷ s) ≡ length (utf8 c) + len s
unfolding len bytes
len-cons c s = length-append (utf8 c) (bytes s)

length-cut : (n : ℕ) (s : Str) → len (cut n s) ≤ n
unfolding cut len bytes
length-cut n [] = omega arith
length-cut n (c ∷ s) = elim (Bool-cases (leb (length (utf8 c)) n)) [
  | inl e ↦ rw e (
      ground
        (arith, e, len-cons c (cut (n - length (utf8 c)) s), length-cut (n - length (utf8 c)) s))
  | inr e ↦ rw e (omega arith)
]

write_str-size : (m : BoundedMessage) (s : Str) → size (write_str m s).1 ≤ size m
unfolding write_str
write_str-size m s = elim (Bool-cases (leb (len s) m.remaining)) [
  | inl e ↦ rw e (ground (arith, e, len-append m.value s))
  | inr e ↦ rw e (omega (arith, len-append m.value (cut m.remaining s), length-cut m.remaining s))
]

separate-size : (index : ℕ) (m : BoundedMessage) → size (separate index m).1 ≤ size m
unfolding separate
separate-size zero m = omega arith
separate-size (suc index) m = write_str-size m (lit "; ")

write_errors-size :
    (index : ℕ) (es : List SchemaError) (m : BoundedMessage)
    → size (write_errors index es m) ≤ size m
unfolding write_errors
write_errors-size index [] m = omega arith
write_errors-size index (e ∷ es) m =
    let first = separate-size index m in
    let then' = write_str-size (separate index m).1 (show_error e) in
    let rest = write_errors-size (suc index) es (write_str (separate index m).1 (show_error e)).1 in
    elim (Bool-cases (separate index m).0) [
      | inr f ↦ rw f first
      | inl f ↦
          rw f
            (elim (Bool-cases ((write_str (separate index m).1 (show_error e)).1.remaining == 0)) [
              | inl g ↦ rw g (omega (arith, first, then'))
              | inr g ↦ rw g (omega (arith, first, then', rest))
            ])
    ]

-- Whatever the errors of a document, their message has at most 8,192 bytes.
pub schema_message-le :
    (es : List SchemaError) → len (schema_message es).value ≤ max_schema_diagnostic_bytes
unfolding schema_message len bytes
schema_message-le es =
    let m =
      write_errors 0 (take max_schema_errors es)
        (record { value = []; remaining = max_schema_diagnostic_bytes }) in
    let most =
      write_errors-size 0 (take max_schema_errors es)
        (record { value = []; remaining = max_schema_diagnostic_bytes }) in
    let omitted = write_str-size m (lit "; additional validation errors omitted") in
    if-cases (λ (r : BoundedMessage). len r.value ≤ max_schema_diagnostic_bytes)
      (ltb max_schema_errors (length es) && ltb 0 m.remaining)
      (write_str m (lit "; additional validation errors omitted")).1 m
      (λ _. omega (arith, most, omitted)) (λ _. omega (arith, most))
