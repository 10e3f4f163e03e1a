-- ===== src/Templates/Bounded.antt =====
-- `BoundedReader` and `BoundedMessage` of src/templates.rs, and the message of `Template::validate`.
pub mod Limits
use typst_mcp.Common.{
  ℕ, zero, suc, ◌+◌, ◌-◌, ◌*◌, ◌/◌, ◌%◌, ◌^◌, ◌≤◌, ◌<◌, ◌≡◌, refl, sym, ap, ◌∙◌, ◌≢◌, ◌↔◌, ◌⊎◌, inl,
  inr, Bool, true, false, ◌&&◌, ◌||◌, Option, none, some, List, [], ◌∷◌, ◌++◌, map, arith, ltb, leb,
  ◌==◌, if◌then◌else◌, not, Bool-cases, Option-cases, is_some, is_none, length, All, any, all, sum,
  Has, Has-All, AreDistinct, take, drop, get_or, Result, ok, err, ◌>>=◌, ok_or, map_err, bind-eq-ok,
  map_err-eq-ok, Result-cases, if-cases, unwrap_or,
}
use typst_mcp.Common.Text.{Str, lit, len, utf8, is_empty}
use typst_mcp.Templates.{max_schema_errors, max_schema_diagnostic_bytes, TemplateError, Template}

-- The inner reader, of state `S`, is of another package: asked for some bytes, it gives some or an
-- error.
pub record BoundedReader (S : Type 0) : Type 0 where
  pub inner : S
  pub remaining : ℕ

-- The bytes that a read gives.
abbrev pub taken : {E : Type 0} → Result (List ℕ) E → ℕ
taken (err e) = 0
taken (ok bs) = length bs

module _ {S E : Type 0} (inner_read : S → ℕ → Result (List ℕ) E × S) (exceeded : E) where
  -- What the probe for one more byte found.
  abbrev probed : Result (List ℕ) E → Result (List ℕ) E
  probed (err e) = err e
  probed (ok []) = ok []
  probed (ok (b ∷ bs)) = err exceeded

  -- `BoundedReader::read` into a buffer of that many bytes.
  pub read : BoundedReader S → ℕ → Result (List ℕ) E × BoundedReader S
  read r buf =
      if buf == 0
      then (ok [], r)
      else if r.remaining == 0
      then (probed (inner_read r.inner 1).0, record r { inner = (inner_read r.inner 1).1 })
      else let limit = if ltb buf r.remaining then buf else r.remaining in
        let (got, s) = inner_read r.inner limit in
        (got, record { inner = s; remaining = r.remaining - taken got })

  -- Reads into buffers of these sizes, one after the other; errors do not end them.
  pub read_all : BoundedReader S → List ℕ → List (Result (List ℕ) E)
  unfolding read
  read_all r [] = []
  read_all r (buf ∷ bufs) = let (got, s) = read r buf in got ∷ read_all s bufs

pub record BoundedMessage : Type 0 where
  pub value : Str
  pub remaining : ℕ

-- `&value[..end]` at the last boundary of characters that is not behind byte `n`.
pub cut : ℕ → Str → Str
cut n [] = []
cut n (c ∷ s) =
    let rest = cut (n - length (utf8 c)) s in if leb (length (utf8 c)) n then c ∷ rest else []

-- `write_str`: whether all was written, and the message then.
pub write_str : BoundedMessage → Str → Bool × BoundedMessage
unfolding cut
write_str m s =
    if leb (len s) m.remaining
    then (true, record { value = m.value ++ s; remaining = m.remaining - len s })
    else (false, record { value = m.value ++ cut m.remaining s; remaining = 0 })

-- An error of the JSON schema package: its path, and its text.
abbrev pub SchemaError : Type 0
SchemaError = Str × Str

pub show_error : SchemaError → Str
show_error (path, error) = if is_empty path then error else path ++ lit ": " ++ error

-- What stands between two errors.
separate : ℕ → BoundedMessage → Bool × BoundedMessage
unfolding write_str
separate zero m = (true, m)
separate (suc index) m = write_str m (lit "; ")

-- The loop of `validate`, from error `index` on.
pub write_errors : ℕ → List SchemaError → BoundedMessage → BoundedMessage
unfolding separate write_str show_error
write_errors index [] m = m
write_errors index (e ∷ es) m =
    let (separated, m') = separate index m in
    let m'' = (write_str m' (show_error e)).1 in
    let rest = write_errors (suc index) es m'' in
    if not separated then m' else if m''.remaining == 0 then m'' else rest

-- The message for the errors that a document has.
pub schema_message : List SchemaError → BoundedMessage
unfolding write_errors write_str
schema_message errors =
    let m =
      write_errors 0 (take max_schema_errors errors)
        (record { value = []; remaining = max_schema_diagnostic_bytes }) in
    if ltb max_schema_errors (length errors) && ltb 0 m.remaining
    then (write_str m (lit "; additional validation errors omitted")).1
    else m

-- `Template::validate`: `errors_of` finds the errors of a document, or why the schema is none.
unfoldable pub validate :
    {J : Type 0}
    → (J → J → Result (List SchemaError) Str)
    → Template J
    → J
    → Result (Unit {0}) TemplateError
unfolding schema_message
validate errors_of t document = elim t.schema [
  | none ↦ ok tt
  | some schema ↦ do
    errors ← map_err (TemplateError.bad_schema (lit "schema.json")) (errors_of schema document)
    elim errors [
      | [] ↦ ok tt
      | first ∷ more ↦ err (TemplateError.schema_violation (schema_message (first ∷ more)).value)
    ]
]
