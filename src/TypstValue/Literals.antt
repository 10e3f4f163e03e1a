-- ===== src/TypstValue/Literals.antt =====
-- A string literal (src/typst_value.rs) ends where it was meant to end.
use typst_mcp.Common.{
  ℕ, zero, suc, ◌/◌, ◌%◌, ◌<◌, ◌≡◌, refl, ap, ◌∙◌, inl, inr, Bool, true, false, ◌||◌, Option, none,
  some, [], ◌∷◌, ◌++◌, arith, ltb, ◌==◌, if◌then◌else◌, not, Bool-cases, all,
}
use typst_mcp.Common.Text.{Str, lit}
use typst_mcp.Common.Text.Laws.{all-append}
use typst_mcp.TypstValue.{is_control, hex_digit, hex_onto, hex, escape, escape_all, write_string}

-- What stands behind the literal in whose inside a text begins: it ends at the first quote that no
-- backslash escapes.
unfoldable pub behind_literal : (escaped : Bool) → Str → Option Str
behind_literal escaped [] = none
behind_literal true (c ∷ s) = behind_literal false s
behind_literal false (c ∷ s) = if c == b'"' then some s else behind_literal (c == b'\\') s

-- A character that is neither a quote nor a backslash nor a control character.
is_plain : ℕ → Bool
is_plain c = not (c == b'"' || c == b'\\' || is_control c)

behind_literal-plain :
    (s t : Str) → all is_plain s ≡ true → behind_literal false (s ++ t) ≡ behind_literal false t
unfolding all is_plain behind_literal
behind_literal-plain [] t h = refl
behind_literal-plain (c ∷ s) t h = ground (arith, behind_literal-plain s t)

hex_digit-plain : (d : ℕ) → d < 16 → is_plain (hex_digit d) ≡ true
unfolding is_plain hex_digit is_control
hex_digit-plain d h = ground arith

hex_onto-plain :
    (fuel n : ℕ) (acc : Str) → all is_plain acc ≡ true → all is_plain (hex_onto fuel n acc) ≡ true
unfolding hex_onto all
hex_onto-plain zero n acc h = h
hex_onto-plain (suc fuel) n acc h =
    let digit = hex_digit-plain (n % 16) (omega arith) in
    let more = hex_onto-plain fuel (n / 16) (hex_digit (n % 16) ∷ acc) in
    elim (Bool-cases (ltb n 16)) [
      | inl e ↦ rw e (rw (hex_digit-plain n (ground arith)) h)
      | inr e ↦ rw e (more (rw digit h))
    ]

plain-is_control : (s : Str) → all is_plain s ≡ true → all (λ d. not (is_control d)) s ≡ true
unfolding all is_plain
plain-is_control [] h = refl
plain-is_control (c ∷ s) h = ground (arith, plain-is_control s)

-- The escape by a number, behind its backslash.
hex-plain : (c : ℕ) → all is_plain (b'{' ∷ (hex c ++ lit "}")) ≡ true
unfolding hex all is_plain is_control
hex-plain c = all-append is_plain (hex c) (lit "}") (hex_onto-plain (suc c) c [] refl) refl

-- An escaped character leaves a literal as open as it was, and has no control character.
behind_literal-escape :
    (c : ℕ) (t : Str)
    → (behind_literal false (escape c ++ t) ≡ behind_literal false t)
      × (all (λ d. not (is_control d)) (escape c) ≡ true)
unfolding escape behind_literal all is_control
behind_literal-escape c t =
    let inner = b'{' ∷ (hex c ++ lit "}") in
    let ends = behind_literal-plain inner t (hex-plain c) in
    let clean = plain-is_control inner (hex-plain c) in ground (arith, ends, clean)

append_four : (s t u v : Str) → ((s ++ t) ++ u) ++ v ≡ s ++ ((t ++ u) ++ v)
append_four [] t u v = refl
append_four (c ∷ s) t u v = ap (λ x. c ∷ x) (append_four s t u v)

escape_all-ends :
    (value rest : Str) → behind_literal false ((escape_all value ++ b'"' ∷ []) ++ rest) ≡ some rest
unfolding escape_all behind_literal
escape_all-ends [] rest = refl
escape_all-ends (c ∷ value) rest =
    let tail = (escape_all value ++ b'"' ∷ []) ++ rest in
    let first = (behind_literal-escape c tail).0 in
    let shape = append_four (escape c) (escape_all value) (b'"' ∷ []) rest in
    ap (behind_literal false) shape ∙ first ∙ escape_all-ends value rest

escape_all-is_control : (value : Str) → all (λ d. not (is_control d)) (escape_all value) ≡ true
unfolding escape_all all
escape_all-is_control [] = refl
escape_all-is_control (c ∷ value) =
    all-append (λ d. not (is_control d)) (escape c) (escape_all value)
      (behind_literal-escape c []).1 (escape_all-is_control value)

-- The literal of any text starts with a quote and ends at its own last character, whatever follows
-- it in the source, and no control character stands in it.
pub behind_literal-write_string :
    (value rest : Str)
    → (inside : Str) × (write_string value ++ rest ≡ b'"' ∷ inside)
      × (behind_literal false inside ≡ some rest)
      × (all (λ d. not (is_control d)) (write_string value) ≡ true)
unfolding write_string all is_control
behind_literal-write_string value rest = (
  (escape_all value ++ b'"' ∷ []) ++ rest,
  refl,
  escape_all-ends value rest,
  all-append (λ d. not (is_control d)) (escape_all value) (b'"' ∷ []) (escape_all-is_control value)
      refl,
)
