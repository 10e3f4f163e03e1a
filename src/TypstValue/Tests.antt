-- ===== src/TypstValue/Tests.antt =====
-- A concrete literal (src/typst_value.rs).
use typst_mcp.Common.{◌≡◌, true, false, some, ◌∷◌, ◌++◌, not, all}
use typst_mcp.Common.Text.{Str, lit}
use typst_mcp.TypstValue.{is_control, write_string}
use typst_mcp.TypstValue.Literals.{behind_literal, behind_literal-write_string}

-- A name that tries to end its own literal.
abbrev hostile : Str
hostile = lit "\"; #let total = 0"

behind_literal-write_string_example :
    (inside : Str) × (write_string hostile ++ lit ")" ≡ b'"' ∷ inside)
    × (behind_literal false inside ≡ some (lit ")"))
    × (all (λ d. not (is_control d)) (write_string hostile) ≡ true)
behind_literal-write_string_example = behind_literal-write_string hostile (lit ")")
