-- ===== src/Store/Dirs.antt =====
-- Directory paths as keys.
use typst_mcp.Common.{◌≡◌, refl, ◌↔◌, Bool, true, false, ◌&&◌, [], ◌∷◌, arith}
use typst_mcp.Common.Key.{Key}
use typst_mcp.Common.Text.{str_eq}
use typst_mcp.Common.Text.Laws.{str_eq_iff}
use typst_mcp.Store.{Dir}

unfoldable pub dir_eq : Dir → Dir → Bool
dir_eq [] [] = true
dir_eq [] (t ∷ ts) = false
dir_eq (s ∷ ss) [] = false
dir_eq (s ∷ ss) (t ∷ ts) = str_eq s t && dir_eq ss ts

pub dir_eq_iff : (s t : Dir) → (dir_eq s t ≡ true) ↔ (s ≡ t)
unfolding dir_eq
dir_eq_iff [] [] = (λ h. refl, λ e. refl)
dir_eq_iff [] (t ∷ ts) = (λ h. ground arith, λ e. ground arith)
dir_eq_iff (s ∷ ss) [] = (λ h. ground arith, λ e. ground arith)
dir_eq_iff (s ∷ ss) (t ∷ ts) = (
  λ h. ground (arith, str_eq_iff s t, dir_eq_iff ss ts),
  λ e. ground (arith, str_eq_iff s t, dir_eq_iff ss ts),
)

instance abbrev pub dir_key : Key Dir
dir_key = record { beq = dir_eq; beq_iff = dir_eq_iff }
