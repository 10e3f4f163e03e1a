-- ===== src/Common/Key.antt =====
-- Equality of keys: what `==` and `Eq` of a key type give the standard maps.
use mathlib.Core.Path.{◌≡◌, refl}
use mathlib.Core.Logic.{◌↔◌}
use mathlib.Core.Bool.{Bool, true}
use typst_mcp.Common.Text.{Str, str_eq}
use typst_mcp.Common.Text.Laws.{str_eq_iff}

pub record Key {ℓ} (K : Type ℓ) : Type ℓ where
  pub beq : K → K → Bool
  pub beq_iff : (a b : K) → (beq a b ≡ true) ↔ (a ≡ b)

instance abbrev pub str_key : Key Str
str_key = record { beq = str_eq; beq_iff = str_eq_iff }

pub beq_refl {ℓ} : {K : Type ℓ} (key : Key K) (a : K) → key.beq a a ≡ true
beq_refl key a = (key.beq_iff a a).1 refl
