-- ===== src/Common/Table/Sorted.antt =====
-- `BTreeMap<String, V>`: an association list that insertion keeps in the order of the keys, which
-- is the order in which the map iterates.
use Prim.Native.Nat.{suc}
use mathlib.Core.Path.{◌≡◌, refl}
use mathlib.Core.Bool.{Bool, true, false, ◌&&◌, ◌||◌}
use mathlib.Core.Option.{Option, none, some}
use mathlib.Core.List.{List, [], ◌∷◌}
use native.Mathlib.Omega.{arith}
use typst_mcp.Common.Tests.{if◌then◌else◌, is_some, ltb, ◌==◌}
use typst_mcp.Common.Lists.{length}
use typst_mcp.Common.Text.{Str, str_eq}
use typst_mcp.Common.Text.Laws.{str_eq_iff}

-- Texts are ordered by their bytes, which for UTF-8 is the order of their characters.
unfoldable pub str_lt : Str → Str → Bool
str_lt s [] = false
str_lt [] (d ∷ t) = true
str_lt (c ∷ s) (d ∷ t) = ltb c d || c == d && str_lt s t

abbrev pub SortedTable {ℓ} : Type ℓ → Type ℓ
SortedTable V = List (Str × V)

module _ {ℓ} {V : Type ℓ} where
  unfoldable pub get : Str → SortedTable V → Option V
  get k [] = none
  get k ((j, v) ∷ m) = if str_eq j k then some v else get k m

  unfoldable pub insert : Str → V → SortedTable V → SortedTable V
  unfolding str_lt
  insert k v [] = (k, v) ∷ []
  insert k v ((j, w) ∷ m) =
      let rest = insert k v m in
      if str_eq j k then (k, v) ∷ m else if str_lt j k then (j, w) ∷ rest else (k, v) ∷ (j, w) ∷ m

  abbrev pub contains_key : Str → SortedTable V → Bool
  contains_key k m = is_some (get k m)

  pub get-insert :
      (k j : Str) (v : V) (m : SortedTable V)
      → get j (insert k v m) ≡ (if str_eq k j then some v else get j m)
  unfolding get insert
  get-insert k j v [] = refl
  get-insert k j v ((i, w) ∷ m) =
      ground (arith, str_eq_iff k j, str_eq_iff i k, str_eq_iff i j, get-insert k j v m)

  pub length-insert :
      (k : Str) (v : V) (m : SortedTable V)
      → get k m ≡ none
      → length (insert k v m) ≡ suc (length m)
  unfolding get insert
  length-insert k v [] h = refl
  length-insert k v ((i, w) ∷ m) h = ground (arith, length-insert k v m)
