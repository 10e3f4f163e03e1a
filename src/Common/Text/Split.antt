-- ===== src/Common/Text/Split.antt =====
-- Splitting a text at a separator, and joining it again.
use Prim.Native.Nat.{ℕ}
use mathlib.Core.Path.{◌≡◌, refl}
use mathlib.Core.Logic.{◌≢◌}
use mathlib.Core.Option.{some}
use mathlib.Core.List.{List, [], ◌∷◌, ◌++◌}
use native.Mathlib.Omega.{arith}
use typst_mcp.Common.Lists.{All}
use typst_mcp.Common.Text.{Str, split, split_once, join, push_head}

-- The separator does not stand in the text.
abbrev pub Lacks : ℕ → Str → Type 0
Lacks c s = All (λ d. d ≢ c) s

pub split-ne-nil : (c : ℕ) (s : Str) → split c s ≢ []
unfolding split
split-ne-nil c [] h = ground arith
split-ne-nil c (d ∷ s) h = ground arith

pub split-Lacks : (c : ℕ) (s : Str) → All (Lacks c) (split c s)
unfolding split
split-Lacks c [] = (tt, tt)
split-Lacks c (d ∷ s) = ground (arith, split-Lacks c s)

join-push_head :
    (sep : Str) (d : ℕ) (ps : List Str) → ps ≢ [] → join sep (push_head d ps) ≡ d ∷ join sep ps
unfolding join
join-push_head sep d [] h = absurd (h refl)
join-push_head sep d (p ∷ []) h = refl
join-push_head sep d (p ∷ q ∷ ps) h = refl

join-cons-nil : (sep : Str) (ps : List Str) → ps ≢ [] → join sep ([] ∷ ps) ≡ sep ++ join sep ps
unfolding join
join-cons-nil sep [] h = absurd (h refl)
join-cons-nil sep (p ∷ ps) h = refl

pub join-split : (c : ℕ) (s : Str) → join (c ∷ []) (split c s) ≡ s
unfolding split
join-split c [] = unfold join in refl
join-split c (d ∷ s) = ground (
  arith,
  join-split c s,
  split-ne-nil c s,
  join-push_head (c ∷ []) d (split c s),
  join-cons-nil (c ∷ []) (split c s),
)

pub split_once-append : (c : ℕ) (s t : Str) → Lacks c s → split_once c (s ++ c ∷ t) ≡ some (s, t)
unfolding split_once
split_once-append c [] t h = ground arith
split_once-append c (d ∷ s) t h = ground (arith, split_once-append c s t)

-- A separator that stands in neither first part tells the parts apart.
pub append_sep_inj :
    (c : ℕ) (s t s' t' : Str)
    → Lacks c s
    → Lacks c s'
    → s ++ c ∷ t ≡ s' ++ c ∷ t'
    → (s ≡ s') × (t ≡ t')
append_sep_inj c [] t [] t' h h' e = ground arith
append_sep_inj c [] t (d ∷ s') t' h h' e = ground arith
append_sep_inj c (d ∷ s) t [] t' h h' e = ground arith
append_sep_inj c (d ∷ s) t (d' ∷ s') t' h h' e = ground (arith, append_sep_inj c s t s' t')
