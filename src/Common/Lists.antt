-- ===== src/Common/Lists.antt =====
-- Lists measured by native numbers, and tests over lists.
use Prim.Native.Nat.{ℕ, zero, suc, ◌+◌}
use mathlib.Core.Logic.{◌⊎◌, inl, inr, ◌≢◌}
use mathlib.Core.Path.{subst, sym, ◌≡◌}
use mathlib.Core.Bool.{Bool, true, false, ◌&&◌, ◌||◌}
use mathlib.Core.List.{List, [], ◌∷◌, ◌++◌}
use native.Mathlib.Omega.{arith}

module _ {ℓ} {A : Type ℓ} where
  abbrev pub length : List A → ℕ
  length [] = 0
  length (x ∷ xs) = suc (length xs)

  pub length-append : (xs ys : List A) → length (xs ++ ys) ≡ length xs + length ys
  length-append [] ys = omega arith
  length-append (x ∷ xs) ys = omega (arith, length-append xs ys)

  abbrev pub take : ℕ → List A → List A
  take zero xs = []
  take (suc n) [] = []
  take (suc n) (x ∷ xs) = x ∷ take n xs

  abbrev pub drop : ℕ → List A → List A
  drop zero xs = xs
  drop (suc n) [] = []
  drop (suc n) (x ∷ xs) = drop n xs

  abbrev pub All {κ} : (A → Type κ) → List A → Type κ
  All P [] = Unit
  All P (x ∷ xs) = P x × All P xs

  pub All-append {κ} : (P : A → Type κ) (xs ys : List A) → All P xs → All P ys → All P (xs ++ ys)
  All-append P [] ys h k = k
  All-append P (x ∷ xs) ys h k = (h.0, All-append P xs ys h.1 k)

  pub All-map {κ μ} :
      (P : A → Type κ) (Q : A → Type μ) (xs : List A) → ((x : A) → P x → Q x) → All P xs → All Q xs
  All-map P Q [] f h = tt
  All-map P Q (x ∷ xs) f h = (f x h.0, All-map P Q xs f h.1)

  abbrev pub get_or : List A → ℕ → A → A
  get_or [] i d = d
  get_or (x ∷ xs) zero d = x
  get_or (x ∷ xs) (suc i) d = get_or xs i d

  -- `Iterator::any` and `Iterator::all`.
  unfoldable pub any : (A → Bool) → List A → Bool
  any p [] = false
  any p (x ∷ xs) = p x || any p xs

  unfoldable pub all : (A → Bool) → List A → Bool
  all p [] = true
  all p (x ∷ xs) = p x && all p xs

abbrev pub sum : List ℕ → ℕ
sum [] = 0
sum (x ∷ xs) = x + sum xs

module _ {A : Type 0} where
  abbrev pub Has : A → List A → Type 0
  Has a [] = ⊥
  Has a (x ∷ xs) = (a ≡ x) ⊎ Has a xs

  pub Has-All {κ} : (P : A → Type κ) (a : A) (xs : List A) → All P xs → Has a xs → P a
  Has-All P a [] h m = absurd m
  Has-All P a (x ∷ xs) h (inl e) = subst P (sym e) h.0
  Has-All P a (x ∷ xs) h (inr m) = Has-All P a xs h.1 m

  pub Has-snoc : (a b : A) (xs : List A) → Has a xs ⊎ (a ≡ b) → Has a (xs ++ b ∷ [])
  Has-snoc a b [] (inl m) = absurd m
  Has-snoc a b [] (inr e) = inl e
  Has-snoc a b (x ∷ xs) (inl (inl e)) = inl e
  Has-snoc a b (x ∷ xs) (inl (inr m)) = inr (Has-snoc a b xs (inl m))
  Has-snoc a b (x ∷ xs) (inr e) = inr (Has-snoc a b xs (inr e))

module _ {A B : Type 0} where
  -- No two elements have the same `f`.
  abbrev pub AreDistinct : (A → B) → List A → Type 0
  AreDistinct f [] = Unit
  AreDistinct f (x ∷ xs) = All (λ y. f y ≢ f x) xs × AreDistinct f xs

  pub AreDistinct-snoc :
      (f : A → B) (xs : List A) (a : A)
      → AreDistinct f xs
      → All (λ x. f x ≢ f a) xs
      → AreDistinct f (xs ++ a ∷ [])
  AreDistinct-snoc f [] a h k = (tt, tt)
  AreDistinct-snoc f (x ∷ xs) a h k = (
    All-append (λ y. f y ≢ f x) xs (a ∷ []) h.0 ((λ e. k.0 (sym e)), tt),
    AreDistinct-snoc f xs a h.1 k.1,
  )
