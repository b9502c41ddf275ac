-- ===== src/Base/Slices.antt =====
-- `xs[start : start + size] for start in range(0, len(xs), size)`
use Prim.Native.Nat.{ℕ, zero, suc, ◌≤◌, ◌<◌}
use mathlib.Core.List.{List, [], ◌∷◌, ◌++◌}
use mathlib.Core.Path.{◌≡◌, refl, ap, ◌∙◌}
use native.Mathlib.Omega.{arith}
use legal_viet_namese.Base.Lists.{
  length, take, drop, All, length-take-le, length-drop, take-append-drop,
}

module _ {ℓ} {A : Type ℓ} where
  slices_fuel : ℕ → ℕ → List A → List (List A)
  slices_fuel size zero xs = []
  slices_fuel size (suc fuel) [] = []
  slices_fuel size (suc fuel) (x ∷ xs) =
      take size (x ∷ xs) ∷ slices_fuel size fuel (drop size (x ∷ xs))

  -- As many rounds as there are elements are enough for a positive size.
  unfoldable pub slices : ℕ → List A → List (List A)
  unfolding slices_fuel
  slices size xs = slices_fuel size (length xs) xs

  abbrev pub concat : List (List A) → List A
  concat [] = []
  concat (xs ∷ xss) = xs ++ concat xss

  concat-slices_fuel :
      (size fuel : ℕ) (xs : List A)
      → 0 < size
      → length xs ≤ fuel
      → concat (slices_fuel size fuel xs) ≡ xs
  unfolding slices_fuel
  concat-slices_fuel size zero [] pos h = refl
  concat-slices_fuel size zero (x ∷ xs) pos h = absurd (omega arith)
  concat-slices_fuel size (suc fuel) [] pos h = refl
  concat-slices_fuel size (suc fuel) (x ∷ xs) pos h =
      ap (λ ys. take size (x ∷ xs) ++ ys)
        (concat-slices_fuel size fuel (drop size (x ∷ xs)) pos
          (omega (arith, length-drop size (x ∷ xs))))
      ∙ take-append-drop size (x ∷ xs)

  -- the slices are the list, cut up
  pub concat-slices : (size : ℕ) (xs : List A) → 0 < size → concat (slices size xs) ≡ xs
  unfolding slices
  concat-slices size xs pos = concat-slices_fuel size (length xs) xs pos (omega arith)

  slices_fuel-bounded :
      (size fuel : ℕ) (xs : List A) → All (λ ys. length ys ≤ size) (slices_fuel size fuel xs)
  unfolding slices_fuel
  slices_fuel-bounded size zero xs = tt
  slices_fuel-bounded size (suc fuel) [] = tt
  slices_fuel-bounded size (suc fuel) (x ∷ xs) =
      (length-take-le size (x ∷ xs), slices_fuel-bounded size fuel (drop size (x ∷ xs)))

  pub slices-bounded : (size : ℕ) (xs : List A) → All (λ ys. length ys ≤ size) (slices size xs)
  unfolding slices
  slices-bounded size xs = slices_fuel-bounded size (length xs) xs
