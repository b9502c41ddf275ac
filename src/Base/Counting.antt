-- ===== src/Base/Counting.antt =====
-- Laws of `count`.
use Prim.Native.Nat.{◌≤◌}
use mathlib.Core.Bool.{Bool, true, false}
use mathlib.Core.List.{List, [], ◌∷◌}
use mathlib.Core.Path.{◌≡◌, refl, ap, fun_ext}
use native.Mathlib.Omega.{arith}
use legal_viet_namese.Base.Lists.{count, All, length}

module _ {ℓ} {A : Type ℓ} where
  pub count_mono :
      (p q : A → Bool) (xs : List A) → ((x : A) → p x ≡ true → q x ≡ true) → count p xs ≤ count q xs
  count_mono p q [] h = omega arith
  count_mono p q (x ∷ xs) h = ground (arith, h x, count_mono p q xs h)

  pub count-congr : (p q : A → Bool) (xs : List A) → ((x : A) → p x ≡ q x) → count p xs ≡ count q xs
  count-congr p q xs h = ap (λ (r : A → Bool). count r xs) (fun_ext h)

  pub count-congr-All {κ} :
      (P : A → Type κ) (p q : A → Bool) (xs : List A)
      → All P xs
      → ((x : A) → P x → p x ≡ q x)
      → count p xs ≡ count q xs
  count-congr-All P p q [] a h = refl
  count-congr-All P p q (x ∷ xs) a h = ground (arith, h x a.0, count-congr-All P p q xs a.1 h)

  pub count_none : (xs : List A) → count (λ x. false) xs ≡ 0
  count_none [] = refl
  count_none (x ∷ xs) = omega (arith, count_none xs)

  pub count_all : (xs : List A) → count (λ x. true) xs ≡ length xs
  count_all [] = refl
  count_all (x ∷ xs) = omega (arith, count_all xs)
