-- ===== src/Base/Sorting.antt =====
-- `sorted(xs, key=…, reverse=True)`: a stable sort by falling key.
use mathlib.Core.Bool.{Bool, true, false}
use mathlib.Core.List.{List, [], ◌∷◌, Perm}
use mathlib.Core.List.Perm
use mathlib.Core.Logic.{inl, inr}
use mathlib.Core.Path.{◌≡◌}
use legal_viet_namese.Base.Tests.{if◌then◌else◌, Bool-cases}
use legal_viet_namese.Base.Lists.{All}

module _ {ℓ} {A : Type ℓ} (below : A → A → Bool) where
  -- An element goes before the first that is not above it, so equal keys keep their order.
  abbrev pub insert_desc : A → List A → List A
  insert_desc x [] = x ∷ []
  insert_desc x (y ∷ ys) = if below x y then y ∷ insert_desc x ys else x ∷ (y ∷ ys)

  abbrev pub sort_desc : List A → List A
  sort_desc [] = []
  sort_desc (x ∷ xs) = insert_desc x (sort_desc xs)

  insert_desc-perm : (x : A) (ys : List A) → Perm (insert_desc x ys) (x ∷ ys)
  insert_desc-perm x [] = Perm.refl (x ∷ [])
  insert_desc-perm x (y ∷ ys) = elim (Bool-cases (below x y)) [
    | inl lower ↦ rw lower (Perm.trans (Perm.cons y (insert_desc-perm x ys)) (Perm.swap x y ys))
    | inr at_least ↦ rw at_least (Perm.refl (x ∷ y ∷ ys))
  ]

  pub sort_desc-perm : (xs : List A) → Perm (sort_desc xs) xs
  sort_desc-perm [] = Perm.refl []
  sort_desc-perm (x ∷ xs) =
      Perm.trans (insert_desc-perm x (sort_desc xs)) (Perm.cons x (sort_desc-perm xs))

  -- no later element is above an earlier one
  abbrev pub IsDescending : List A → Type ℓ
  IsDescending [] = Unit
  IsDescending (x ∷ xs) = All (λ y. below x y ≡ false) xs × IsDescending xs

module _ {ℓ} {A : Type ℓ} (below : A → A → Bool) where
  pub insert_desc-All {κ} :
      (P : A → Type κ) (x : A) (ys : List A) → P x → All P ys → All P (insert_desc below x ys)
  insert_desc-All P x [] p a = (p, tt)
  insert_desc-All P x (y ∷ ys) p a = elim (Bool-cases (below x y)) [
    | inl lower ↦ rw lower (a.0, insert_desc-All P x ys p a.1)
    | inr at_least ↦ rw at_least (p, (a.0, a.1))
  ]

  pub sort_desc-All {κ} : (P : A → Type κ) (xs : List A) → All P xs → All P (sort_desc below xs)
  sort_desc-All P [] a = tt
  sort_desc-All P (x ∷ xs) a = insert_desc-All P x (sort_desc below xs) a.0 (sort_desc-All P xs a.1)

  module _ (asym : (a b : A) → below a b ≡ true → below b a ≡ false)
      (trans : (a b c : A) → below b a ≡ false → below c b ≡ false → below c a ≡ false) where
    All-below :
        (x y : A) (ys : List A)
        → below x y ≡ false
        → All (λ z. below y z ≡ false) ys
        → All (λ z. below x z ≡ false) ys
    All-below x y [] h a = tt
    All-below x y (z ∷ ys) h a = (trans z y x a.0 h, All-below x y ys h a.1)

    insert_desc-IsDescending :
        (x : A) (ys : List A) → IsDescending below ys → IsDescending below (insert_desc below x ys)
    insert_desc-IsDescending x [] d = (tt, tt)
    insert_desc-IsDescending x (y ∷ ys) d = elim (Bool-cases (below x y)) [
      | inl lower ↦ rw lower (
        insert_desc-All (λ z. below y z ≡ false) x ys (asym x y lower) d.0,
        insert_desc-IsDescending x ys d.1,
      )
      | inr at_least ↦ rw at_least ((at_least, All-below x y ys at_least d.0), d)
    ]

    pub sort_desc-IsDescending : (xs : List A) → IsDescending below (sort_desc below xs)
    sort_desc-IsDescending [] = tt
    sort_desc-IsDescending (x ∷ xs) =
        insert_desc-IsDescending x (sort_desc below xs) (sort_desc-IsDescending xs)
