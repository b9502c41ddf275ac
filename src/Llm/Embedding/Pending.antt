-- ===== src/Llm/Embedding/Pending.antt =====
-- Partly filled results: each slot holds the vector of its text or is empty, and the misses list
-- the empty slots in order.
use legal_viet_namese.Base.{
  ℕ, suc, ◌-◌, ◌≤◌, ◌≡◌, refl, List, [], ◌∷◌, Option, none, some, Text, map, set, arith, ap,
}
use legal_viet_namese.Llm.Embedding.{present}

module _ {V : Type 0} (f : Text → V) where
  abbrev pub Pending : ℕ → List Text → List (Option V) → List (ℕ × Text) → Type 0
  Pending i [] [] [] = Unit
  Pending i (t ∷ ts) (some v ∷ rs) ms = (v ≡ f t) × Pending (suc i) ts rs ms
  Pending i (t ∷ ts) (none ∷ rs) (m ∷ ms) = (m.0 ≡ i) × (m.1 ≡ t) × Pending (suc i) ts rs ms
  Pending i ts rs ms = ⊥

  Pending-le :
      (i : ℕ) (ts : List Text) (rs : List (Option V)) (m : ℕ × Text) (ms : List (ℕ × Text))
      → Pending i ts rs (m ∷ ms)
      → i ≤ m.0
  Pending-le i [] [] m ms h = absurd h
  Pending-le i [] (r ∷ rs) m ms h = absurd h
  Pending-le i (t ∷ ts) [] m ms h = absurd h
  Pending-le i (t ∷ ts) (some v ∷ rs) m ms h = omega (arith, Pending-le (suc i) ts rs m ms h.1)
  Pending-le i (t ∷ ts) (none ∷ rs) m ms h = omega (arith, h.0)

  -- writing the vector of the first miss fills its slot
  pub Pending-set :
      (i : ℕ) (ts : List Text) (rs : List (Option V)) (m : ℕ × Text) (ms : List (ℕ × Text))
      → Pending i ts rs (m ∷ ms)
      → Pending i ts (set rs (m.0 - i) (some (f m.1))) ms
  Pending-set i [] [] m ms h = absurd h
  Pending-set i [] (r ∷ rs) m ms h = absurd h
  Pending-set i (t ∷ ts) [] m ms h = absurd h
  Pending-set i (t ∷ ts) (some v ∷ rs) m ms h =
      let further : m.0 - i ≡ suc (m.0 - suc i) =
        omega (arith, Pending-le (suc i) ts rs m ms h.1) in
      rw further ((h.0, Pending-set (suc i) ts rs m ms h.1))
  Pending-set i (t ∷ ts) (none ∷ rs) m ms h =
      let here : m.0 - i ≡ 0 = omega (arith, h.0) in rw here ((ap f h.1, h.2))

  pub Pending-done :
      (i : ℕ) (ts : List Text) (rs : List (Option V)) → Pending i ts rs [] → present rs ≡ map f ts
  Pending-done i [] [] h = refl
  Pending-done i [] (r ∷ rs) h = absurd h
  Pending-done i (t ∷ ts) [] h = absurd h
  Pending-done i (t ∷ ts) (some v ∷ rs) h = cc (h.0, Pending-done (suc i) ts rs h.1)
  Pending-done i (t ∷ ts) (none ∷ rs) h = absurd h
