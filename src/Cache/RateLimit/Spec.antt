-- ===== src/Cache/RateLimit/Spec.antt =====
-- What a sliding-window limiter promises, over a log of the accepted requests, newest first.
use legal_viet_namese.Base.{
  ℕ, ◌-◌, ◌≤◌, ◌<◌, Bool, ◌&&◌, List, [], ◌∷◌, leb, ltb, Text, arith, count, count_mono,
  if◌then◌else◌, Bool-cases, inl, inr,
}
use legal_viet_namese.Cache.SortedSet.{Entry}
use legal_viet_namese.Cache.RateLimit.{Request}

-- accepted requests of the last `window` microseconds
abbrev pub recent : ℕ → ℕ → List Entry → ℕ
recent window now log = count (λ e. ltb (now - window) e.0) log

-- The specification: a request is accepted exactly if fewer than `limit` were in the window.
unfoldable pub ideal : ℕ → ℕ → (ℕ → Text → Text) → List Entry → List Request → List Entry
ideal limit window member log [] = log
ideal limit window member log ((now, hex) ∷ rest) =
    ideal limit window member
      (if ltb (recent window now log) limit then (now, member now hex) ∷ log else log) rest

-- the times grow
abbrev pub Increasing : ℕ → List Request → Type 0
Increasing last [] = Unit {0}
Increasing last ((now, hex) ∷ rest) = (last < now) × Increasing now rest

-- accepted requests of the window that ends at `t`
abbrev pub in_window : ℕ → ℕ → Entry → Bool
in_window window t e = ltb (t - window) e.0 && leb e.0 t

abbrev pub Bounded : ℕ → ℕ → List Entry → Type 0
Bounded limit window log = (t : ℕ) → count (in_window window t) log ≤ limit

recent_mono :
    (window t now : ℕ) (log : List Entry)
    → now ≤ t
    → count (in_window window t) log ≤ recent window now log
recent_mono window t now log h =
    count_mono (in_window window t) (λ e. ltb (now - window) e.0) log (λ e k. ground arith)

pub accept-Bounded :
    (limit window now : ℕ) (name : Text) (log : List Entry)
    → recent window now log < limit
    → Bounded limit window log
    → Bounded limit window ((now, name) ∷ log)
accept-Bounded limit window now name log room b t = elim (Bool-cases (leb now t)) [
  | inl later ↦ ground (arith, recent_mono window t now log)
  | inr earlier ↦ ground (arith, b t)
]

ideal-keeps :
    (limit window : ℕ) (member : ℕ → Text → Text) (reqs : List Request) (log : List Entry)
    → Bounded limit window log
    → Bounded limit window (ideal limit window member log reqs)
unfolding ideal
ideal-keeps limit window member [] log b = b
ideal-keeps limit window member ((now, hex) ∷ rest) log b =
    elim (Bool-cases (ltb (recent window now log) limit)) [
      | inl room ↦ rw room (
          ideal-keeps limit window member rest _
            (accept-Bounded limit window now (member now hex) log (ground arith) b))
      | inr full ↦ rw full (ideal-keeps limit window member rest log b)
    ]

pub ideal-Bounded :
    (limit window : ℕ) (member : ℕ → Text → Text) (reqs : List Request)
    → Bounded limit window (ideal limit window member [] reqs)
ideal-Bounded limit window member reqs = ideal-keeps limit window member reqs [] (λ t. omega arith)
