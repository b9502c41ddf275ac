-- ===== src/Llm/Holding.antt =====
-- A property of what a process-local cache holds under its keys.
use legal_viet_namese.Base.{
  ◌≡◌, List, [], ◌∷◌, some, Text, text_eq, text_eq_sound, not, length, ltb, Bool-cases,
  Option-cases, inl, inr, All, All-append, All-drop, All-filter, subst, or_else, ap,
}
use legal_viet_namese.Llm.Lru.{Lru, lookup, without, put_last, get, set}

module _ {V : Type 0} (P : Text → V → Type 0) where
  abbrev pub Holds : Lru V → Type 0
  Holds c = All (λ e. P e.0 e.1) c.d

  pub lookup-Holds :
      (k : Text) (v : V) (d : List (Text × V))
      → All (λ e. P e.0 e.1) d
      → lookup k d ≡ some v
      → P k v
  lookup-Holds k v [] h found = cc
  lookup-Holds k v (e ∷ d) h found = elim (Bool-cases (text_eq e.0 k)) [
    | inl hit ↦
        subst (λ j. P j v) (text_eq_sound e.0 k hit)
          (subst (P e.0) (ap (λ o. or_else o v) (rw hit at found)) h.0)
    | inr miss ↦ lookup-Holds k v d h.1 (rw miss at found)
  ]

  put_last-Holds :
      (k : Text) (v : V) (d : List (Text × V))
      → P k v
      → All (λ e. P e.0 e.1) d
      → All (λ e. P e.0 e.1) (put_last k v d)
  put_last-Holds k v d p h =
      All-append (λ e. P e.0 e.1) (without k d) ((k, v) ∷ [])
        (All-filter (λ e. P e.0 e.1) (λ e. not (text_eq e.0 k)) d h) (p, tt)

  pub get-Holds : (c : Lru V) (k : Text) → Holds c → Holds (get c k).1
  unfolding get
  get-Holds c k h = elim (Option-cases (lookup k c.d)) [
    | inl miss ↦ rw (miss, get) h
    | inr (v, hit) ↦ rw (hit, get) (put_last-Holds k v c.d (lookup-Holds k v c.d h hit) h)
  ]

  pub set-Holds : (c : Lru V) (k : Text) (v : V) → P k v → Holds c → Holds (set c k v)
  unfolding set
  set-Holds c k v p h = elim (Bool-cases (ltb c.cap (length (put_last k v c.d)))) [
    | inl over ↦
        rw over (All-drop (λ e. P e.0 e.1) 1 (put_last k v c.d) (put_last-Holds k v c.d p h))
    | inr room ↦ rw room (put_last-Holds k v c.d p h)
  ]
