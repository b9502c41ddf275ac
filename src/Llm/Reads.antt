-- ===== src/Llm/Reads.antt =====
-- What can be read from a process-local cache after a write, and which item a write evicts.
use legal_viet_namese.Base.{
  ◌≤◌, ◌<◌, ◌≡◌, refl, ◌⊎◌, inl, inr, ◌≢◌, true, List, [], ◌∷◌, ◌++◌, Option, none, some, arith,
  length, drop, ltb, text_eq, text_eq_refl, text_eq_iff, Text, Bool-cases, Option-cases, sym, ◌∙◌,
}
use legal_viet_namese.Llm.Lru.{
  Lru, lookup, without, put_last, get, set, copies, IsValid, lookup-put_last, length-put_last,
  lookup-copies,
}

module _ {V : Type 0} where
  -- the key of the oldest item
  abbrev pub oldest : List (Text × V) → Option Text
  oldest [] = none
  oldest (e ∷ d) = some e.0

  without-absent : (k : Text) (d : List (Text × V)) → copies k d ≡ 0 → without k d ≡ d
  without-absent k [] h = refl
  without-absent k (e ∷ d) h = ground (arith, without-absent k d)

  lookup-copies_pos :
      (k : Text) (d : List (Text × V)) → 1 ≤ copies k d → (v : V) × (lookup k d ≡ some v)
  lookup-copies_pos k [] h = absurd (omega arith)
  lookup-copies_pos k (e ∷ d) h = elim (Bool-cases (text_eq e.0 k)) [
    | inl hit ↦ (e.1, rw hit)
    | inr miss ↦ let (v, found) = lookup-copies_pos k d (ground arith) in (v, rw miss found)
  ]

  oldest-append :
      (d : List (Text × V)) (e : Text × V) → 0 < length d → oldest (d ++ (e ∷ [])) ≡ oldest d
  oldest-append [] e h = absurd (omega arith)
  oldest-append (x ∷ d) e h = refl

  oldest-put_last :
      (k : Text) (v : V) (d : List (Text × V))
      → 1 < length (put_last k v d)
      → oldest (put_last k v d) ≢ some k
  oldest-put_last k v [] h = absurd (omega arith)
  oldest-put_last k v (e ∷ d) h = elim (Bool-cases (text_eq e.0 k)) [
    | inl hit ↦ rw hit (oldest-put_last k v d (rw hit at h))
    | inr miss ↦ rw miss (λ same. ground (arith, text_eq_iff e.0 k))
  ]

  lookup-drop :
      (j : Text) (d : List (Text × V)) → oldest d ≢ some j → lookup j (drop 1 d) ≡ lookup j d
  lookup-drop j [] h = refl
  lookup-drop j (e ∷ d) h = ground (arith, text_eq_iff e.0 j)

  pub get-lookup : (c : Lru V) (k : Text) → (get c k).0 ≡ lookup k c.d
  unfolding get
  get-lookup c k = ground arith

  -- What was just stored is read back, if the cache has room for anything.
  pub get-set : (c : Lru V) (k : Text) (v : V) → 0 < c.cap → (get (set c k v) k).0 ≡ some v
  unfolding set
  get-set c k v pos = elim (Bool-cases (ltb c.cap (length (put_last k v c.d)))) [
    | inl over ↦ rw over (
        get-lookup _ k
        ∙ lookup-drop k (put_last k v c.d) (oldest-put_last k v c.d (ground arith))
        ∙ lookup-put_last k k v c.d
        ∙ rw (text_eq_refl k))
    | inr room ↦ rw room (get-lookup _ k ∙ lookup-put_last k k v c.d ∙ rw (text_eq_refl k))
  ]

  evicts :
      (c : Lru V) (k : Text) (v : V)
      → 0 < c.cap
      → IsValid c
      → ltb c.cap (length (put_last k v c.d)) ≡ true
      → (lookup k c.d ≡ none) × (length c.d ≡ c.cap) × (oldest (put_last k v c.d) ≡ oldest c.d)
  evicts c k v pos h over =
      let absent : copies k c.d ≡ 0 = ground (arith, length-put_last k v c.d) in
      (
        elim (Option-cases (lookup k c.d)) [
          | inl miss ↦ miss
          | inr (w, hit) ↦ absurd (omega (arith, lookup-copies k w c.d hit))
        ],
        ground (arith, length-put_last k v c.d),
        rw (without-absent k c.d absent)
            (oldest-append c.d (k, v) (ground (arith, length-put_last k v c.d))),
      )

  -- A write to a valid cache with room for an item leaves the other keys as they were, but for the oldest item of a full cache that does
  -- not hold the written key.
  pub lookup-set_ne :
      (c : Lru V) (k j : Text) (v : V)
      → 0 < c.cap
      → IsValid c
      → k ≢ j
      → ((w : V) × (lookup k c.d ≡ some w)) ⊎ (length c.d < c.cap) ⊎ (oldest c.d ≢ some j)
      → (get (set c k v) j).0 ≡ (get c j).0
  unfolding set
  lookup-set_ne c k j v pos h other spared =
      let kept : lookup j (put_last k v c.d) ≡ lookup j c.d =
        lookup-put_last k j v c.d ∙ ground (arith, text_eq_iff k j) in
      elim (Bool-cases (ltb c.cap (length (put_last k v c.d)))) [
        | inr room ↦ rw room (get-lookup _ j ∙ kept ∙ sym (get-lookup c j))
        | inl over ↦
            let (missing, full, same) = evicts c k v pos h over in
            rw over (
              get-lookup _ j
              ∙ lookup-drop j (put_last k v c.d) (rw same (ground arith))
              ∙ kept
              ∙ sym (get-lookup c j))
      ]
