-- ===== src/Llm/Lru.antt =====
-- `_LRU` of src/llm/client.py. An OrderedDict is the list of its items, oldest first.
use legal_viet_namese.Base.{
  text_eq_iff, Option-cases, Bool-cases, inl, inr, zero, ℕ, suc, ◌+◌, ◌≤◌, ◌≡◌, refl, not, List, [],
  ◌∷◌, ◌++◌, Option, none, some, arith, length, length-append, length-drop, drop, filter, count,
  ltb, text_eq, Text, if◌then◌else◌,
}

pub record Lru (V : Type 0) : Type 0 where
  pub cap : ℕ
  pub d : List (Text × V)

module _ {V : Type 0} where
  -- `d.get(k)`
  abbrev pub lookup : Text → List (Text × V) → Option V
  lookup k [] = none
  lookup k (e ∷ d) = if text_eq e.0 k then some e.1 else lookup k d

  -- the items of the other keys
  abbrev pub without : Text → List (Text × V) → List (Text × V)
  without k d = filter (λ e. not (text_eq e.0 k)) d

  -- `d.move_to_end(k)` after `d[k] = v`
  abbrev pub put_last : Text → V → List (Text × V) → List (Text × V)
  put_last k v d = without k d ++ ((k, v) ∷ [])

  unfoldable pub get : Lru V → Text → Option V × Lru V
  get c k = elim (lookup k c.d) [
    | none ↦ (none, c)
    | some v ↦ (some v, record c { d = put_last k v c.d })
  ]

  unfoldable pub set : Lru V → Text → V → Lru V
  set c k v =
      let d = put_last k v c.d in
      if ltb c.cap (length d) then record c { d = drop 1 d } else record c { d = d }

  -- how many items a key has
  abbrev pub copies : Text → List (Text × V) → ℕ
  copies k d = count (λ e. text_eq e.0 k) d

  -- No key twice, and no more items than the capacity.
  pub record IsValid (c : Lru V) : Type 0 where
    pub fits : length c.d ≤ c.cap
    pub distinct : (k : Text) → copies k c.d ≤ 1

  pub lookup-put_last :
      (k j : Text) (v : V) (d : List (Text × V))
      → lookup j (put_last k v d) ≡ (if text_eq k j then some v else lookup j d)
  lookup-put_last k j v [] = refl
  lookup-put_last k j v (e ∷ d) =
      ground (arith, lookup-put_last k j v d, text_eq_iff e.0 k, text_eq_iff e.0 j, text_eq_iff k j)

  copies-put_last :
      (k j : Text) (v : V) (d : List (Text × V))
      → copies j (put_last k v d) ≡ (if text_eq k j then 1 else copies j d)
  copies-put_last k j v [] = ground arith
  copies-put_last k j v (e ∷ d) =
      ground (arith, copies-put_last k j v d, text_eq_iff e.0 k, text_eq_iff e.0 j, text_eq_iff k j)

  length-without : (k : Text) (d : List (Text × V)) → length (without k d) + copies k d ≡ length d
  length-without k [] = omega arith
  length-without k (e ∷ d) = ground (arith, length-without k d)

  pub lookup-copies :
      (k : Text) (v : V) (d : List (Text × V)) → lookup k d ≡ some v → 1 ≤ copies k d
  lookup-copies k v [] h = cc
  lookup-copies k v (e ∷ d) h = ground (arith, lookup-copies k v d)

  pub length-put_last :
      (k : Text) (v : V) (d : List (Text × V)) → length (put_last k v d) + copies k d ≡ length d + 1
  length-put_last k v d =
      omega (arith, length-append (without k d) ((k, v) ∷ []), length-without k d)

  copies-drop-le : (k : Text) (n : ℕ) (d : List (Text × V)) → copies k (drop n d) ≤ copies k d
  copies-drop-le k zero d = omega arith
  copies-drop-le k (suc n) [] = omega arith
  copies-drop-le k (suc n) (e ∷ d) = ground (arith, copies-drop-le k n d)

  put_last-distinct :
      (k j : Text) (v : V) (d : List (Text × V)) → copies j d ≤ 1 → copies j (put_last k v d) ≤ 1
  put_last-distinct k j v d h = ground (arith, copies-put_last k j v d)

  pub get-IsValid : (c : Lru V) (k : Text) → IsValid c → IsValid (get c k).1
  unfolding get
  get-IsValid c k h = elim (Option-cases (lookup k c.d)) [
    | inl miss ↦ rw (miss, get) h
    | inr (v, hit) ↦
        rw (hit, get)
          (record {
            fits = omega (arith, length-put_last k v c.d, lookup-copies k v c.d hit, h.fits);
            distinct = λ j. put_last-distinct k j v c.d (h.distinct j);
          })
  ]

  -- `set` keeps a cache valid: at most `cap` items, and no key twice.
  pub set-IsValid : (c : Lru V) (k : Text) (v : V) → IsValid c → IsValid (set c k v)
  unfolding set
  set-IsValid c k v h = elim (Bool-cases (ltb c.cap (length (put_last k v c.d)))) [
    | inl over ↦ rw over (record {
      fits = omega (arith, length-put_last k v c.d, length-drop 1 (put_last k v c.d), h.fits);
      distinct = λ j. omega (
        arith,
        copies-drop-le j 1 (put_last k v c.d),
        put_last-distinct k j v c.d (h.distinct j),
      );
    })
    | inr room ↦
        rw room (record {
          fits = ground arith;
          distinct = λ j. put_last-distinct k j v c.d (h.distinct j);
        })
  ]
