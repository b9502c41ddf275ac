-- ===== src/Llm/Embedding/Laws.antt =====
-- `embed` of src/llm/client.py beside its specification, a map over the texts.
use legal_viet_namese.Base.{
  ℕ, suc, ◌<◌, ◌≡◌, refl, sym, ap, subst, ◌⊎◌, inl, inr, Bool, true, false, List, [], ◌∷◌, ◌++◌,
  Option, none, some, Text, map, set, arith, Option-cases, Result, ok, concat, slices,
  concat-slices, ◌==◌, ◌∙◌,
}
use native.Mathlib.Nat.{sub-zero}
use legal_viet_namese.Core.Redis.{
  KeyValues, Codec, make_key-last, cache_get, cache_get-holds, cache_set-Coherent, Coherent,
}
use legal_viet_namese.Llm.Lru
use legal_viet_namese.Llm.Lru.{Lru}
use legal_viet_namese.Llm.Holding.{Holds, lookup-Holds, get-Holds, set-Holds}
use legal_viet_namese.Llm.Reads.{get-lookup}
use legal_viet_namese.Llm.Embedding.{
  EmbedError, EmbeddingConfig, embed_key, cached, look_up, keep, store_batch, fetch_batch, fetch,
  fetch_misses, embed, collect,
}
use legal_viet_namese.Llm.Embedding.Pending.{Pending, Pending-set, Pending-done}

module _ (kv : KeyValues) {V : Type 0} (json : Codec V) (sha256 : Text → Text)
    (injective : (x y : Text) → sha256 x ≡ sha256 y → x ≡ y)
    (upstream : List Text → Result EmbedError (List V)) (config : EmbeddingConfig)
    (f : Text → V) where
  abbrev key : Text → Text
  key = embed_key kv json sha256 upstream config

  -- what is cached under the key of a text is its vector
  abbrev pub Right : Text → V → Type 0
  Right k v = (t : Text) → k ≡ key t → v ≡ f t

  pub record AreRight (c : Lru V × kv.Store) : Type 0 where
    pub lru : Holds Right c.0
    pub store : Coherent kv json Right c.1

  own-Right : (t : Text) → Right (key t) (f t)
  unfolding embed_key
  own-Right t u e = ap f (make_key-last sha256 injective _ config.model t u e)

  abbrev BothCaches : Type 0
  BothCaches = Lru V × kv.Store

  -- a lookup returns the vector or nothing, and leaves the caches right
  abbrev Looked : Text → Option V × BothCaches → Type 0
  Looked t (v, c) = ((v ≡ none) ⊎ (v ≡ some (f t))) × AreRight c

  cached-Looked :
      (t : Text) (c : BothCaches)
      → AreRight c
      → Looked t (cached kv json sha256 upstream config (key t) c)
  unfolding cached
  cached-Looked t (lru, store) h = elim (Option-cases (Lru.get lru (key t)).0) [
    | inr (v, hit) ↦
        rw (hit, cached)
          (
            inr (
                ap some (
                  lookup-Holds Right (key t) v lru.d h.lru (sym (get-lookup lru (key t)) ∙ hit) t
                    refl)),
            record { lru = get-Holds Right lru (key t) h.lru; store = h.store },
          )
    | inl miss ↦ elim (Option-cases (cache_get kv json store (key t))) [
      | inl gone ↦
          rw (miss, gone, cached)
            ((inl refl, record { lru = get-Holds Right lru (key t) h.lru; store = h.store }))
      | inr (v, hit) ↦
          let right : Right (key t) v = cache_get-holds kv json Right store (key t) v h.store hit in
          rw (miss, hit, cached)
            (
              inr (ap some (right t refl)),
              record {
                lru = set-Holds Right _ (key t) v right (get-Holds Right lru (key t) h.lru);
                store = h.store;
              },
            )
    ]
  ]

  keep-AreRight :
      (use_cache : Bool) (t : Text) (c : BothCaches)
      → AreRight c
      → AreRight (keep kv json sha256 upstream config use_cache (key t) (f t) c)
  unfolding keep
  keep-AreRight true t (lru, store) h = record {
    lru = set-Holds Right lru (key t) (f t) (own-Right t) h.lru;
    store = cache_set-Coherent kv json Right (key t) (f t) config.ttl_s store (own-Right t) h.store;
  }
  keep-AreRight false t c h = h

  look_up-Pending :
      (use_cache : Bool) (i : ℕ) (ts : List Text) (c : BothCaches)
      → AreRight c
      → let ((rs, ms), c') = look_up kv json sha256 upstream config use_cache i ts c in
        Pending f i ts rs ms × AreRight c'
  unfolding look_up
  look_up-Pending use_cache i [] c h = (tt, h)
  look_up-Pending true i (t ∷ ts) c h =
      let (v, right) = cached-Looked t c h in
      let (p, r) =
        look_up-Pending true (suc i) ts (cached kv json sha256 upstream config (key t) c).1 right in
      elim v [ inl miss ↦ rw miss ((refl, refl, p), r) | inr hit ↦ rw hit ((refl, p), r) ]
  look_up-Pending false i (t ∷ ts) c h =
      let (p, r) = look_up-Pending false (suc i) ts c h in ((refl, refl, p), r)

  store_batch-Pending :
      (use_cache : Bool) (ts : List Text) (batch rest : List (ℕ × Text)) (rs : List (Option V))
      (c : BothCaches)
      → Pending f 0 ts rs (batch ++ rest)
      → AreRight c
      → (rs' : List (Option V)) × (c' : BothCaches) × (store_batch kv json sha256 upstream config
            use_cache batch
            (map f (map (λ e. e.1) batch))
            (rs, c)
          ≡ (ok tt, (rs', c')))
        × Pending f 0 ts rs' rest
        × AreRight c'
  unfolding store_batch
  store_batch-Pending use_cache ts [] rest rs c p h = (rs, c, refl, p, h)
  store_batch-Pending use_cache ts (m ∷ batch) rest rs c p h =
      store_batch-Pending use_cache ts batch rest (set rs m.0 (some (f m.1))) _
        (rw sub-zero at (Pending-set f 0 ts rs m (batch ++ rest) p))
        (keep-AreRight use_cache m.1 c h)

  module _ (answers : (texts : List Text) → upstream texts ≡ ok (map f texts)) where
    fetch-Pending :
        (use_cache : Bool) (ts : List Text) (batches : List (List (ℕ × Text)))
        (rs : List (Option V)) (c : BothCaches)
        → Pending f 0 ts rs (concat batches)
        → AreRight c
        → (rs' : List (Option V)) × (c' : BothCaches) × (fetch kv json sha256 upstream config
              use_cache batches
              (rs, c)
            ≡ (ok tt, (rs', c')))
          × Pending f 0 ts rs' []
          × AreRight c'
    unfolding fetch fetch_batch
    fetch-Pending use_cache ts [] rs c p h = (rs, c, refl, p, h)
    fetch-Pending use_cache ts (batch ∷ batches) rs c p h =
        let (rs1, c1, stored, p1, h1) =
          store_batch-Pending use_cache ts batch (concat batches) rs c p h in
        let (rs2, c2, fetched, p2, h2) = fetch-Pending use_cache ts batches rs1 c1 p1 h1 in
        (rs2, c2, rw (answers, stored) fetched, p2, h2)

    fetch_misses-Pending :
        (use_cache : Bool) (ts : List Text) (misses : List (ℕ × Text)) (rs : List (Option V))
        (c : BothCaches)
        → 0 < config.batch_size
        → Pending f 0 ts rs misses
        → AreRight c
        → (rs' : List (Option V)) × (c' : BothCaches) × (fetch_misses kv json sha256 upstream config
              use_cache misses
              (rs, c)
            ≡ (ok tt, (rs', c')))
          × Pending f 0 ts rs' []
          × AreRight c'
    unfolding fetch_misses
    fetch_misses-Pending use_cache ts [] rs c pos p h = (rs, c, refl, p, h)
    fetch_misses-Pending use_cache ts (m ∷ ms) rs c pos p h =
        let size = config.batch_size in
        let positive : (size == 0) ≡ false = ground arith in
        let cut = subst (Pending f 0 ts rs) (sym (concat-slices size (m ∷ ms) pos)) p in
        let (rs', c', fetched, p', h') =
          fetch-Pending use_cache ts (slices size (m ∷ ms)) rs c cut h in
        (rs', c', rw positive fetched, p', h')

    -- If the hash is injective, the caches hold right vectors only, and the API answers with the
    -- vector of each text, `embed` returns the vector of each text, in
    -- order, for every batch size but 0 and with and without the caches, which stay right.
    pub embed-eq-map :
        (use_cache : Bool) (ts : List Text) (c : BothCaches)
        → 0 < config.batch_size
        → AreRight c
        → (c' : BothCaches) × (embed kv json sha256 upstream config use_cache ts c
            ≡ (ok (map f ts), c'))
          × AreRight c'
    unfolding embed
    embed-eq-map use_cache [] c pos h = (c, refl, h)
    embed-eq-map use_cache (t ∷ ts) c pos h =
        let looked = look_up kv json sha256 upstream config use_cache 0 (t ∷ ts) c in
        let (p, h1) = look_up-Pending use_cache 0 (t ∷ ts) c h in
        let (rs, c', fetched, done, h2) =
          fetch_misses-Pending use_cache (t ∷ ts) looked.0.1 looked.0.0 looked.1 pos p h1 in
        (
          c',
          ap (collect kv json sha256 upstream config) fetched
              ∙ ap {B = Result EmbedError (List V) × BothCaches} (λ vs. (ok vs, c'))
                  (Pending-done f 0 (t ∷ ts) rs done),
          h2,
        )
