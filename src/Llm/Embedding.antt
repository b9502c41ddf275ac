-- ===== src/Llm/Embedding.antt =====
-- `EmbeddingClient.embed` of src/llm/client.py: vectors in the order of the texts, each looked up
-- in the process cache, then in Redis, and the rest fetched in batches.
pub mod Pending
pub mod Laws
use legal_viet_namese.Base.{
  ℕ, zero, suc, Bool, true, false, List, [], ◌∷◌, Option, none, some, Text, chars, map, filter,
  is_some, is_empty, set, slices, ◌==◌, if◌then◌else◌, Result, ok, err, Exec, ◌>>=◌, ◌>>◌, pure,
  raise, raise_if,
}
use legal_viet_namese.Core.Redis.{KeyValues, Codec, make_key, cache_get, cache_set}
use legal_viet_namese.Llm.Lru
use legal_viet_namese.Llm.Lru.{Lru}

-- what `embed` may raise: what the API raises after the retries, or a ValueError of `zip` or
-- `range`
pub data EmbedError : Type 0 where
  upstream_error : EmbedError
  value_error : EmbedError

-- the settings that the client reads
pub record EmbeddingConfig : Type 0 where
  pub model : Text
  pub batch_size : ℕ
  pub ttl_s : ℕ

-- `[v for v in results if v is not None]`
abbrev pub present : {V : Type 0} → List (Option V) → List V
present [] = []
present (none ∷ results) = present results
present (some v ∷ results) = v ∷ present results

-- `V` is a vector. `upstream` is the call of the embeddings API with its retries.
module _ (kv : KeyValues) {V : Type 0} (json : Codec V) (sha256 : Text → Text)
    (upstream : List Text → Result EmbedError (List V)) (config : EmbeddingConfig) where
  -- the process cache and Redis
  abbrev pub Caches : Type 0
  Caches = Lru V × kv.Store

  pub embed_key : Text → Text
  embed_key t = make_key sha256 (chars "emb") (config.model ∷ t ∷ [])

  -- the lookups of one text
  unfoldable pub cached : Text → Caches → Option V × Caches
  cached key (lru, store) =
      let (v, lru') = Lru.get lru key in
      elim v [
        | some w ↦ (some w, (lru', store))
        | none ↦ elim (cache_get kv json store key) [
          | some w ↦ (some w, (Lru.set lru' key w, store))
          | none ↦ (none, (lru', store))
        ]
      ]

  -- The first loop: `results`, and `misses` with their indices from `i` on.
  unfoldable pub look_up :
      Bool → ℕ → List Text → Caches → (List (Option V) × List (ℕ × Text)) × Caches
  look_up use_cache i [] c = (([], []), c)
  look_up use_cache i (t ∷ ts) c =
      let (v, c1) = if use_cache then cached (embed_key t) c else (none, c) in
      let ((results, misses), c2) = look_up use_cache (suc i) ts c1 in
      ((v ∷ results, if is_some v then misses else (i, t) ∷ misses), c2)

  -- `results` and the caches, while the batches are fetched
  abbrev pub Filling : Type 0
  Filling = List (Option V) × Caches

  unfoldable pub keep : Bool → Text → V → Caches → Caches
  keep use_cache key vec (lru, store) =
      if use_cache
      then (Lru.set lru key vec, cache_set kv json key vec config.ttl_s store)
      else (lru, store)

  -- `for (idx, txt), vec in zip(batch, vectors, strict=True)`
  unfoldable pub store_batch : Bool → List (ℕ × Text) → List V → Exec Filling EmbedError (Unit {0})
  store_batch use_cache [] [] f = (ok tt, f)
  store_batch use_cache ((idx, txt) ∷ batch) (vec ∷ vectors) (results, c) =
      store_batch use_cache batch vectors
        (set results idx (some vec), keep use_cache (embed_key txt) vec c)
  store_batch use_cache [] (vec ∷ vectors) f = (err value_error, f)
  store_batch use_cache ((idx, txt) ∷ batch) [] f = (err value_error, f)

  abbrev pub call : List Text → Exec Filling EmbedError (List V)
  call texts f = (upstream texts, f)

  -- one round of the loop over the batches
  unfoldable pub fetch_batch : Bool → List (ℕ × Text) → Exec Filling EmbedError (Unit {0})
  fetch_batch use_cache batch = do
    vectors ← call (map (λ e. e.1) batch)
    store_batch use_cache batch vectors

  unfoldable pub fetch : Bool → List (List (ℕ × Text)) → Exec Filling EmbedError (Unit {0})
  fetch use_cache [] = pure tt
  fetch use_cache (batch ∷ batches) = do fetch_batch use_cache batch; fetch use_cache batches

  -- `if misses:` and what stands under it
  unfoldable pub fetch_misses : Bool → List (ℕ × Text) → Exec Filling EmbedError (Unit {0})
  fetch_misses use_cache [] = pure tt
  fetch_misses use_cache (m ∷ ms) = do
    raise_if (config.batch_size == 0) value_error
    fetch use_cache (slices config.batch_size (m ∷ ms))

  -- the return statement, once the batches are there
  abbrev pub collect : Result EmbedError (Unit {0}) × Filling → Result EmbedError (List V) × Caches
  collect (ok done, (results, c)) = (ok (present results), c)
  collect (err e, (results, c)) = (err e, c)

  unfoldable pub embed : Bool → List Text → Exec Caches EmbedError (List V)
  embed use_cache [] c = (ok [], c)
  embed use_cache (t ∷ ts) c =
      let ((results, misses), c1) = look_up use_cache 0 (t ∷ ts) c in
      collect (fetch_misses use_cache misses (results, c1))
