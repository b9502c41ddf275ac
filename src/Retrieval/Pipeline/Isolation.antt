-- ===== src/Retrieval/Pipeline/Isolation.antt =====
-- Where the chunks of a retrieval, src/retrieval/pipeline.py, come from.
use legal_viet_namese.Base.{
  ℕ, ◌*◌, ◌≤◌, ◌≡◌, refl, Bool, true, false, List, [], ◌∷◌, Option, some, All, All-map, All-take,
  length, Text, arith, map, ◌==◌, if◌then◌else◌, inl, inr, Bool-cases, sort_desc-All, Result, ok,
  err, max, continue,
}
use legal_viet_namese.Core.Redis.{KeyValues}
use legal_viet_namese.Db.Models.{Uuid}
use legal_viet_namese.Retrieval.Scores.{Scores}
use legal_viet_namese.Retrieval.Search.{
  SearchHit, Payload, Qdrant, vector_search, IsAllowed, member,
}
use legal_viet_namese.Retrieval.Search.Isolation.{vector_search-IsAllowed}
use legal_viet_namese.Retrieval.Rerank.{Backends, RerankResult, rerank}
use legal_viet_namese.Retrieval.Rerank.Dispatch.{Fine, rerank-Fine}
use legal_viet_namese.Retrieval.Pipeline.{
  RetrievedChunk, Rewriter, add_best, add_batch, add_batches, hit_below, pool, to_chunk, to_chunks,
  gather, finish, queries_of, retrieve_and_rerank,
}

module _ (scores : Scores) (P : SearchHit scores.Score → Type 0) where
  open scores use {Score, below}

  if-All : (t : Bool) (g h : SearchHit Score) → P g → P h → P (if t then h else g)
  if-All true g h p q = q
  if-All false g h p q = p

  add_best-All :
      (h : SearchHit Score) (by_id : List (SearchHit Score))
      → P h
      → All P by_id
      → All P (add_best scores h by_id)
  add_best-All h [] p a = (p, tt)
  add_best-All h (g ∷ by_id) p a = elim (Bool-cases (g.point_id == h.point_id)) [
    | inl same ↦ rw same (if-All (below g.score h.score) g h a.0 p, a.1)
    | inr other ↦ rw other (a.0, add_best-All h by_id p a.1)
  ]

  add_batch-All :
      (by_id batch : List (SearchHit Score))
      → All P by_id
      → All P batch
      → All P (add_batch scores by_id batch)
  add_batch-All by_id [] a b = a
  add_batch-All by_id (h ∷ batch) a b =
      add_batch-All (add_best scores h by_id) batch (add_best-All h by_id b.0 a) b.1

  add_batches-All :
      (by_id : List (SearchHit Score)) (results : List (List (SearchHit Score)))
      → All P by_id
      → All (All P) results
      → All P (add_batches scores by_id results)
  add_batches-All by_id [] a b = a
  add_batches-All by_id (batch ∷ results) a b =
      add_batches-All (add_batch scores by_id batch) results (add_batch-All by_id batch a b.0) b.1

  pool-All :
      (results : List (List (SearchHit Score))) (top_k : ℕ)
      → All (All P) results
      → All P (pool scores results top_k)
  unfolding pool
  pool-All results top_k a =
      All-take P (top_k * 2) _
        (sort_desc-All (hit_below scores) P _ (add_batches-All [] results tt a))

module _ (scores : Scores) {Vector E : Type 0} (kv : KeyValues) (w : Rewriter E)
    (b : Backends scores.Score E kv) (qdrant : Qdrant scores.Score Vector)
    (embed : Text → Result E Vector) (points : qdrant.Store) (tenant_id : Uuid)
    (user_id : Option Uuid) (doc_ids : Option (List Uuid)) where
  open scores use {Score}

  abbrev Allowed : SearchHit Score → Type 0
  Allowed = IsAllowed qdrant tenant_id user_id doc_ids points

  -- The chunk is a stored point of the tenant, and of the user and the documents if they are given,
  -- with that point's text.
  pub record IsOwned (c : RetrievedChunk Score) : Type 0 where
    pub point : Payload
    pub stored : qdrant.stored points c.chunk_id ≡ some point
    pub same_text : c.text ≡ point.text
    pub of_tenant : point.tenant_id ≡ tenant_id
    pub of_user : (u : Uuid) → user_id ≡ some u → point.user_id ≡ u
    pub of_docs :
        (d : Uuid) (ds : List Uuid) → doc_ids ≡ some (d ∷ ds) → member point.doc_id (d ∷ ds) ≡ true

  to_chunk-IsOwned : (r : RerankResult Score) → Allowed r.hit → IsOwned (to_chunk scores r)
  to_chunk-IsOwned r a = record {
    point = a.point;
    stored = a.stored;
    same_text = a.same_text;
    of_tenant = a.of_tenant;
    of_user = a.of_user;
    of_docs = a.of_docs;
  }

  -- every batch of a success is allowed
  abbrev AllAllowed : Result E (List (List (SearchHit Score))) → Type 0
  AllAllowed (ok results) = All (All Allowed) results
  AllAllowed (err e) = Unit {0}

  gather-AllAllowed :
      (top_k : ℕ) (qs : List Text)
      → AllAllowed (gather scores kv w b qdrant embed points tenant_id user_id doc_ids top_k qs)
  gather-AllAllowed top_k [] = tt
  gather-AllAllowed top_k (q ∷ qs) =
      go (vector_search qdrant embed q tenant_id user_id doc_ids top_k points) refl
        (gather scores kv w b qdrant embed points tenant_id user_id doc_ids top_k qs)
        (gather-AllAllowed top_k qs)
    where
      go :
          (r : Result E (List (SearchHit Score)))
          → vector_search qdrant embed q tenant_id user_id doc_ids top_k points ≡ r
          → (rest : Result E (List (List (SearchHit Score)))) → AllAllowed rest
          → AllAllowed (elim r [
            | err e ↦ err e
            | ok hits ↦ elim rest [ err e ↦ err e | ok more ↦ ok (hits ∷ more) ]
          ])
      go (err e) h rest a = tt
      go (ok hits) h (err e) a = tt
      go (ok hits) h (ok more) a = (
        (vector_search-IsAllowed qdrant embed tenant_id user_id doc_ids points q top_k hits h).0,
        a,
      )

  abbrev pub AllOwned : ℕ → Result E (List (RetrievedChunk Score)) → Type 0
  AllOwned top_k (ok chunks) = All IsOwned chunks × (length chunks ≤ max 1 top_k)
  AllOwned top_k (err e) = Unit {0}

  length-map-chunks :
      (rs : List (RerankResult Score)) → length (map (to_chunk scores) rs) ≡ length rs
  length-map-chunks [] = refl
  length-map-chunks (r ∷ rs) = omega (arith, length-map-chunks rs)

  finish-AllOwned :
      (query : Text) (top_k_search top_k_final : ℕ)
      (results : Result E (List (List (SearchHit Score)))) (s : kv.Store)
      → AllAllowed results
      → AllOwned top_k_final
          (finish scores kv w b qdrant embed points query top_k_search top_k_final results s).0
  finish-AllOwned query top_k_search top_k_final (err e) s a = tt
  finish-AllOwned query top_k_search top_k_final (ok results) s a =
      go (rerank scores kv b query (pool scores results top_k_search) top_k_final true s) (
        rerank-Fine scores kv b Allowed top_k_final query (pool scores results top_k_search) true s
          (pool-All scores Allowed results top_k_search a))
    where
      go :
          (r : Result E (List (RerankResult Score)) × kv.Store)
          → Fine scores kv b Allowed top_k_final r.0
          → AllOwned top_k_final (to_chunks scores kv w b qdrant embed points r).0
      go (err e, s') f = tt
      go (ok ranked, s') f = (
        All-map (λ r. Allowed r.hit) IsOwned (to_chunk scores) to_chunk-IsOwned ranked f.0,
        omega (arith, f.1, length-map-chunks ranked),
      )

  -- Whatever the models answer and the caches hold, a retrieval that succeeds returns stored points
  -- of the tenant, and of the user and the documents if these are given, with the points' texts;
  -- and at most `top_k_final` of them, or one.
  pub retrieve-AllOwned :
      (query : Text) (top_k_search top_k_final : ℕ) (rewrite : Bool) (s : kv.Store)
      → AllOwned top_k_final
          (retrieve_and_rerank scores kv w b qdrant embed points query tenant_id user_id doc_ids
            top_k_search top_k_final rewrite s).0
  unfolding retrieve_and_rerank
  retrieve-AllOwned query top_k_search top_k_final rewrite s =
      go (queries_of scores kv w b qdrant embed points query rewrite s)
    where
      go :
          (q : Result E (List Text) × kv.Store)
          → AllOwned top_k_final
              (continue q.0
                (λ qs. finish scores kv w b qdrant embed points query top_k_search top_k_final (
                  gather scores kv w b qdrant embed points tenant_id user_id doc_ids top_k_search
                    qs))
                q.1).0
      go (err e, s') = tt
      go (ok qs, s') =
          finish-AllOwned query top_k_search top_k_final _ s' (gather-AllAllowed top_k_search qs)
