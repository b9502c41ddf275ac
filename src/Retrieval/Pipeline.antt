-- ===== src/Retrieval/Pipeline.antt =====
-- src/retrieval/pipeline.py: rewrite, search, pool, rerank.
pub mod Pool
pub mod Isolation
use legal_viet_namese.Base.{
  ℕ, ◌*◌, Bool, true, false, not, ◌&&◌, List, [], ◌∷◌, ◌++◌, map, filter, Option, none, some, Text,
  chars, take, is_empty, ltb, sort_desc, ◌==◌, if◌then◌else◌, Result, ok, err, Exec, ◌>>=◌,
}
use legal_viet_namese.Core.Redis.{KeyValues, Codec, make_key, cache_get, cache_set}
use legal_viet_namese.Db.Models.{Uuid}
use legal_viet_namese.Retrieval.Scores.{Scores}
use legal_viet_namese.Retrieval.Search.{SearchHit, Qdrant, vector_search}
use legal_viet_namese.Retrieval.Rerank.{Backends, RerankResult, rerank}

pub record RetrievedChunk (S : Type 0) : Type 0 where
  pub doc_id : Uuid
  pub chunk_id : Uuid
  pub doc_title : Text
  pub heading_path : Option Text
  pub page_from : Option ℕ
  pub page_to : Option ℕ
  pub text : Text
  pub score : S

-- What the code reads of the model's rewriting: the list under "queries", where an entry that is
-- no string is `none`; or invalid JSON; or another exception.
pub data Rewriting (E : Type 0) : Type 0 where
  invalid_json : Rewriting E
  raises : E → Rewriting E
  queries : List (Option Text) → Rewriting E

-- what `rewrite_query` takes from elsewhere; `strip` is `str.strip`
pub record Rewriter (E : Type 0) : Type 0 where
  pub json : Codec (List Text)
  pub sha256 : Text → Text
  pub llm_model : Text
  pub system_prompt : Text
  pub complete : Text → Text → Result E Text
  pub read : Text → Rewriting E
  pub strip : Text → Text
  -- whether the GET and the SET of a cache key get an answer from Redis
  pub reads : Text → Result E (Unit {0})
  pub writes : Text → Result E (Unit {0})

module _ {E : Type 0} (kv : KeyValues) (w : Rewriter E) where
  -- `[q for q in … if isinstance(q, str) and q.strip()]`
  abbrev pub usable : List (Option Text) → List Text
  usable [] = []
  usable (none ∷ qs) = usable qs
  usable (some q ∷ qs) = if is_empty (w.strip q) then usable qs else q ∷ usable qs

  abbrev pub readable : Rewriting E → Result E (List Text)
  readable invalid_json = ok []
  readable (raises e) = err e
  readable (queries qs) = ok (usable qs)

  -- `if not qs: qs = [query]`, then `qs[:3]`
  abbrev pub at_most_three : Text → List Text → List Text
  at_most_three query [] = query ∷ []
  at_most_three query (q ∷ qs) = take 3 (q ∷ qs)

  abbrev pub save_queries : Bool → Text → Text → Result E (List Text) → Exec kv.Store E (List Text)
  save_queries use_cache key query (err e) s = (err e, s)
  save_queries use_cache key query (ok qs) s =
      let kept = at_most_three query qs in
      if use_cache
      then elim (w.writes key) [
        | err e ↦ (err e, s)
        | ok u ↦ (ok kept, cache_set kv w.json key kept 600 s)
      ]
      else (ok kept, s)

  abbrev pub new_queries : Text → Result E (List Text)
  new_queries query = elim (w.complete w.system_prompt query) [
    | err e ↦ err e
    | ok raw ↦ readable (w.read raw)
  ]

  unfoldable pub rewrite_query : Text → Bool → Exec kv.Store E (List Text)
  rewrite_query query use_cache s =
      let key = make_key w.sha256 (chars "rewrite") (w.llm_model ∷ query ∷ []) in
      let fresh = save_queries use_cache key query (new_queries query) in
      elim (if use_cache then w.reads key else ok tt) [
        | err e ↦ (err e, s)
        | ok u ↦ elim (if use_cache then cache_get kv w.json s key else none) [
          | some qs ↦ (ok qs, s)
          | none ↦ fresh s
        ]
      ]

module _ (scores : Scores) where
  open scores use {Score, below}

  abbrev pub Hits : Type 0
  Hits = List (SearchHit Score)

  -- `by_id`, a dict in the order of insertion: a hit replaces one of its id with a lower score
  abbrev pub add_best : SearchHit Score → Hits → Hits
  add_best h [] = h ∷ []
  add_best h (g ∷ by_id) =
      if g.point_id == h.point_id
      then (if below g.score h.score then h else g) ∷ by_id
      else g ∷ add_best h by_id

  abbrev pub add_batch : Hits → Hits → Hits
  add_batch by_id [] = by_id
  add_batch by_id (h ∷ batch) = add_batch (add_best h by_id) batch

  abbrev pub add_batches : Hits → List Hits → Hits
  add_batches by_id [] = by_id
  add_batches by_id (batch ∷ results) = add_batches (add_batch by_id batch) results

  abbrev pub hit_below : SearchHit Score → SearchHit Score → Bool
  hit_below a b = below a.score b.score

  -- the hits of all queries, one for each point, best first, `top_k_search * 2` at most
  unfoldable pub pool : List Hits → ℕ → Hits
  pool results top_k_search = take (top_k_search * 2) (sort_desc hit_below (add_batches [] results))

  abbrev pub to_chunk : RerankResult Score → RetrievedChunk Score
  to_chunk r = record {
    doc_id = r.hit.doc_id;
    chunk_id = r.hit.point_id;
    doc_title = r.hit.doc_title;
    heading_path = r.hit.heading_path;
    page_from = r.hit.page_from;
    page_to = r.hit.page_to;
    text = r.hit.text;
    score = r.score;
  }

  module _ {Vector E : Type 0} (kv : KeyValues) (w : Rewriter E) (b : Backends Score E kv)
      (qdrant : Qdrant Score Vector) (embed : Text → Result E Vector) (points : qdrant.Store) where
    -- `asyncio.gather`: the first search that raises is the outcome
    abbrev pub gather :
        Uuid → Option Uuid → Option (List Uuid) → ℕ → List Text → Result E (List Hits)
    gather tenant_id user_id doc_ids top_k [] = ok []
    gather tenant_id user_id doc_ids top_k (q ∷ qs) =
        elim (vector_search qdrant embed q tenant_id user_id doc_ids top_k points) [
          | err e ↦ err e
          | ok hits ↦ elim (gather tenant_id user_id doc_ids top_k qs) [
            | err e ↦ err e
            | ok rest ↦ ok (hits ∷ rest)
          ]
        ]

    -- the returned list, once the reranker has answered
    abbrev pub to_chunks :
        Result E (List (RerankResult Score)) × kv.Store
        → Result E (List (RetrievedChunk Score)) × kv.Store
    to_chunks (err e, s) = (err e, s)
    to_chunks (ok ranked, s) = (ok (map to_chunk ranked), s)

    abbrev pub finish :
        Text → ℕ → ℕ → Result E (List Hits) → Exec kv.Store E (List (RetrievedChunk Score))
    finish query top_k_search top_k_final (err e) s = (err e, s)
    finish query top_k_search top_k_final (ok results) s =
        to_chunks (rerank scores kv b query (pool results top_k_search) top_k_final true s)

    -- `await rewrite_query(query) if rewrite else [query]`
    abbrev pub queries_of : Text → Bool → Exec kv.Store E (List Text)
    queries_of query rewrite s =
        if rewrite then rewrite_query kv w query true s else (ok (query ∷ []), s)

    unfoldable pub retrieve_and_rerank :
        Text
        → Uuid
        → Option Uuid
        → Option (List Uuid)
        → ℕ
        → ℕ
        → Bool
        → Exec kv.Store E (List (RetrievedChunk Score))
    retrieve_and_rerank query tenant_id user_id doc_ids top_k_search top_k_final rewrite = do
      qs ← queries_of query rewrite
      finish query top_k_search top_k_final (gather tenant_id user_id doc_ids top_k_search qs)
