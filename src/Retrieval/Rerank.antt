-- ===== src/Retrieval/Rerank.antt =====
-- src/retrieval/rerank.py: the two rerankers, and the choice between them.
pub mod Ordering
pub mod Dispatch
use legal_viet_namese.Base.{
  ℕ, zero, suc, Bool, true, false, not, ◌&&◌, ◌+◌, List, [], ◌∷◌, ◌++◌, map, Option, none, some,
  Text, chars, join, take, length, ltb, is_empty, or_else, ◌==◌, sort_desc, if◌then◌else◌, Result,
  ok, err, Exec, ◌>>=◌, ◌>>◌, pure,
}
use legal_viet_namese.Core.Redis.{KeyValues, Codec, make_key, cache_get, cache_set}
use legal_viet_namese.Retrieval.Scores.{Scores}
use legal_viet_namese.Retrieval.Search.{SearchHit}

pub record RerankResult (S : Type 0) : Type 0 where
  pub hit : SearchHit S
  pub score : S

-- `id_to_score`, a dict in the order of insertion
abbrev pub ScoreOf : Type 0 → Type 0
ScoreOf S = List (ℕ × S)

-- One entry of a reranker's answer: an id with a score, a negative id, or one that raises a
-- KeyError, ValueError or TypeError when it is read.
pub data Ranked (S : Type 0) : Type 0 where
  scored : ℕ → S → Ranked S
  negative : Ranked S
  malformed : Ranked S

-- What `json.loads` and `obj.get("ranked", []) or []` make of the model's text: a JSONDecodeError,
-- another exception, or the entries.
pub data Reading (S E : Type 0) : Type 0 where
  invalid_json : Reading S E
  raises : E → Reading S E
  ranked : List (Ranked S) → Reading S E

module _ {S : Type 0} where
  -- `id_to_score[i] = sc`
  abbrev pub assign : ℕ → S → ScoreOf S → ScoreOf S
  assign i sc [] = (i, sc) ∷ []
  assign i sc ((j, old) ∷ d) = if j == i then (i, sc) ∷ d else (j, old) ∷ assign i sc d

  abbrev pub score_at : ℕ → ScoreOf S → Option S
  score_at i [] = none
  score_at i ((j, sc) ∷ d) = if j == i then some sc else score_at i d

  -- the loop over the entries of an answer about `n` hits
  abbrev pub collect : ℕ → List (Ranked S) → ScoreOf S → ScoreOf S
  collect n [] d = d
  collect n (scored i sc ∷ rs) d = collect n rs (if ltb i n then assign i sc d else d)
  collect n (negative ∷ rs) d = collect n rs d
  collect n (malformed ∷ rs) d = collect n rs d

  -- `h.heading_path or h.doc_title`: an empty heading is false too
  abbrev pub heading_of : SearchHit S → Text
  heading_of h = elim h.heading_path [
    | none ↦ h.doc_title
    | some path ↦ if is_empty path then h.doc_title else path
  ]

module _ (scores : Scores) where
  open scores use {Score, below, half}

  -- the first loop of `_materialize`, from index i on
  abbrev pub rescore : ℕ → ScoreOf Score → List (SearchHit Score) → List (RerankResult Score)
  rescore i d [] = []
  rescore i d (h ∷ hs) =
      record { hit = h; score = or_else (score_at i d) (half h.score) } ∷ rescore (suc i) d hs

  abbrev pub result_below : RerankResult Score → RerankResult Score → Bool
  result_below a b = below a.score b.score

  unfoldable pub materialize :
      List (SearchHit Score) → ScoreOf Score → ℕ → List (RerankResult Score)
  materialize hits id_to_score top_k =
      take top_k (sort_desc result_below (rescore 0 id_to_score hits))

-- what the rerankers take from elsewhere: the caches, the APIs, and the texts of numbers and ids
pub record Backends (S E : Type 0) (kv : KeyValues) : Type 0 where
  pub json : Codec (ScoreOf S)
  pub sha256 : Text → Text
  pub show : ℕ → Text
  -- the dump of the list of point ids
  pub dump_ids : List ℕ → Text
  pub llm_model : Text
  pub system_prompt : Text
  -- `llm.complete` of the two messages: the content of the first choice, or "{}"
  pub complete : Text → Text → Result E Text
  pub read : Text → Reading S E
  pub cohere_model : Text
  -- the Cohere API: the query and the documents
  pub cohere : Text → List Text → Result E (List (Ranked S))
  -- whether the GET and the SET of a cache key get an answer from Redis
  pub reads : Text → Result E (Unit {0})
  pub writes : Text → Result E (Unit {0})
  pub max_candidates : ℕ
  pub cohere_enabled : Bool

module _ (scores : Scores) {E : Type 0} (kv : KeyValues) (b : Backends scores.Score E kv) where
  open scores use {Score}

  abbrev pub Hits : Type 0
  Hits = List (SearchHit Score)

  pub rerank_key : Text → Text → Hits → Text
  rerank_key model query hits =
      make_key b.sha256 (chars "rerank")
        (model ∷ query ∷ b.dump_ids (map (λ h. h.point_id) hits) ∷ [])

  -- `if cached := await cache_get(key)`: an empty dict is false too
  abbrev pub not_empty : Option (ScoreOf Score) → Option (ScoreOf Score)
  not_empty none = none
  not_empty (some d) = if is_empty d then none else some d

  abbrev pub cached_scores : Bool → Text → kv.Store → Result E (Option (ScoreOf Score))
  cached_scores use_cache key s =
      if use_cache
      then elim (b.reads key) [ err e ↦ err e | ok u ↦ ok (not_empty (cache_get kv b.json s key)) ]
      else ok none

  -- `if use_cache and id_to_score: await cache_set(…, ttl_s=600)`
  abbrev pub write_scores : Text → ScoreOf Score → Result E (Unit {0}) → Exec kv.Store E (Unit {0})
  write_scores key d (err e) s = (err e, s)
  write_scores key d (ok u) s = (ok tt, cache_set kv b.json key d 600 s)

  abbrev pub remember : Bool → Text → ScoreOf Score → Exec kv.Store E (Unit {0})
  remember use_cache key d s =
      if use_cache && not (is_empty d) then write_scores key d (b.writes key) s else (ok tt, s)

  abbrev pub candidates : ℕ → Hits → List Text
  candidates i [] = []
  candidates i (h ∷ hs) =
      (chars "[" ++ (b.show i ++ (chars "] " ++ (heading_of h ++ (chars "\n" ++ take 500 h.text)))))
      ∷ candidates (suc i) hs

  pub user_message : Text → Hits → ℕ → Text
  user_message query hits top_k =
      chars "CÂU HỎI: "
      ++ (query
          ++ (chars "\n\nDANH SÁCH ĐOẠN:\n"
              ++ (join (chars "\n\n") (candidates 0 hits)
                  ++ (chars "\n\nTrả JSON như đã hướng dẫn, chỉ giữ top "
                      ++ (b.show top_k ++ chars ".")))))

  -- the scores that a reading gives; invalid JSON gives none
  abbrev pub scores_of : ℕ → Reading Score E → Result E (ScoreOf Score)
  scores_of n invalid_json = ok []
  scores_of n (raises e) = err e
  scores_of n (ranked rs) = ok (collect n rs [])

  -- The scores are new: remember them, and sort.
  abbrev pub finish :
      Bool
      → Text
      → Hits
      → ℕ
      → Result E (ScoreOf Score)
      → Exec kv.Store E (List (RerankResult Score))
  finish use_cache key hits top_k (err e) s = (err e, s)
  finish use_cache key hits top_k (ok d) s =
      (remember use_cache key d >> pure (materialize scores hits d top_k)) s

  abbrev pub llm_scores : Text → Hits → ℕ → Result E (ScoreOf Score)
  llm_scores query hits top_k = elim (b.complete b.system_prompt (user_message query hits top_k)) [
    | err e ↦ err e
    | ok raw ↦ scores_of (length hits) (b.read raw)
  ]

  -- `f"{…}\n{h.text}"[:_COHERE_DOC_MAX_CHARS]`
  abbrev pub document : SearchHit Score → Text
  document h = take 2000 (heading_of h ++ (chars "\n" ++ h.text))

  abbrev pub cohere_scores : Text → Hits → Result E (ScoreOf Score)
  cohere_scores query hits = elim (b.cohere query (map document hits)) [
    | err e ↦ err e
    | ok rs ↦ ok (collect (length hits) rs [])
  ]

  -- what follows the lookup
  abbrev pub found_or :
      Bool
      → Text
      → Hits
      → ℕ
      → Result E (ScoreOf Score)
      → Result E (Option (ScoreOf Score))
      → Exec kv.Store E (List (RerankResult Score))
  found_or use_cache key hits top_k fresh (err e) s = (err e, s)
  found_or use_cache key hits top_k fresh (ok (some d)) s =
      (ok (materialize scores hits d top_k), s)
  found_or use_cache key hits top_k fresh (ok none) s = finish use_cache key hits top_k fresh s

  -- The cached scores, or else the new ones.
  abbrev pub from_cache_or :
      Bool
      → Text
      → Hits
      → ℕ
      → Result E (ScoreOf Score)
      → Exec kv.Store E (List (RerankResult Score))
  from_cache_or use_cache key hits top_k fresh s =
      found_or use_cache key hits top_k fresh (cached_scores use_cache key s) s

  unfoldable pub llm_rerank : Text → Hits → ℕ → Bool → Exec kv.Store E (List (RerankResult Score))
  llm_rerank query [] top_k use_cache s = (ok [], s)
  llm_rerank query (h ∷ []) top_k use_cache s = (ok (record { hit = h; score = h.score } ∷ []), s)
  llm_rerank query (h ∷ g ∷ hs) top_k use_cache s =
      from_cache_or use_cache (rerank_key b.llm_model query (h ∷ g ∷ hs)) (h ∷ g ∷ hs) top_k
        (llm_scores query (h ∷ g ∷ hs) top_k) s

  unfoldable pub cohere_rerank :
      Text → Hits → ℕ → Bool → Exec kv.Store E (List (RerankResult Score))
  cohere_rerank query [] top_k use_cache s = (ok [], s)
  cohere_rerank query (h ∷ []) top_k use_cache s =
      (ok (record { hit = h; score = h.score } ∷ []), s)
  cohere_rerank query (h ∷ g ∷ hs) top_k use_cache s =
      from_cache_or use_cache (rerank_key b.cohere_model query (h ∷ g ∷ hs)) (h ∷ g ∷ hs) top_k
        (cohere_scores query (h ∷ g ∷ hs)) s

  -- `hits[: s.rerank_max_candidates]`, if there are more
  abbrev pub cut : Hits → Hits
  cut hits = if ltb b.max_candidates (length hits) then take b.max_candidates hits else hits

  -- `except Exception`: the LLM reranker takes over
  abbrev pub or_llm :
      Result E (List (RerankResult Score)) × kv.Store
      → Exec kv.Store E (List (RerankResult Score))
      → Result E (List (RerankResult Score)) × kv.Store
  or_llm (ok rs, s) fallback = (ok rs, s)
  or_llm (err e, s) fallback = fallback s

  unfoldable pub rerank : Text → Hits → ℕ → Bool → Exec kv.Store E (List (RerankResult Score))
  rerank query [] top_k use_cache s = (ok [], s)
  rerank query (h ∷ hs) top_k use_cache s =
      let kept = cut (h ∷ hs) in
      if b.cohere_enabled
      then or_llm (cohere_rerank query kept top_k use_cache s)
          (llm_rerank query kept top_k use_cache)
      else llm_rerank query kept top_k use_cache s
