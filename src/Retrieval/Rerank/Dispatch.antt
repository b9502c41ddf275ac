-- ===== src/Retrieval/Rerank/Dispatch.antt =====
-- `rerank` of src/retrieval/rerank.py, whichever backend answers.
use legal_viet_namese.Base.{
  Option, none, some, not, ◌&&◌, ◌>>◌, pure, is_empty, ℕ, ◌≤◌, ◌≡◌, ◌≢◌, Bool, true, false, List,
  [], ◌∷◌, All, All-take, length, arith, max, Bool-cases, inl, inr, ltb, Result, ok, err, Text,
  if◌then◌else◌,
}
use legal_viet_namese.Core.Redis.{KeyValues}
use legal_viet_namese.Retrieval.Scores.{Scores}
use legal_viet_namese.Retrieval.Search.{SearchHit}
use legal_viet_namese.Retrieval.Rerank.{
  RerankResult, ScoreOf, Backends, raises, materialize, cached_scores, finish, found_or,
  from_cache_or, write_scores, llm_rerank, cohere_rerank, cut, or_llm, rerank, user_message,
}
use legal_viet_namese.Retrieval.Rerank.Ordering.{materialize-All, length-materialize-le}

module _ (scores : Scores) {E : Type 0} (kv : KeyValues) (b : Backends scores.Score E kv) where
  open scores use {Score}

  module _ (P : SearchHit Score → Type 0) (top_k : ℕ) where
    -- the results come from hits with the property, and are not too many
    abbrev pub Fine : Result E (List (RerankResult Score)) → Type 0
    Fine (err e) = Unit {0}
    Fine (ok rs) = All (λ r. P r.hit) rs × (length rs ≤ max 1 top_k)

    materialize-Fine :
        (hits : List (SearchHit Score)) (d : ScoreOf Score)
        → All P hits
        → Fine (ok (materialize scores hits d top_k))
    materialize-Fine hits d a = (
      materialize-All scores P hits d top_k a,
      omega (arith, length-materialize-le scores hits d top_k),
    )

    finish-Fine :
        (use_cache : Bool) (key : Text) (hits : List (SearchHit Score))
        (fresh : Result E (ScoreOf Score)) (s : kv.Store)
        → All P hits
        → Fine (finish scores kv b use_cache key hits top_k fresh s).0
    finish-Fine use_cache key hits (err e) s a = tt
    finish-Fine use_cache key hits (ok d) s a = elim (Bool-cases (use_cache && not (is_empty d))) [
      | inl on ↦ rw on (go (b.writes key))
      | inr off ↦ rw off (materialize-Fine hits d a)
    ]
      where
        go :
            (r : Result E (Unit {0}))
            → Fine
                ((write_scores scores kv b key d r >> pure (materialize scores hits d top_k)) s).0
        go (err e) = tt
        go (ok u) = materialize-Fine hits d a

    from_cache_or-Fine :
        (use_cache : Bool) (key : Text) (hits : List (SearchHit Score))
        (fresh : Result E (ScoreOf Score)) (s : kv.Store)
        → All P hits
        → Fine (from_cache_or scores kv b use_cache key hits top_k fresh s).0
    from_cache_or-Fine use_cache key hits fresh s a = go (cached_scores scores kv b use_cache key s)
      where
        go :
            (r : Result E (Option (ScoreOf Score)))
            → Fine (found_or scores kv b use_cache key hits top_k fresh r s).0
        go (err e) = tt
        go (ok (some d)) = materialize-Fine hits d a
        go (ok none) = finish-Fine use_cache key hits fresh s a

    llm_rerank-Fine :
        (query : Text) (hits : List (SearchHit Score)) (use_cache : Bool) (s : kv.Store)
        → All P hits
        → Fine (llm_rerank scores kv b query hits top_k use_cache s).0
    unfolding llm_rerank
    llm_rerank-Fine query [] use_cache s a = (tt, omega arith)
    llm_rerank-Fine query (h ∷ []) use_cache s a = ((a.0, tt), omega arith)
    llm_rerank-Fine query (h ∷ g ∷ hs) use_cache s a = from_cache_or-Fine use_cache _ _ _ s a

    cohere_rerank-Fine :
        (query : Text) (hits : List (SearchHit Score)) (use_cache : Bool) (s : kv.Store)
        → All P hits
        → Fine (cohere_rerank scores kv b query hits top_k use_cache s).0
    unfolding cohere_rerank
    cohere_rerank-Fine query [] use_cache s a = (tt, omega arith)
    cohere_rerank-Fine query (h ∷ []) use_cache s a = ((a.0, tt), omega arith)
    cohere_rerank-Fine query (h ∷ g ∷ hs) use_cache s a = from_cache_or-Fine use_cache _ _ _ s a

    cut-All : (hits : List (SearchHit Score)) → All P hits → All P (cut scores kv b hits)
    cut-All hits a = elim (Bool-cases (ltb b.max_candidates (length hits))) [
      | inl many ↦ rw many (All-take P b.max_candidates hits a)
      | inr few ↦ rw few a
    ]

    or_llm-Fine :
        (r : Result E (List (RerankResult Score)) × kv.Store)
        (fallback : kv.Store → Result E (List (RerankResult Score)) × kv.Store)
        → Fine r.0
        → ((s : kv.Store) → Fine (fallback s).0)
        → Fine (or_llm scores kv b r fallback).0
    or_llm-Fine (ok rs, s) fallback f k = f
    or_llm-Fine (err e, s) fallback f k = k s

    if-Fine :
        (t : Bool) (x y : Result E (List (RerankResult Score)) × kv.Store)
        → Fine x.0
        → Fine y.0
        → Fine (if t then x else y).0
    if-Fine true x y f g = f
    if-Fine false x y f g = g

    -- Whichever backend answers and whatever is cached, every result of `rerank` is one of the
    -- hits, with the properties that the hits have, and there are at most `top_k`, or one.
    pub rerank-Fine :
        (query : Text) (hits : List (SearchHit Score)) (use_cache : Bool) (s : kv.Store)
        → All P hits
        → Fine (rerank scores kv b query hits top_k use_cache s).0
    unfolding rerank
    rerank-Fine query [] use_cache s a = (tt, omega arith)
    rerank-Fine query (h ∷ hs) use_cache s a =
        let kept = cut-All (h ∷ hs) a in
        let llm =
          λ (s' : kv.Store). llm_rerank-Fine query (cut scores kv b (h ∷ hs)) use_cache s' kept in
        if-Fine b.cohere_enabled _ _
          (or_llm-Fine
            (cohere_rerank scores kv b query (cut scores kv b (h ∷ hs)) top_k use_cache s)
            (llm_rerank scores kv b query (cut scores kv b (h ∷ hs)) top_k use_cache)
            (cohere_rerank-Fine query (cut scores kv b (h ∷ hs)) use_cache s kept) llm)
          (llm s)

  -- a success
  abbrev Succeeds : Result E (List (RerankResult Score)) → Type 0
  Succeeds (ok rs) = Unit {0}
  Succeeds (err e) = ⊥

  module _ (read_ : (key : Text) → b.reads key ≡ ok tt)
      (written : (key : Text) → b.writes key ≡ ok tt) (query : Text) (top_k : ℕ) (raw : Text)
      (readable : (e : E) → b.read raw ≢ raises e) where
    -- the model answers about some hits with the text
    abbrev pub Answers : List (SearchHit Score) → Type 0
    Answers hits = b.complete b.system_prompt (user_message scores kv b query hits top_k) ≡ ok raw
