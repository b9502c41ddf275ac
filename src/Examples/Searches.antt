-- ===== src/Examples/Searches.antt =====
-- A retrieval over a collection of one point, with scores that are numbers.
use legal_viet_namese.Base.{
  ℕ, ◌/◌, ◌≤◌, ◌≡◌, refl, Bool, true, false, ◌&&◌, not, ◌==◌, List, [], ◌∷◌, Option, none, some,
  Text, chars, All, length, arith, ltb, if◌then◌else◌, Result, ok, err, subst, or_else,
}
use legal_viet_namese.Db.Models.{Uuid}
use legal_viet_namese.Retrieval.Scores.{Scores}
use legal_viet_namese.Retrieval.Search.{
  Payload, FieldCondition, SearchHit, ScoredPoint, Qdrant, satisfies_all, vector_search, IsAllowed,
}
use legal_viet_namese.Retrieval.Search.Isolation.{vector_search-IsAllowed}
use legal_viet_namese.Retrieval.Rerank.{Backends, ranked, scored, rerank, materialize}
use legal_viet_namese.Retrieval.Rerank.Dispatch.{Fine, rerank-Fine}
use legal_viet_namese.Retrieval.Rerank.Ordering.{IsBest, materialize-IsBest}
use legal_viet_namese.Retrieval.Pipeline.{Rewriter, queries, retrieve_and_rerank, add_batches}
use legal_viet_namese.Retrieval.Pipeline.Isolation.{AllOwned, retrieve-AllOwned}
use legal_viet_namese.Retrieval.Pipeline.Pool.{IsCovered, merge-best, copies}
use legal_viet_namese.Examples.Stores.{key_values, nothing, texts_codec, pairs_codec}

pub ltb_asym : (a b : ℕ) → ltb a b ≡ true → ltb b a ≡ false
ltb_asym a b h = ground arith

pub ltb_trans : (a b c : ℕ) → ltb b a ≡ false → ltb c b ≡ false → ltb c a ≡ false
ltb_trans a b c h k = ground arith

abbrev pub numbers : Scores
numbers = record {
  Score = ℕ;
  below = ltb;
  half = λ a. a / 2;
  below-asym = ltb_asym;
  below-trans = ltb_trans;
}

abbrev pub point : Payload
point = record {
  tenant_id = 1;
  user_id = 2;
  doc_id = 3;
  doc_title = chars "law";
  chunk_index = 0;
  heading_path = none;
  page_from = none;
  page_to = none;
  text = chars "article";
  n_tokens = 1;
}

-- The collection is one payload, under the id 7.
abbrev stored : Payload → Uuid → Option Payload
stored p id = if id == 7 then some p else none

abbrev scan : ℕ → List FieldCondition → Payload → List (ScoredPoint ℕ)
scan limit must p =
    if satisfies_all must p && not (limit == 0)
    then record { id = 7; score = 40; payload = some p } ∷ []
    else []

abbrev Found : List FieldCondition → Payload → ScoredPoint ℕ → Type 0
Found must s h =
    (p : Payload) → h.payload ≡ some p → (stored s h.id ≡ some p) × (satisfies_all must p ≡ true)

if-Found :
    (b c : Bool) (must : List FieldCondition) (s : Payload)
    → satisfies_all must s ≡ b
    → All
        (Found must s)
        (if b && c then record { id = 7; score = 40; payload = some s } ∷ [] else [])
if-Found true true must s met =
    ((λ p e. (e, subst (λ o. satisfies_all must (or_else o s) ≡ true) e met)), tt)
if-Found true false must s met = tt
if-Found false c must s met = tt

pub scan-Found :
    (limit : ℕ) (must : List FieldCondition) (s : Payload) → All (Found must s) (scan limit must s)
scan-Found limit must s = if-Found (satisfies_all must s) (not (limit == 0)) must s refl

pub length-scan :
    (limit : ℕ) (must : List FieldCondition) (s : Payload) → length (scan limit must s) ≤ limit
length-scan limit must s = ground arith

abbrev pub qdrant : Qdrant ℕ Text
qdrant = record {
  Store = Payload;
  stored = stored;
  search = λ v. scan;
  search-stored = λ v. scan-Found;
  search-limit = λ v. length-scan;
}

abbrev embed : Text → Result ℕ Text
embed t = ok t

search_result :
    (hits : List (SearchHit ℕ)) × (vector_search qdrant embed (chars "q") 1 (some 2) none 5 point
      ≡ ok hits)
unfolding vector_search
search_result = (_, refl)

vector_search-IsAllowed_example :
    All (IsAllowed qdrant 1 (some 2) none point) search_result.0 × (length search_result.0 ≤ 5)
vector_search-IsAllowed_example =
    vector_search-IsAllowed qdrant embed 1 (some 2) none point (chars "q") 5 search_result.0
      search_result.1

abbrev hit : Uuid → ℕ → SearchHit ℕ
hit id score = record {
  point_id = id;
  score = score;
  doc_id = 3;
  doc_title = chars "law";
  chunk_index = 0;
  heading_path = none;
  page_from = none;
  page_to = none;
  text = chars "article";
}

-- Cohere fails, and the model gives the second hit 90.
abbrev backends : Backends ℕ ℕ key_values
backends = record {
  json = pairs_codec;
  sha256 = λ t. t;
  show = λ n. n ∷ [];
  dump_ids = λ ids. ids;
  llm_model = chars "m";
  system_prompt = chars "sort";
  complete = λ system user. ok (chars "{}");
  read = λ raw. ranked (scored 1 90 ∷ []);
  reads = λ key. ok tt;
  writes = λ key. ok tt;
  cohere_model = chars "c";
  cohere = λ query docs. err 503;
  max_candidates = 30;
  cohere_enabled = true;
}

abbrev hits : List (SearchHit ℕ)
hits = hit 7 40 ∷ hit 8 30 ∷ []

abbrev HasLaw : SearchHit ℕ → Type 0
HasLaw h = h.doc_id ≡ 3

rerank-Fine_example :
    Fine numbers key_values backends HasLaw 1
      (rerank numbers key_values backends (chars "q") hits 1 true nothing).0
rerank-Fine_example =
    rerank-Fine numbers key_values backends HasLaw 1 (chars "q") hits true nothing
      (refl, (refl, tt))

materialize-IsBest_example :
    IsBest numbers ((1, 90) ∷ []) hits 1 (materialize numbers hits ((1, 90) ∷ []) 1)
materialize-IsBest_example = materialize-IsBest numbers ((1, 90) ∷ []) hits 1

abbrev found_twice : List (List (SearchHit ℕ))
found_twice = hits ∷ (hit 8 60 ∷ []) ∷ []

merge-best_example :
    All (All (IsCovered numbers (add_batches numbers [] found_twice))) found_twice
    × ((id : Uuid) → copies numbers id (add_batches numbers [] found_twice) ≤ 1)
merge-best_example = merge-best numbers found_twice

abbrev rewriter : Rewriter ℕ
rewriter = record {
  json = texts_codec;
  sha256 = λ t. t;
  llm_model = chars "m";
  system_prompt = chars "rewrite";
  complete = λ system user. ok (chars "{}");
  read = λ raw. queries (some (chars "q1") ∷ none ∷ some (chars "q2") ∷ []);
  strip = λ t. t;
  reads = λ key. ok tt;
  writes = λ key. ok tt;
}

retrieve-AllOwned_example :
    AllOwned numbers key_values rewriter backends qdrant embed point 1
      (some 2)
      none
      8
      (retrieve_and_rerank numbers key_values rewriter backends qdrant embed point
        (chars "q")
        1
        (some 2)
        none
        20
        8
        true
        nothing).0
retrieve-AllOwned_example =
    retrieve-AllOwned numbers key_values rewriter backends qdrant embed point 1 (some 2) none
      (chars "q") 20 8 true nothing
