-- ===== src/Retrieval/Rerank/Ordering.antt =====
-- `_materialize` of src/retrieval/rerank.py: which results it keeps.
use legal_viet_namese.Base.{
  min, Perm, sym, subst, ◌∙◌, ◌++◌, drop, take-append-drop, none, some, or_else, insert_desc,
  Bool-cases, inl, inr, ℕ, suc, ◌≤◌, ◌≡◌, refl, List, [], ◌∷◌, All, All-take, length, length-take,
  length-take-le, sort_desc, sort_desc-perm, sort_desc-All, sort_desc-IsDescending, IsDescending,
  ap,
}
use legal_viet_namese.Retrieval.Scores.{Scores}
use legal_viet_namese.Retrieval.Search.{SearchHit}
use legal_viet_namese.Retrieval.Rerank.{
  RerankResult, ScoreOf, score_at, rescore, result_below, materialize,
}

module _ (scores : Scores) where
  open scores use {Score, below, half, below-asym, below-trans}

  length-insert_desc :
      (x : RerankResult Score) (ys : List (RerankResult Score))
      → length (insert_desc (result_below scores) x ys) ≡ suc (length ys)
  length-insert_desc x [] = refl
  length-insert_desc x (y ∷ ys) = elim (Bool-cases (result_below scores x y)) [
    | inl lower ↦ rw lower (ap suc (length-insert_desc x ys))
    | inr at_least ↦ rw at_least refl
  ]

  length-sort_desc :
      (xs : List (RerankResult Score)) → length (sort_desc (result_below scores) xs) ≡ length xs
  length-sort_desc [] = refl
  length-sort_desc (x ∷ xs) = length-insert_desc x _ ∙ ap suc (length-sort_desc xs)

  module _ (d : ScoreOf Score) where
    -- Results for the hits from place i on, in order: each has the score that the reranker gave to its
    -- place, or else half the score of the search.
    abbrev pub AreScored : ℕ → List (SearchHit Score) → List (RerankResult Score) → Type 0
    AreScored i [] [] = Unit {0}
    AreScored i [] (r ∷ rs) = ⊥
    AreScored i (h ∷ hs) [] = ⊥
    AreScored i (h ∷ hs) (r ∷ rs) =
        (r.hit ≡ h)
        × ((sc : Score) → score_at i d ≡ some sc → r.score ≡ sc)
        × (score_at i d ≡ none → r.score ≡ half h.score)
        × AreScored (suc i) hs rs

    rescore-AreScored :
        (i : ℕ) (hits : List (SearchHit Score)) → AreScored i hits (rescore scores i d hits)
    rescore-AreScored i [] = tt
    rescore-AreScored i (h ∷ hs) = (
      refl,
      λ sc given. ap (λ o. or_else o (half h.score)) given,
      λ missing. ap (λ o. or_else o (half h.score)) missing,
      rescore-AreScored (suc i) hs,
    )

    length-rescore :
        (i : ℕ) (hits : List (SearchHit Score)) → length (rescore scores i d hits) ≡ length hits
    length-rescore i [] = refl
    length-rescore i (h ∷ hs) = ap suc (length-rescore (suc i) hs)

    -- What is kept: the best of the scored hits, as many as asked for if there are so many.
    pub record IsBest (hits : List (SearchHit Score)) (top_k : ℕ) (kept : List (RerankResult Score))
        : Type 0 where
      pub left_out : List (RerankResult Score)
      pub all_scored : List (RerankResult Score)
      pub right : AreScored 0 hits all_scored
      pub split : Perm (kept ++ left_out) all_scored
      pub falling : IsDescending (λ a b. below a.score b.score) (kept ++ left_out)
      pub many : length kept ≡ min top_k (length hits)

    -- `_materialize` gives a result to every hit, with the score that the reranker gave to its place,
    -- or else half its own; it keeps `top_k` of them, or all if there are fewer, by falling score, and
    -- none that is left out scores above one that is kept.
    pub materialize-IsBest :
        (hits : List (SearchHit Score)) (top_k : ℕ)
        → IsBest hits top_k (materialize scores hits d top_k)
    unfolding materialize
    materialize-IsBest hits top_k =
        let scored_ = rescore scores 0 d hits in
        let sorted = sort_desc (result_below scores) scored_ in
        let whole = take-append-drop top_k sorted in
        record {
          left_out = drop top_k sorted;
          all_scored = scored_;
          right = rescore-AreScored 0 hits;
          split =
              subst (λ xs. Perm xs scored_) (sym whole)
                (sort_desc-perm (result_below scores) scored_);
          falling = subst (IsDescending (result_below scores)) (sym whole) (
              sort_desc-IsDescending (result_below scores) (λ a b. below-asym a.score b.score)
                (λ a b c. below-trans a.score b.score c.score) scored_);
          many =
              length-take top_k sorted
              ∙ ap (min top_k) (length-sort_desc scored_ ∙ length-rescore 0 hits);
        }

  rescore-All :
      (P : SearchHit Score → Type 0) (i : ℕ) (d : ScoreOf Score) (hits : List (SearchHit Score))
      → All P hits
      → All (λ r. P r.hit) (rescore scores i d hits)
  rescore-All P i d [] a = tt
  rescore-All P i d (h ∷ hs) a = (a.0, rescore-All P (suc i) d hs a.1)

  pub materialize-All :
      (P : SearchHit Score → Type 0) (hits : List (SearchHit Score)) (d : ScoreOf Score) (top_k : ℕ)
      → All P hits
      → All (λ r. P r.hit) (materialize scores hits d top_k)
  unfolding materialize
  materialize-All P hits d top_k a =
      All-take (λ r. P r.hit) top_k _
        (sort_desc-All (result_below scores) (λ r. P r.hit) _ (rescore-All P 0 d hits a))

  pub length-materialize-le :
      (hits : List (SearchHit Score)) (d : ScoreOf Score) (top_k : ℕ)
      → length (materialize scores hits d top_k) ≤ top_k
  unfolding materialize
  length-materialize-le hits d top_k = length-take-le top_k _
