-- ===== src/Retrieval/Pipeline/Pool.antt =====
-- The dict `by_id` of src/retrieval/pipeline.py beside the hits that went into it.
use legal_viet_namese.Base.{
  max, ℕ, ◌≤◌, ◌≡◌, refl, false, List, [], ◌∷◌, Option, none, some, All, count, find?, arith, ◌==◌,
  if◌then◌else◌, inl, inr, Bool-cases,
}
use legal_viet_namese.Db.Models.{Uuid}
use legal_viet_namese.Retrieval.Scores.{Scores}
use legal_viet_namese.Retrieval.Search.{SearchHit}
use legal_viet_namese.Retrieval.Pipeline.{add_best, add_batch, add_batches}

module _ (scores : Scores) where
  open scores use {Score, below, below-asym, below-trans}

  abbrev pub best_of : Uuid → List (SearchHit Score) → Option (SearchHit Score)
  best_of id by_id = find? (λ g. g.point_id == id) by_id

  -- the better of a hit and what is there
  abbrev better : SearchHit Score → Option (SearchHit Score) → SearchHit Score
  better h none = h
  better h (some g) = if below g.score h.score then h else g

  best_of-add_best :
      (id : Uuid) (h : SearchHit Score) (by_id : List (SearchHit Score))
      → best_of id (add_best scores h by_id)
        ≡ (if h.point_id == id then some (better h (best_of id by_id)) else best_of id by_id)
  best_of-add_best id h [] = refl
  best_of-add_best id h (g ∷ by_id) = ground (arith, best_of-add_best id h by_id)

  -- the dict holds a hit of this point that is at least as good
  abbrev pub IsCovered : List (SearchHit Score) → SearchHit Score → Type 0
  IsCovered by_id h =
      (g : SearchHit Score) × (best_of h.point_id by_id ≡ some g) × (below g.score h.score ≡ false)

  below_irrefl : (a : Score) → below a a ≡ false
  below_irrefl a = elim (Bool-cases (below a a)) [ inl h ↦ below-asym a a h | inr h ↦ h ]

  covers_new :
      (h : SearchHit Score) (by_id : List (SearchHit Score)) → IsCovered (add_best scores h by_id) h
  covers_new h by_id = (
    better h (best_of h.point_id by_id),
    rw (best_of-add_best h.point_id h by_id) (ground arith),
    at_least (best_of h.point_id by_id),
  )
    where
      at_least : (o : Option (SearchHit Score)) → below (better h o).score h.score ≡ false
      at_least none = below_irrefl h.score
      at_least (some g) = elim (Bool-cases (below g.score h.score)) [
        | inl lower ↦ rw lower (below_irrefl h.score)
        | inr higher ↦ rw higher higher
      ]

  covers_old :
      (h k : SearchHit Score) (by_id : List (SearchHit Score))
      → IsCovered by_id k
      → IsCovered (add_best scores h by_id) k
  covers_old h k by_id (g, found, enough) = elim (Bool-cases (h.point_id == k.point_id)) [
    | inr other ↦ (g, rw (best_of-add_best k.point_id h by_id, other) found, enough)
    | inl same ↦ elim (Bool-cases (below g.score h.score)) [
      | inl lower ↦ (
        h,
        rw (best_of-add_best k.point_id h by_id, same, found, lower),
        below-trans k.score g.score h.score enough (below-asym g.score h.score lower),
      )
      | inr kept ↦ (g, rw (best_of-add_best k.point_id h by_id, same, found, kept), enough)
    ]
  ]

  covers_old_all :
      (h : SearchHit Score) (by_id ks : List (SearchHit Score))
      → All (IsCovered by_id) ks
      → All (IsCovered (add_best scores h by_id)) ks
  covers_old_all h by_id [] a = tt
  covers_old_all h by_id (k ∷ ks) a = (covers_old h k by_id a.0, covers_old_all h by_id ks a.1)

  batch_covers_old :
      (by_id batch ks : List (SearchHit Score))
      → All (IsCovered by_id) ks
      → All (IsCovered (add_batch scores by_id batch)) ks
  batch_covers_old by_id [] ks a = a
  batch_covers_old by_id (h ∷ batch) ks a =
      batch_covers_old (add_best scores h by_id) batch ks (covers_old_all h by_id ks a)

  batch_covers :
      (by_id batch : List (SearchHit Score)) → All (IsCovered (add_batch scores by_id batch)) batch
  batch_covers by_id [] = tt
  batch_covers by_id (h ∷ batch) = (
    (batch_covers_old (add_best scores h by_id) batch (h ∷ []) (covers_new h by_id, tt)).0,
    batch_covers (add_best scores h by_id) batch,
  )

  batches_cover_old :
      (by_id : List (SearchHit Score)) (results : List (List (SearchHit Score)))
      (ks : List (SearchHit Score))
      → All (IsCovered by_id) ks
      → All (IsCovered (add_batches scores by_id results)) ks
  batches_cover_old by_id [] ks a = a
  batches_cover_old by_id (batch ∷ results) ks a =
      batches_cover_old (add_batch scores by_id batch) results ks
        (batch_covers_old by_id batch ks a)

  batches_cover :
      (by_id : List (SearchHit Score)) (results : List (List (SearchHit Score)))
      → All (All (IsCovered (add_batches scores by_id results))) results
  batches_cover by_id [] = tt
  batches_cover by_id (batch ∷ results) = (
    batches_cover_old (add_batch scores by_id batch) results batch (batch_covers by_id batch),
    batches_cover (add_batch scores by_id batch) results,
  )

  abbrev pub copies : Uuid → List (SearchHit Score) → ℕ
  copies id by_id = count (λ g. g.point_id == id) by_id

  copies-add_best :
      (id : Uuid) (h : SearchHit Score) (by_id : List (SearchHit Score))
      → copies id (add_best scores h by_id)
        ≡ (if h.point_id == id then max 1 (copies id by_id) else copies id by_id)
  copies-add_best id h [] = ground arith
  copies-add_best id h (g ∷ by_id) = ground (arith, copies-add_best id h by_id)

  batch-copies :
      (id : Uuid) (by_id batch : List (SearchHit Score))
      → copies id by_id ≤ 1
      → copies id (add_batch scores by_id batch) ≤ 1
  batch-copies id by_id [] h = h
  batch-copies id by_id (g ∷ batch) h =
      batch-copies id (add_best scores g by_id) batch (ground (arith, copies-add_best id g by_id))

  batches-copies :
      (id : Uuid) (by_id : List (SearchHit Score)) (results : List (List (SearchHit Score)))
      → copies id by_id ≤ 1
      → copies id (add_batches scores by_id results) ≤ 1
  batches-copies id by_id [] h = h
  batches-copies id by_id (batch ∷ results) h =
      batches-copies id (add_batch scores by_id batch) results (batch-copies id by_id batch h)

  -- Merging the hits of all queries keeps every point that was hit, once, with a hit that no other
  -- hit of the point outscores.
  pub merge-best :
      (results : List (List (SearchHit Score)))
      → All (All (IsCovered (add_batches scores [] results))) results
        × ((id : Uuid) → copies id (add_batches scores [] results) ≤ 1)
  merge-best results = (batches_cover [] results, λ id. batches-copies id [] results (omega arith))
