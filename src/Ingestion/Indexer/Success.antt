-- ===== src/Ingestion/Indexer/Success.antt =====
-- When `index_chunks` of src/ingestion/indexer.py succeeds.
use legal_viet_namese.Base.{
  ℕ, suc, ◌≡◌, List, [], ◌∷◌, map, length, slices, continue, ◌>>◌, pure, Text, Result, ok, err,
  arith,
}
use legal_viet_namese.Db.Models.{DocumentChunk, Uuid, Moment}
use legal_viet_namese.Db.Session.{Exception}
use legal_viet_namese.Ingestion.Chunker.{Chunk}
use legal_viet_namese.Ingestion.Indexer.{
  Collection, Owner, Point, add_chunk, prepare, index_chunks, upsert_batches,
}

-- a success
abbrev pub Succeeds : {A : Type 0} → Result Exception A → Type 0
Succeeds (ok a) = Unit {0}
Succeeds (err e) = ⊥

module _ {Vector : Type 0} (col : Collection Vector)
    (embed : List Text → Result Exception (List Vector)) (draw : ℕ → Uuid) (now : Moment)
    (upserted : (ps : List (Point Vector)) (s : col.Store) → Succeeds (col.upsert ps s).0) where
  batches-Succeeds :
      (bs : List (List (Point Vector))) (s : col.Store)
      → Succeeds (upsert_batches col embed draw now bs s).0
  batches-Succeeds [] s = tt
  batches-Succeeds (b ∷ bs) s = go (col.upsert b s) (upserted b s) (λ s'. batches-Succeeds bs s')
    where
      go :
          (x : Result Exception (Unit {0}) × col.Store)
          → Succeeds x.0
          → ((s' : col.Store) → Succeeds (upsert_batches col embed draw now bs s').0)
          → Succeeds (continue x.0 (λ u. upsert_batches col embed draw now bs) x.1).0
      go (ok u, s') h rest = rest s'
      go (err e, s') h rest = absurd h

  module _ (o : Owner) where
    add_chunk-Succeeds :
        (i : ℕ) (c : Chunk) (v : Vector)
        (r : Result Exception (List (Point Vector) × List DocumentChunk))
        → Succeeds r
        → Succeeds (add_chunk col embed draw now o i c v r)
    add_chunk-Succeeds i c v (ok x) h = tt
    add_chunk-Succeeds i c v (err e) h = h

    prepare-Succeeds :
        (i : ℕ) (cs : List Chunk) (vs : List Vector)
        → length vs ≡ length cs
        → Succeeds (prepare col embed draw now o i cs vs)
    prepare-Succeeds i [] [] h = tt
    prepare-Succeeds i [] (v ∷ vs) h = absurd (omega (arith, h))
    prepare-Succeeds i (c ∷ cs) [] h = absurd (omega (arith, h))
    prepare-Succeeds i (c ∷ cs) (v ∷ vs) h =
        add_chunk-Succeeds i c v (prepare col embed draw now o (suc (suc i)) cs vs)
          (prepare-Succeeds (suc (suc i)) cs vs (omega (arith, h)))

    module _ (c : Chunk) (cs : List Chunk) (s : col.Store) (vs : List Vector)
        (embedded : embed (map (λ x. x.text) (c ∷ cs)) ≡ ok vs)
        (many : length vs ≡ length (c ∷ cs)) where
      stored :
          (points : List (Point Vector)) (rows : List DocumentChunk)
          → Succeeds ((upsert_batches col embed draw now (slices 128 points) >> pure rows) s).0
      stored points rows =
          go (upsert_batches col embed draw now (slices 128 points) s)
            (batches-Succeeds (slices 128 points) s)
        where
          go :
              (x : Result Exception (Unit {0}) × col.Store)
              → Succeeds x.0
              → Succeeds (continue x.0 (λ u. pure rows) x.1).0
          go (ok u, s') h = tt
          go (err e, s') h = h

      -- Some chunks are indexed, if their embedding has a vector for each and no upsert raises.
      pub index_chunks-Succeeds : Succeeds (index_chunks col embed draw now (c ∷ cs) o s).0
      unfolding index_chunks
      index_chunks-Succeeds =
          rw embedded
            (go (prepare col embed draw now o 0 (c ∷ cs) vs) (prepare-Succeeds 0 (c ∷ cs) vs many))
        where
          go :
              (r : Result Exception (List (Point Vector) × List DocumentChunk))
              → Succeeds r
              → Succeeds
                  (continue r
                    (λ p. upsert_batches col embed draw now (slices 128 p.0) >> pure p.1)
                    s).0
          go (ok (points, rows)) h = stored points rows
          go (err e) h = h
