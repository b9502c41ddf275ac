-- ===== src/Ingestion/Indexer/Rows.antt =====
-- The points and the rows that `index_chunks` of src/ingestion/indexer.py prepares.
use legal_viet_namese.Base.{
  ◌==◌, if◌then◌else◌, ◌++◌, ◌∙◌, sym, concat, concat-slices, Option, none, arith, ℕ, suc, ◌≡◌,
  refl, ap, subst, List, [], ◌∷◌, map, slices, continue, Exec, ◌>>◌, pure, some, Text, Result, ok,
  err,
}
use legal_viet_namese.Db.Models.{DocumentChunk, Uuid, Moment}
use legal_viet_namese.Db.Session.{Exception}
use legal_viet_namese.Ingestion.Chunker.{Chunk}
use legal_viet_namese.Retrieval.Search.{Payload}
use legal_viet_namese.Ingestion.Indexer.{
  Collection, Owner, Point, latest, add_chunk, prepare, index_chunks, upsert_batches,
}

-- what the payload of a chunk's point says, field by field
abbrev pub says : Owner → Chunk → Payload
says o c = record {
  tenant_id = o.tenant_id;
  user_id = o.user_id;
  doc_id = o.doc_id;
  doc_title = o.doc_title;
  chunk_index = c.index;
  heading_path = c.heading_path;
  page_from = c.page_from;
  page_to = c.page_to;
  text = c.text;
  n_tokens = c.n_tokens;
}

-- A point and a row for each chunk, in order: the point has the chunk's vector, the owner and what the
-- chunk says, the row the chunk's index and text, the document, and the id of the point.
pub record IsPrepared {Vector : Type 0} (o : Owner) (cs : List Chunk) (vs : List Vector)
    (points : List (Point Vector)) (rows : List DocumentChunk) : Type 0 where
  pub vectors : map (λ p. p.vector) points ≡ vs
  pub payloads : map (λ p. p.payload) points ≡ map (says o) cs
  pub indices : map (λ r. r.chunk_index) rows ≡ map (λ c. c.index) cs
  pub texts : map (λ r. r.text) rows ≡ map (λ c. c.text) cs
  pub documents : map (λ r. r.document_id) rows ≡ map (λ c. o.doc_id) cs
  pub ids : map (λ r. r.qdrant_point_id) rows ≡ map (λ p. some p.id) points

module _ {Vector : Type 0} (col : Collection Vector)
    (embed : List Text → Result Exception (List Vector)) (draw : ℕ → Uuid) (now : Moment)
    (o : Owner) where
  abbrev prepared :
      ℕ → List Chunk → List Vector → Result Exception (List (Point Vector) × List DocumentChunk)
  prepared = prepare col embed draw now o

  abbrev Good :
      List Chunk
      → List Vector
      → Result Exception (List (Point Vector) × List DocumentChunk)
      → Type 0
  Good cs vs (ok (points, rows)) = IsPrepared o cs vs points rows
  Good cs vs (err e) = Unit {0}

  add_chunk-Good :
      (i : ℕ) (c : Chunk) (v : Vector) (cs : List Chunk) (vs : List Vector)
      (r : Result Exception (List (Point Vector) × List DocumentChunk))
      → Good cs vs r
      → Good (c ∷ cs) (v ∷ vs) (add_chunk col embed draw now o i c v r)
  add_chunk-Good i c v cs vs (err e) g = tt
  add_chunk-Good i c v cs vs (ok (points, rows)) g = record {
    vectors = ap (◌∷◌ v) g.vectors;
    payloads = ap (◌∷◌ (says o c)) g.payloads;
    indices = ap (◌∷◌ c.index) g.indices;
    texts = ap (◌∷◌ c.text) g.texts;
    documents = ap (◌∷◌ o.doc_id) g.documents;
    ids = ap (◌∷◌ (some (draw i))) g.ids;
  }

  prepare-Good : (i : ℕ) (cs : List Chunk) (vs : List Vector) → Good cs vs (prepared i cs vs)
  prepare-Good i [] [] = record {
    vectors = refl;
    payloads = refl;
    indices = refl;
    texts = refl;
    documents = refl;
    ids = refl;
  }
  prepare-Good i [] (v ∷ vs) = tt
  prepare-Good i (c ∷ cs) [] = tt
  prepare-Good i (c ∷ cs) (v ∷ vs) =
      add_chunk-Good i c v cs vs (prepared (suc (suc i)) cs vs) (prepare-Good (suc (suc i)) cs vs)

  latest-append :
      (id : Uuid) (ps qs : List (Point Vector)) (old : Option (Point Vector))
      → latest id (ps ++ qs) old ≡ latest id qs (latest id ps old)
  latest-append id [] qs old = refl
  latest-append id (p ∷ ps) qs old = latest-append id ps qs (if p.id == id then some p else old)

  -- The batches put their points one behind the other.
  batches-held :
      (bs : List (List (Point Vector))) (s s' : col.Store) (id : Uuid)
      → upsert_batches col embed draw now bs s ≡ (ok tt, s')
      → latest id (col.points s') none ≡ latest id (concat bs) (latest id (col.points s) none)
  batches-held [] s s' id e = ap (λ x. latest id (col.points x.1) none) (sym e)
  batches-held (b ∷ bs) s s' id e = go (col.upsert b s) refl e (λ u. batches-held bs u s' id)
    where
      go :
          (x : Result Exception (Unit {0}) × col.Store)
          → col.upsert b s ≡ x
          → ◌≡◌ {A = Result Exception (Unit {0}) × col.Store}
              (continue x.0 (λ u. upsert_batches col embed draw now bs) x.1)
              (ok tt, s')
          → ((u : col.Store)
              → upsert_batches col embed draw now bs u ≡ (ok tt, s')
              → latest id (col.points s') none
                ≡ latest id (concat bs) (latest id (col.points u) none))
          → latest id (col.points s') none
            ≡ latest id (b ++ concat bs) (latest id (col.points s) none)
      go (ok u, v) put h rest =
          rest v h
          ∙ ap (latest id (concat bs)) (col.points-upsert b s v id put)
          ∙ sym (latest-append id b (concat bs) (latest id (col.points s) none))
      go (err x, v) put h rest = cc

  module _ (c : Chunk) (cs : List Chunk) (s : col.Store) (rows : List DocumentChunk) where
    abbrev upsert_all : List (Point Vector) → Exec col.Store Exception (Unit {0})
    upsert_all points = upsert_batches col embed draw now (slices 128 points)

    abbrev under : Uuid → col.Store → Option (Point Vector)
    under id s' = latest id (col.points s') none

    -- The vectors and the points behind the rows; and the collection is left with these points, each
    -- under its id, and with what it held under every other id.
    pub record IsIndexed (s' : col.Store) : Type 0 where
      pub vs : List Vector
      pub points : List (Point Vector)
      pub embedded : embed (map (λ x. x.text) (c ∷ cs)) ≡ ok vs
      pub good : IsPrepared o (c ∷ cs) vs points rows
      pub held :
          (id : Uuid)
          → latest id (col.points s') none ≡ latest id points (latest id (col.points s) none)

    after_upsert :
        (vs : List Vector) (points : List (Point Vector)) (rows' : List DocumentChunk)
        (x : Result Exception (Unit {0}) × col.Store)
        → embed (map (λ x. x.text) (c ∷ cs)) ≡ ok vs
        → IsPrepared o (c ∷ cs) vs points rows'
        → upsert_all points s ≡ x
        → (continue x.0 (λ u. pure rows') x.1).0 ≡ ok rows
        → IsIndexed (continue x.0 (λ u. pure rows') x.1).1
    after_upsert vs points rows' (err e, s') embedded g taken h = cc
    after_upsert vs points rows' (ok u, s') embedded g taken h =
        let same : rows' ≡ rows = cc h in
        record {
          vs = vs;
          points = points;
          embedded = embedded;
          good = subst (IsPrepared o (c ∷ cs) vs points) same g;
          held = λ id.
              batches-held (slices 128 points) s s' id taken
              ∙ ap (λ ps. latest id ps (under id s)) (concat-slices 128 points (omega arith));
        }

    abbrev upserted :
        List (Point Vector) × List DocumentChunk → Exec col.Store Exception (List DocumentChunk)
    upserted p = do upsert_all p.0; pure p.1

    after_prepare :
        (vs : List Vector) (r : Result Exception (List (Point Vector) × List DocumentChunk))
        → embed (map (λ x. x.text) (c ∷ cs)) ≡ ok vs
        → Good (c ∷ cs) vs r
        → (continue r upserted s).0 ≡ ok rows
        → IsIndexed (continue r upserted s).1
    after_prepare vs (err e) embedded g h = cc
    after_prepare vs (ok (points, rows')) embedded g h =
        after_upsert vs points rows' (upsert_all points s) embedded g refl h

    after_embed :
        (r : Result Exception (List Vector))
        → embed (map (λ x. x.text) (c ∷ cs)) ≡ r
        → (continue r (λ vs s'. continue (prepared 0 (c ∷ cs) vs) upserted s') s).0 ≡ ok rows
        → IsIndexed (continue r (λ vs s'. continue (prepared 0 (c ∷ cs) vs) upserted s') s).1
    after_embed (err e) embedded h = cc
    after_embed (ok vs) embedded h =
        after_prepare vs (prepared 0 (c ∷ cs) vs) embedded (prepare-Good 0 (c ∷ cs) vs) h

    -- If indexing some chunks succeeds, there are one point and one row for each chunk, in order: the
    -- point with the chunk's embedding, the tenant, the user, the document and its title, and the
    -- chunk's index, heading, pages, text and tokens; the row with the chunk's index and text, the
    -- document, and the id of its point. The collection holds under each id the last of these points
    -- with the id, or else what it held before.
    pub index_chunks-IsIndexed :
        (index_chunks col embed draw now (c ∷ cs) o s).0 ≡ ok rows
        → IsIndexed (index_chunks col embed draw now (c ∷ cs) o s).1
    unfolding index_chunks
    index_chunks-IsIndexed h = after_embed (embed (map (λ x. x.text) (c ∷ cs))) refl h
