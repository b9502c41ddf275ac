-- ===== src/Ingestion/Indexer.antt =====
-- src/ingestion/indexer.py: the points and the rows of a document's chunks.
pub mod Rows
pub mod Success
use legal_viet_namese.Base.{
  ℕ, suc, ◌≡◌, not, ◌==◌, List, [], ◌∷◌, map, filter, Option, none, some, if◌then◌else◌, Text,
  slices, Result, ok, err, Exec, ◌>>=◌, ◌>>◌, pure,
}
use legal_viet_namese.Db.Models.{DocumentChunk, Uuid, Moment, Jsonb, stamped}
use legal_viet_namese.Db.Session.{Exception, value_error}
use legal_viet_namese.Ingestion.Chunker.{Chunk}
use legal_viet_namese.Retrieval.Search.{Payload}

pub record Point (Vector : Type 0) : Type 0 where
  pub id : Uuid
  pub vector : Vector
  pub payload : Payload

-- What is under an id once some points have been put behind what was there: the last one with the id.
abbrev pub latest :
    {Vector : Type 0} → Uuid → List (Point Vector) → Option (Point Vector) → Option (Point Vector)
latest id [] old = old
latest id (p ∷ ps) old = latest id ps (if p.id == id then some p else old)

-- The Qdrant collection of the documents. An upsert or a delete may raise, and then leaves the
-- points in a state of Qdrant's own.
pub record Collection (Vector : Type 0) : Type 1 where
  pub Store : Type 0
  pub points : Store → List (Point Vector)
  pub upsert : List (Point Vector) → Exec Store Exception (Unit {0})
  pub delete_doc : Uuid → Exec Store Exception (Unit {0})
  -- an upsert that succeeds puts its points under their ids, and leaves the other ids alone
  pub points-upsert :
      (ps : List (Point Vector)) (s s' : Store) (id : Uuid)
      → upsert ps s ≡ (ok tt, s')
      → latest id (points s') none ≡ latest id ps (latest id (points s) none)
  -- a delete that succeeds leaves the points of the other documents
  pub points-delete_doc :
      (doc_id : Uuid) (s s' : Store)
      → delete_doc doc_id s ≡ (ok tt, s')
      → points s' ≡ filter (λ p. not (p.payload.doc_id == doc_id)) (points s)

-- the document that is indexed, and its owner
pub record Owner : Type 0 where
  pub doc_id : Uuid
  pub user_id : Uuid
  pub tenant_id : Uuid
  pub doc_title : Text

abbrev pub payload_of : Owner → Chunk → Payload
payload_of o c = record {
  tenant_id = o.tenant_id;
  user_id = o.user_id;
  doc_id = o.doc_id;
  doc_title = o.doc_title;
  chunk_index = c.index;
  heading_path = c.heading_path;
  page_from = c.page_from;
  page_to = c.page_to;
  text = c.text;
  n_tokens = c.n_tokens;
}

-- The row of a chunk. `row_id` is the primary key that the ORM draws.
abbrev pub row_of : Owner → Chunk → Uuid → Uuid → Moment → DocumentChunk
row_of o c row_id point_id now = record {
  id = row_id;
  document_id = o.doc_id;
  chunk_index = c.index;
  text = c.text;
  n_tokens = c.n_tokens;
  heading_path = c.heading_path;
  page_from = c.page_from;
  page_to = c.page_to;
  qdrant_point_id = some point_id;
  times = stamped now;
}

module _ {Vector : Type 0} (col : Collection Vector)
    (embed : List Text → Result Exception (List Vector)) (draw : ℕ → Uuid) (now : Moment) where
  -- One round of the loop: a point and a row. The i-th chunk draws the UUIDs 2i and 2i + 1.
  abbrev pub add_chunk :
      Owner
      → ℕ
      → Chunk
      → Vector
      → Result Exception (List (Point Vector) × List DocumentChunk)
      → Result Exception (List (Point Vector) × List DocumentChunk)
  add_chunk o i c v (err e) = err e
  add_chunk o i c v (ok (points, rows)) = ok (
    record { id = draw i; vector = v; payload = payload_of o c } ∷ points,
    row_of o c (draw (suc i)) (draw i) now ∷ rows,
  )

  -- `zip(chunks, vectors, strict=True)` and the loop over it
  abbrev pub prepare :
      Owner
      → ℕ
      → List Chunk
      → List Vector
      → Result Exception (List (Point Vector) × List DocumentChunk)
  prepare o i [] [] = ok ([], [])
  prepare o i [] (v ∷ vs) = err value_error
  prepare o i (c ∷ cs) [] = err value_error
  prepare o i (c ∷ cs) (v ∷ vs) = add_chunk o i c v (prepare o (suc (suc i)) cs vs)

  abbrev pub upsert_batches : List (List (Point Vector)) → Exec col.Store Exception (Unit {0})
  upsert_batches [] = pure tt
  upsert_batches (batch ∷ batches) = do col.upsert batch; upsert_batches batches

  abbrev pub lift : {A : Type 0} → Result Exception A → Exec col.Store Exception A
  lift r s = (r, s)

  unfoldable pub index_chunks : List Chunk → Owner → Exec col.Store Exception (List DocumentChunk)
  index_chunks [] o = pure []
  index_chunks (c ∷ cs) o = do
    vectors ← lift (embed (map (λ x. x.text) (c ∷ cs)))
    prepared ← lift (prepare o 0 (c ∷ cs) vectors)
    upsert_batches (slices 128 prepared.0)
    pure prepared.1

  unfoldable pub delete_doc_vectors : Uuid → Exec col.Store Exception (Unit {0})
  delete_doc_vectors doc_id = col.delete_doc doc_id
