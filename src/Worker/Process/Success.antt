-- ===== src/Worker/Process/Success.antt =====
-- A job of src/worker/tasks/ingestion.py whose services answer.
pub mod Proceeding
use legal_viet_namese.Base.{
  suc, ◌≡◌, refl, ap, subst, ◌∙◌, false, ◌==◌, List, [], ◌∷◌, All, length, Option, some, Text,
  Result, ok, err, ==_iff, find?-holds, ◌>>=◌, ◌>>◌, arith,
}
use legal_viet_namese.Db.Models.{Db, Document, DocumentChunk, Uuid}
use legal_viet_namese.Db.Session.{Exception, session_scope}
use legal_viet_namese.Db.Documents.{document_at, set_status, get_internal, is_indexed}
use legal_viet_namese.Ingestion.Parsers.{ParseResult, parse_file}
use legal_viet_namese.Ingestion.Chunker.{Chunk, chunk_document}
use legal_viet_namese.Ingestion.Chunker.Numbering.{IsNumbered, chunk_document-IsNumbered}
use legal_viet_namese.Ingestion.Indexer.{Collection, Point}
use legal_viet_namese.Ingestion.Indexer.Success.{Succeeds}
use legal_viet_namese.Worker.Process.{
  World, Services, Progress, Outcome, done, snapshot_of, begin, first_session, proceed,
  process_document, in_session, publish,
}
use legal_viet_namese.Worker.Process.Steps.{Won, Any}
use legal_viet_namese.Worker.Process.FreshRows.{Below}
use legal_viet_namese.Worker.Process.Success.Proceeding.{proceed-Wins}

module _ {Vector : Type 0} (col : Collection Vector) (sv : Services Vector) (doc_id : Uuid)
    (heard : (p : Progress) → sv.publish p ≡ ok tt)
    (put : (key bytes : Text) → sv.put_object key bytes ≡ ok tt)
    (reached : (before after : Db) → sv.database before after ≡ ok tt)
    (embedded : (ts : List Text)
      → (vs : List Vector) × (sv.embed ts ≡ ok vs) × (length vs ≡ length ts))
    (deleted : (s : col.Store) → Succeeds (col.delete_doc doc_id s).0)
    (upserted : (ps : List (Point Vector)) (s : col.Store) → Succeeds (col.upsert ps s).0) where
  begun-Won :
      (o : Option Document) (d : Document) (w : World col.Store) (c : Chunk) (cs : List Chunk)
      (bytes : Text) (parsed : ParseResult)
      → document_at doc_id w.db ≡ o
      → o ≡ some d
      → is_indexed d.status ≡ false
      → sv.get_object_bytes d.storage_key ≡ ok bytes
      → parse_file sv.parsers bytes d.mime_type d.title ≡ ok parsed
      → chunk_document sv.chunker parsed ≡ c ∷ cs
      → Below doc_id 0 w.db.document_chunks
      → Won Any
          (λ o. o ≡ done (suc (length cs)))
          ((in_session col sv (begin col sv doc_id o) >>= proceed col sv doc_id) w)
  unfolding session_scope set_status
  begun-Won o d w c cs bytes parsed at_ found open_ download read chunked clean =
      let own : d.id ≡ doc_id =
        (==_iff d.id doc_id).0 (find?-holds (λ x. x.id == doc_id) w.db.documents d (at_ ∙ found)) in
      let n : IsNumbered 0 (c ∷ cs) =
        subst (IsNumbered 0) chunked (chunk_document-IsNumbered sv.chunker parsed).0 in
      rw (found, open_, reached w.db _)
        ((proceed-Wins col sv doc_id heard put reached embedded deleted upserted
            (snapshot_of col sv d).owner own c cs n (snapshot_of col sv d) refl bytes parsed chunked
            download read).at
          _ clean)

  -- Where the database, the object store, the embeddings, Qdrant and the channel answer without an
  -- exception, and the embeddings with one vector for each text, a job on a document that is not indexed yet, whose
  -- stored bytes can be parsed and give some chunks, and that has no chunk row, succeeds: it reports
  -- the number of the chunks.
  pub process_document-done :
      (d : Document) (w : World col.Store) (bytes : Text) (parsed : ParseResult) (c : Chunk)
      (cs : List Chunk)
      → document_at doc_id w.db ≡ some d
      → is_indexed d.status ≡ false
      → sv.get_object_bytes d.storage_key ≡ ok bytes
      → parse_file sv.parsers bytes d.mime_type d.title ≡ ok parsed
      → chunk_document sv.chunker parsed ≡ c ∷ cs
      → All (λ r. (r.document_id == doc_id) ≡ false) w.db.document_chunks
      → (process_document col sv doc_id w).0 ≡ ok (done (length (c ∷ cs)))
  unfolding session_scope process_document first_session get_internal
  process_document-done d w bytes parsed c cs found open_ download read chunked none_ =
      go (process_document col sv doc_id w) (
        begun-Won (document_at doc_id w.db) d w c cs bytes parsed refl found open_ download read
          chunked (absent w.db.document_chunks none_))
    where
      absent :
          (rows : List DocumentChunk)
          → All (λ r. (r.document_id == doc_id) ≡ false) rows
          → Below doc_id 0 rows
      absent [] a = tt
      absent (r ∷ rows) a = (ground (arith, a.0), absent rows a.1)

      go :
          (x : Result Exception Outcome × World col.Store)
          → Won Any (λ o. o ≡ done (suc (length cs))) x
          → x.0 ≡ ok (done (length (c ∷ cs)))
      go (ok o, w') h = ap ok h.1
      go (err e, w') h = absurd h
