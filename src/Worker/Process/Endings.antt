-- ===== src/Worker/Process/Endings.antt =====
-- The document's row when a job of src/worker/tasks/ingestion.py ends.
use legal_viet_namese.Base.{
  ℕ, ◌≡◌, refl, true, List, ◌++◌, Option, none, some, length, ◌==◌, find?-update_where, Result, ok,
  err, Bool-cases, inl, inr, ◌>>=◌, ◌>>◌, pure,
}
use legal_viet_namese.Db.Models.{
  Db, Document, DocumentChunk, Status, pending, parsing, chunking, embedding, indexed, failed, Uuid,
}
use legal_viet_namese.Db.Session.{Exception, session_scope}
use legal_viet_namese.Db.Documents.{
  Changes, document_at, with_status, set_status, bulk_insert_chunks, chunks_clash, get_internal,
  no_changes, is_indexed,
}
use legal_viet_namese.Ingestion.Indexer.{Collection, Owner}
use legal_viet_namese.Worker.Process.{
  World, Services, Progress, note, Outcome, done, missing, already_indexed, Snapshot, go_on, begin,
  first_session, last_session, store_chunks, work, proceed, process_document, in_session, publish,
}
use legal_viet_namese.Ingestion.Chunker.{Chunk, chunk_document}
use legal_viet_namese.Worker.Process.Body
use legal_viet_namese.Worker.Process.Body.{job_rules}
use legal_viet_namese.Worker.Process.Steps.{Keeps, After, Ends, in_session-Keeps, session-bind}

-- the document has a row
abbrev pub HasRow : Uuid → Db → Type 0
HasRow doc_id db = (d : Document) × (document_at doc_id db ≡ some d)

-- the document has a row with this status
pub record IsLeft (doc_id : Uuid) (status : Status) (db : Db) : Type 0 where
  pub row : Document
  pub found : document_at doc_id db ≡ some row
  pub left : row.status ≡ status

pub set_status-found :
    (doc_id : Uuid) (status : Status) (c : Changes) (now : ℕ) (db : Db) (d : Document)
    → document_at doc_id db ≡ some d
    → document_at doc_id (session_scope (set_status doc_id status c now) db).1
      ≡ some (with_status status c now d)
unfolding session_scope set_status
set_status-found doc_id status c now db d h =
    find?-update_where (λ x. x.id == doc_id) (with_status status c now) db.documents d (λ x k. k) h

pub set_status-HasRow :
    (doc_id : Uuid) (status : Status) (c : Changes) (now : ℕ) (db : Db)
    → HasRow doc_id db
    → HasRow doc_id (session_scope (set_status doc_id status c now) db).1
set_status-HasRow doc_id status c now db (d, h) =
    (with_status status c now d, set_status-found doc_id status c now db d h)

-- What each outcome says of the tables: no row, an indexed one, or one that has just been indexed,
-- with the number of its chunks.
pub Ended : Uuid → Outcome → Db → Type 0
Ended doc_id missing db = document_at doc_id db ≡ none
Ended doc_id already_indexed db = IsLeft doc_id indexed db
Ended doc_id (done n) db =
    (d : Document) × (document_at doc_id db ≡ some d) × (d.status ≡ indexed) × (d.n_chunks ≡ some n)

module _ {Vector : Type 0} (col : Collection Vector) (sv : Services Vector) (doc_id : Uuid) where
  abbrev counted : List DocumentChunk → Changes
  counted rows = record no_changes { n_chunks = some (length rows) }

  last_session-HasRow :
      (rows : List DocumentChunk) (db : Db)
      → HasRow doc_id db
      → HasRow doc_id (session_scope (last_session col sv doc_id rows) db).1
  unfolding session_scope last_session bulk_insert_chunks set_status
  last_session-HasRow rows db h = elim (Bool-cases (chunks_clash db.document_chunks rows)) [
    | inl clash ↦ rw clash h
    | inr free ↦ rw free (
        set_status-HasRow doc_id indexed (counted rows) sv.now
          (record db { document_chunks = db.document_chunks ++ rows }) h)
  ]

  session-Keeps :
      (status : Status) (c : Changes)
      → Keeps (HasRow doc_id) (in_session col sv (set_status doc_id status c sv.now))
  session-Keeps status c =
      in_session-Keeps col sv (HasRow doc_id) _ (set_status-HasRow doc_id status c sv.now)

  last-Keeps :
      (rows : List DocumentChunk)
      → Keeps (HasRow doc_id) (in_session col sv (last_session col sv doc_id rows))
  last-Keeps rows = in_session-Keeps col sv (HasRow doc_id) _ (last_session-HasRow rows)

  abbrev P : Outcome → Db → Type 0
  P = Ended doc_id

  announced :
      (n : ℕ) (w : World col.Store)
      → P (done n) w.db
      → After (HasRow doc_id) P ((publish col sv doc_id indexed (some n) none >> pure (done n)) w)
  announced n w p = go _ (sv.publish _)
    where
      go :
          (q : Progress) (r : Result Exception (Unit {0}))
          → After (HasRow doc_id) P ((note col sv q r >> pure (done n)) w)
      go q (ok sent) = p
      go q (err e) = tt

  -- the part of `work` behind the index
  last-Ended :
      (rows : List DocumentChunk)
      → Ends (HasRow doc_id) P (
          in_session col sv (last_session col sv doc_id rows)
          >> (publish col sv doc_id indexed (some (length rows)) none >> pure (done (length rows))))
  unfolding session_scope last_session bulk_insert_chunks set_status Ended
  last-Ended rows = record {
    at = λ w (d, h).
        session-bind col sv (After (HasRow doc_id) P) (last_session col sv doc_id rows)
          (λ u.
            publish col sv doc_id indexed (some (length rows)) none >> pure (done (length rows)))
          w (λ e k. tt)
          (elim (Bool-cases (chunks_clash w.db.document_chunks rows)) [
            | inl clash ↦ rw clash tt
            | inr free ↦ rw free (
                announced (length rows) _ (
                  with_status indexed (counted rows) sv.now d,
                  set_status-found doc_id indexed (counted rows) sv.now
                      (record w.db { document_chunks = w.db.document_chunks ++ rows }) d h,
                  refl,
                  refl,
                ))
          ]);
  }

  stored :
      (owner : Owner) (chunks : List Chunk)
      → Ends (HasRow doc_id) P (store_chunks col sv doc_id owner chunks)
  unfolding store_chunks
  stored owner chunks = search (job_rules, session-Keeps, last-Ended) depth 30

  proceed-Ends :
      (snap : Snapshot col sv) → Ends (HasRow doc_id) P (proceed col sv doc_id (go_on snap))
  proceed-Ends snap =
      Body.proceed-Ends col sv doc_id (HasRow doc_id) session-Keeps last-Keeps P snap
        (λ parsed. stored snap.owner (chunk_document sv.chunker parsed))

  pub work-Keeps : (snap : Snapshot col sv) → Keeps (HasRow doc_id) (work col sv doc_id snap)
  work-Keeps = Body.work-Keeps col sv doc_id (HasRow doc_id) session-Keeps last-Keeps

  pub is_indexed_sound : (s : Status) → is_indexed s ≡ true → s ≡ indexed
  is_indexed_sound pending h = cc
  is_indexed_sound parsing h = cc
  is_indexed_sound chunking h = cc
  is_indexed_sound embedding h = cc
  is_indexed_sound indexed h = refl
  is_indexed_sound failed h = cc

  begun-Ended :
      (o : Option Document) (w : World col.Store)
      → document_at doc_id w.db ≡ o
      → After
          (HasRow doc_id)
          P
          ((in_session col sv (begin col sv doc_id o) >>= proceed col sv doc_id) w)
  unfolding session_scope set_status Ended
  begun-Ended none w gone =
      session-bind col sv (After (HasRow doc_id) P) (begin col sv doc_id none) _ w (λ e k. tt) gone
  begun-Ended (some d) w found =
      session-bind col sv (After (HasRow doc_id) P) (begin col sv doc_id (some d)) _ w (λ e k. tt)
        (elim (Bool-cases (is_indexed d.status)) [
          | inl over ↦
              rw over (record { row = d; found = found; left = is_indexed_sound d.status over })
          | inr open_ ↦ rw open_ (
              (proceed-Ends _).at _
                (set_status-HasRow doc_id parsing no_changes sv.now w.db (d, found)))
        ])

  -- A job that reports a missing document found no row; one that reports an indexed document leaves
  -- a row with that status; and one that reports `n` chunks leaves the row indexed with `n` as its
  -- number of chunks, whatever the parsers, the chunker, the stores and the channel do.
  pub process_document-Ended :
      (w : World col.Store) → After (HasRow doc_id) P (process_document col sv doc_id w)
  unfolding session_scope process_document first_session get_internal
  process_document-Ended w = begun-Ended (document_at doc_id w.db) w refl
