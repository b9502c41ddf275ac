-- ===== src/Worker/Process.antt =====
-- `process_document` of src/worker/tasks/ingestion.py.
pub mod Steps
pub mod Body
pub mod Endings
pub mod Failures
pub mod Leftover
pub mod FreshRows
pub mod Success
pub mod Announcing
use legal_viet_namese.Base.{
  ℕ, Bool, List, [], ◌∷◌, ◌++◌, Option, none, some, Text, chars, take, length, is_empty, Result, ok,
  err, Exec, ◌>>=◌, ◌>>◌, pure, raise_if, if◌then◌else◌,
}
use legal_viet_namese.Db.Models.{
  Db, Document, DocumentChunk, Status, parsing, chunking, embedding, indexed, failed, Uuid, Moment,
  Jsonb,
}
use legal_viet_namese.Db.Session.{Action, Exception, value_error, session_scope}
use legal_viet_namese.Db.Documents
use legal_viet_namese.Db.Documents.{
  Changes, no_changes, is_indexed, get_internal, set_status, bulk_insert_chunks,
}
use legal_viet_namese.Ingestion.Indexer.{Collection, Owner, index_chunks, delete_doc_vectors}
use legal_viet_namese.Ingestion.Parsers.{ParserTools, parse_file}
use legal_viet_namese.Ingestion.Chunker.{Chunk, ChunkTools, chunk_document}

-- an event on the channel of the document: the status, and the number of chunks or the error
pub record Progress : Type 0 where
  pub doc_id : Uuid
  pub status : Status
  pub n_chunks : Option ℕ
  pub error : Option Text

-- What the job calls: the object store, the tools of the parsers and the chunker, the embeddings,
-- and the channel, which may raise at each event. `database before after` is what the database does
-- with a session that finds the tables `before` and would leave them `after`: if it raises, the
-- session is rolled back. `is_cancelled` tells the CancelledError of a job that is stopped, by its
-- timeout say, which `except Exception` does not catch; every call that may raise may raise it.
-- `text_of` is `str` of an exception, `dump` the JSON of the parser's meta data, `folder` is
-- `key.rsplit("/", 1)[0]`.
pub record Services (Vector : Type 0) : Type 0 where
  pub get_object_bytes : Text → Result Exception Text
  pub put_object : Text → Text → Result Exception (Unit {0})
  pub parsers : ParserTools
  pub chunker : ChunkTools
  pub embed : List Text → Result Exception (List Vector)
  pub publish : Progress → Result Exception (Unit {0})
  pub database : Db → Db → Result Exception (Unit {0})
  pub is_cancelled : Exception → Bool
  pub text_of : Exception → Text
  pub dump : Jsonb → Text
  pub folder : Text → Text
  pub draw : ℕ → Uuid
  pub now : Moment

pub record World (Store : Type 0) : Type 0 where
  pub db : Db
  pub vectors : Store
  pub published : List Progress

-- what the job returns
pub data Outcome : Type 0 where
  missing : Outcome
  already_indexed : Outcome
  done : ℕ → Outcome

module _ {Vector : Type 0} (col : Collection Vector) (sv : Services Vector) where
  abbrev pub Job : Type 0 → Type 0
  Job A = Exec (World col.Store) Exception A

  -- how a session ends, by what the database does
  abbrev pub settle : {A : Type 0} → Result Exception (Unit {0}) → Result Exception A × Db → Job A
  settle (ok u) (r, db) w = (r, record w { db = db })
  settle (err e) (r, db) w = (err e, w)

  -- a session of its own
  abbrev pub in_session : {A : Type 0} → Action A → Job A
  in_session action w = let x = session_scope action w.db in settle (sv.database w.db x.1) x w

  abbrev pub in_collection : {A : Type 0} → Exec col.Store Exception A → Job A
  in_collection action w =
      let (r, vectors) = action w.vectors in (r, record w { vectors = vectors })

  abbrev pub call : {A : Type 0} → Result Exception A → Job A
  call r w = (r, w)

  abbrev pub note : Progress → Result Exception (Unit {0}) → Job (Unit {0})
  note p (ok sent) w = (ok tt, record w { published = w.published ++ (p ∷ []) })
  note p (err e) w = (err e, w)

  abbrev pub publish : Uuid → Status → Option ℕ → Option Text → Job (Unit {0})
  publish doc_id status n_chunks error =
      let p : Progress = record {
        doc_id = doc_id;
        status = status;
        n_chunks = n_chunks;
        error = error;
      } in
      note p (sv.publish p)

  -- the fields that the first session hands on: the storage key, the type, the title, the owner
  pub record Snapshot : Type 0 where
    pub storage_key : Text
    pub mime_type : Text
    pub owner : Owner

  abbrev pub snapshot_of : Document → Snapshot
  snapshot_of d = record {
    storage_key = d.storage_key;
    mime_type = d.mime_type;
    owner = record {
      doc_id = d.id;
      user_id = d.user_id;
      tenant_id = d.tenant_id;
      doc_title = d.title;
    };
  }

  -- what the first session ends with: an outcome, or a document to work on
  pub data Start : Type 0 where
    stop : Outcome → Start
    go_on : Snapshot → Start

  abbrev pub begin : Uuid → Option Document → Action Start
  begin doc_id none s = (ok (stop missing), s)
  begin doc_id (some d) s =
      if is_indexed d.status
      then (ok (stop already_indexed), s)
      else (set_status doc_id parsing no_changes sv.now >> pure (go_on (snapshot_of d))) s

  unfoldable pub first_session : Uuid → Action Start
  first_session doc_id = do found ← get_internal doc_id; begin doc_id found

  -- the last session of a success
  unfoldable pub last_session : Uuid → List DocumentChunk → Action (Unit {0})
  last_session doc_id rows = do
    bulk_insert_chunks rows
    set_status doc_id indexed (record no_changes { n_chunks = some (length rows) }) sv.now

  -- the body of `try` from the chunks on
  unfoldable pub store_chunks : Uuid → Owner → List Chunk → Job Outcome
  store_chunks doc_id owner chunks = do
    raise_if (is_empty chunks) value_error
    in_session (set_status doc_id embedding no_changes sv.now)
    publish doc_id embedding (some (length chunks)) none
    in_collection (delete_doc_vectors col sv.embed sv.draw sv.now doc_id)
    rows ← in_collection (index_chunks col sv.embed sv.draw sv.now chunks owner)
    in_session (last_session doc_id rows)
    publish doc_id indexed (some (length rows)) none
    pure (done (length rows))

  -- the body of `try`
  unfoldable pub work : Uuid → Snapshot → Job Outcome
  work doc_id snap = do
    bytes ← call (sv.get_object_bytes snap.storage_key)
    parsed ← call (parse_file sv.parsers bytes snap.mime_type snap.owner.doc_title)
    let markdown_key = sv.folder snap.storage_key ++ chars "/parsed.md"
    call (sv.put_object markdown_key parsed.markdown)
    in_session (
        set_status doc_id chunking
          (record no_changes {
            markdown_key = some markdown_key;
            meta = some ((chars "parse", sv.dump parsed.meta) ∷ []);
          })
          sv.now)
    publish doc_id chunking none none
    store_chunks doc_id snap.owner (chunk_document sv.chunker parsed)

  -- `except Exception as e`
  unfoldable pub record_failure : Uuid → Exception → Job Outcome
  record_failure doc_id e = do
    in_session (
        set_status doc_id failed (record no_changes { error = some (take 2000 (sv.text_of e)) })
          sv.now)
    publish doc_id failed none (some (take 500 (sv.text_of e)))
    λ w. (err e, w)

  abbrev pub guarded :
      Uuid → Result Exception Outcome × World col.Store → Result Exception Outcome × World col.Store
  guarded doc_id (ok outcome, w) = (ok outcome, w)
  guarded doc_id (err e, w) = if sv.is_cancelled e then (err e, w) else record_failure doc_id e w

  abbrev pub proceed : Uuid → Start → Job Outcome
  proceed doc_id (stop outcome) = pure outcome
  proceed doc_id (go_on snap) = do
    publish doc_id parsing none none
    λ w. guarded doc_id (work doc_id snap w)

  unfoldable pub process_document : Uuid → Job Outcome
  process_document doc_id = do start ← in_session (first_session doc_id); proceed doc_id start
