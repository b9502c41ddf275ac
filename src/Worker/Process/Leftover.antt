-- ===== src/Worker/Process/Leftover.antt =====
-- A job of src/worker/tasks/ingestion.py on a document that has chunk rows of an earlier run.
use legal_viet_namese.Base.{
  ℕ, ◌≡◌, ◌≢◌, refl, true, ◌==◌, ==_iff, List, [], ◌∷◌, ◌++◌, map, Option, none, some, length,
  find?-holds, Result, ok, err, Bool-cases, inl, inr, ◌>>=◌, ◌>>◌, pure, arith,
}
use legal_viet_namese.Db.Models.{Db, Document, DocumentChunk, Status, indexed, Uuid}
use legal_viet_namese.Db.Session.{Exception, session_scope}
use legal_viet_namese.Db.Documents.{
  Changes, document_at, set_status, bulk_insert_chunks, has_chunk, chunks_clash, get_internal,
  is_indexed,
}
use legal_viet_namese.Ingestion.Chunker.{Chunk, chunk_document}
use legal_viet_namese.Ingestion.Chunker.Numbering.{IsNumbered, chunk_document-IsNumbered}
use legal_viet_namese.Ingestion.Indexer.{Collection, Owner, index_chunks}
use legal_viet_namese.Ingestion.Indexer.Rows.{index_chunks-IsIndexed}
use legal_viet_namese.Worker.Process.{
  World, Services, Outcome, done, missing, already_indexed, snapshot_of, begin, first_session,
  last_session, store_chunks, proceed, process_document, in_session, in_collection, publish,
}
use legal_viet_namese.Worker.Process.Body
use legal_viet_namese.Worker.Process.Body.{job_rules}
use legal_viet_namese.Worker.Process.Steps.{
  Keeps, After, Ends, session-bind, bind-Knows, in_collection-Keeps, in_session-Keeps,
}

-- the first chunk of the document has a row
abbrev pub HasLeftover : Uuid → Db → Type 0
HasLeftover doc_id db = has_chunk doc_id 0 db.document_chunks ≡ true

-- not a success
abbrev pub Unfinished : Outcome → Db → Type 0
Unfinished (done n) db = ⊥
Unfinished missing db = Unit {0}
Unfinished already_indexed db = Unit {0}

-- the first row is the first chunk of the document
abbrev StartsAt : Uuid → List DocumentChunk → Type 0
StartsAt doc_id [] = ⊥
StartsAt doc_id (r ∷ rows) = (r.document_id ≡ doc_id) × (r.chunk_index ≡ 0)

has_chunk-append :
    (doc_id : Uuid) (i : ℕ) (old new : List DocumentChunk)
    → has_chunk doc_id i old ≡ true
    → has_chunk doc_id i (old ++ new) ≡ true
has_chunk-append doc_id i [] new h = cc
has_chunk-append doc_id i (c ∷ old) new h = ground (arith, has_chunk-append doc_id i old new)

StartsAt-clash :
    (doc_id : Uuid) (old rows : List DocumentChunk)
    → has_chunk doc_id 0 old ≡ true
    → StartsAt doc_id rows
    → chunks_clash old rows ≡ true
StartsAt-clash doc_id old [] h s = absurd s
StartsAt-clash doc_id old (r ∷ rows) h s = rw (s.0, s.1, h) refl

module _ {Vector : Type 0} (col : Collection Vector) (sv : Services Vector) (doc_id : Uuid) where
  abbrev I : Db → Type 0
  I = HasLeftover doc_id

  set_status-Keeps :
      (status : Status) (c : Changes)
      → Keeps I (in_session col sv (set_status doc_id status c sv.now))
  unfolding session_scope set_status
  set_status-Keeps status c =
      in_session-Keeps col sv I (set_status doc_id status c sv.now) (λ db i. i)

  last-Keeps :
      (rows : List DocumentChunk) → Keeps I (in_session col sv (last_session col sv doc_id rows))
  unfolding session_scope last_session bulk_insert_chunks set_status
  last-Keeps rows = in_session-Keeps col sv I (last_session col sv doc_id rows) λ db i.
      elim (Bool-cases (chunks_clash db.document_chunks rows)) [
        | inl clash ↦ rw clash i
        | inr free ↦ rw free (has_chunk-append doc_id 0 db.document_chunks rows i)
      ]

  -- the part of the job behind the index is refused
  last-Ends :
      (rows : List DocumentChunk)
      → StartsAt doc_id rows
      → Ends I Unfinished (
          in_session col sv (last_session col sv doc_id rows)
          >> (publish col sv doc_id indexed (some (length rows)) none >> pure (done (length rows))))
  unfolding session_scope last_session bulk_insert_chunks
  last-Ends rows s = record {
    at = λ w i.
        session-bind col sv (After I Unfinished) (last_session col sv doc_id rows)
          (λ u.
            publish col sv doc_id indexed (some (length rows)) none >> pure (done (length rows)))
          w (λ e k. tt) (rw (StartsAt-clash doc_id w.db.document_chunks rows i s) tt);
  }

  rows-StartsAt :
      (c : Chunk) (cs : List Chunk) (owner : Owner) (rows : List DocumentChunk)
      → owner.doc_id ≡ doc_id
      → c.index ≡ 0
      → map (λ (r : DocumentChunk). r.chunk_index) rows ≡ c.index ∷ map (λ x. x.index) cs
      → map (λ (r : DocumentChunk). r.document_id) rows ≡ owner.doc_id ∷ map (λ x. owner.doc_id) cs
      → StartsAt doc_id rows
  rows-StartsAt c cs owner [] own first indices documents = cc
  rows-StartsAt c cs owner (r ∷ rows) own first indices documents = (cc, cc)

  index-StartsAt :
      (c : Chunk) (cs : List Chunk) (owner : Owner) (w : World col.Store)
      (rows : List DocumentChunk)
      → owner.doc_id ≡ doc_id
      → c.index ≡ 0
      → (in_collection col sv (index_chunks col sv.embed sv.draw sv.now (c ∷ cs) owner) w).0
        ≡ ok rows
      → StartsAt doc_id rows
  index-StartsAt c cs owner w rows own first h =
      let x = index_chunks-IsIndexed col sv.embed sv.draw sv.now owner c cs w.vectors rows h in
      rows-StartsAt c cs owner rows own first x.good.indices x.good.documents

  indexed-Ends :
      (owner : Owner) (c : Chunk) (cs : List Chunk)
      → owner.doc_id ≡ doc_id
      → c.index ≡ 0
      → Ends I Unfinished (do
        rows ← in_collection col sv (index_chunks col sv.embed sv.draw sv.now (c ∷ cs) owner)
        in_session col sv (last_session col sv doc_id rows)
        publish col sv doc_id indexed (some (length rows)) none
        pure (done (length rows)))
  indexed-Ends owner c cs own first =
      bind-Knows I Unfinished (StartsAt doc_id) _ _
        (in_collection-Keeps col sv I (index_chunks col sv.embed sv.draw sv.now (c ∷ cs) owner))
        (λ w rows h. index-StartsAt c cs owner w rows own first h) last-Ends

  stored :
      (owner : Owner) (chunks : List Chunk)
      → owner.doc_id ≡ doc_id
      → IsNumbered 0 chunks
      → Ends I Unfinished (store_chunks col sv doc_id owner chunks)
  unfolding store_chunks
  stored owner [] own n = record { at = λ w i. tt }
  stored owner (c ∷ cs) own n =
      search (job_rules, set_status-Keeps, indexed-Ends owner c cs own n.0) depth 30

  begun-Unfinished :
      (o : Option Document) (w : World col.Store)
      → document_at doc_id w.db ≡ o
      → I w.db
      → After I Unfinished ((in_session col sv (begin col sv doc_id o) >>= proceed col sv doc_id) w)
  unfolding session_scope set_status
  begun-Unfinished none w gone i =
      session-bind col sv (After I Unfinished) (begin col sv doc_id none) _ w (λ e k. tt) tt
  begun-Unfinished (some d) w found i =
      let own : d.id ≡ doc_id =
        (==_iff d.id doc_id).0 (find?-holds (λ x. x.id == doc_id) w.db.documents d found) in
      session-bind col sv (After I Unfinished) (begin col sv doc_id (some d)) _ w (λ e k. tt)
        (elim (Bool-cases (is_indexed d.status)) [
          | inl over ↦ rw over tt
          | inr pending_ ↦ rw pending_ (
              (Body.proceed-Ends col sv doc_id I set_status-Keeps last-Keeps Unfinished
                  (snapshot_of col sv d)
                  (λ parsed.
                    stored _ (chunk_document sv.chunker parsed) own
                      (chunk_document-IsNumbered sv.chunker parsed).0)).at
                _ i)
        ])

  -- A job on a document whose first chunk has a row already, as a run leaves it that fails behind its
  -- last commit, never gets the document indexed, whatever the services answer: it never
  -- reports a number of chunks.
  pub process_document-stuck :
      (w : World col.Store) (n : ℕ)
      → HasLeftover doc_id w.db
      → (process_document col sv doc_id w).0 ≢ ok (done n)
  unfolding session_scope process_document first_session get_internal
  process_document-stuck w n i e =
      go (process_document col sv doc_id w) (begun-Unfinished (document_at doc_id w.db) w refl i) e
    where
      go :
          (x : Result Exception Outcome × World col.Store)
          → After I Unfinished x
          → x.0 ≡ ok (done n)
          → ⊥
      go (ok (done k), w') u e = u
      go (ok missing, w') u e = cc
      go (ok already_indexed, w') u e = cc
      go (err x, w') u e = cc
