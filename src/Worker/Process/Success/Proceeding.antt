-- ===== src/Worker/Process/Success/Proceeding.antt =====
-- The steps of a job of src/worker/tasks/ingestion.py succeed, one after the other.
use legal_viet_namese.Base.{
  ℕ, suc, ◌≡◌, refl, sym, ap, subst, ◌∙◌, List, [], ◌∷◌, map, length, is_empty, Option, none, some,
  Text, Result, ok, err, ◌>>=◌, ◌>>◌, pure, raise_if,
}
use legal_viet_namese.Db.Models.{Db, DocumentChunk, Status, parsing, chunking, indexed, Uuid}
use legal_viet_namese.Db.Session.{Exception, value_error, session_scope}
use legal_viet_namese.Db.Documents.{Changes, bulk_insert_chunks, set_status}
use legal_viet_namese.Ingestion.Parsers.{ParseResult, parse_file}
use legal_viet_namese.Ingestion.Chunker.{Chunk, chunk_document}
use legal_viet_namese.Ingestion.Chunker.Numbering.{IsNumbered}
use legal_viet_namese.Ingestion.Indexer.{Collection, Owner, Point, index_chunks, delete_doc_vectors}
use legal_viet_namese.Ingestion.Indexer.Rows.{index_chunks-IsIndexed}
use legal_viet_namese.Ingestion.Indexer.Success.{Succeeds, index_chunks-Succeeds}
use legal_viet_namese.Worker.Process.{
  World, Services, Progress, note, Outcome, done, Snapshot, go_on, last_session, store_chunks, work,
  guarded, proceed, in_session, in_collection, call, publish,
}
use legal_viet_namese.Worker.Process.Steps.{Step, Won, Wins, Wins-bind, Any}
use legal_viet_namese.Worker.Process.FreshRows.{RowsFrom, Below, RowsFrom-free, rows-RowsFrom}

module _ {Vector : Type 0} (col : Collection Vector) (sv : Services Vector) (doc_id : Uuid)
    (heard : (p : Progress) → sv.publish p ≡ ok tt)
    (put : (key bytes : Text) → sv.put_object key bytes ≡ ok tt)
    (reached : (before after : Db) → sv.database before after ≡ ok tt)
    (embedded : (ts : List Text)
      → (vs : List Vector) × (sv.embed ts ≡ ok vs) × (length vs ≡ length ts))
    (deleted : (s : col.Store) → Succeeds (col.delete_doc doc_id s).0)
    (upserted : (ps : List (Point Vector)) (s : col.Store) → Succeeds (col.upsert ps s).0) where
  -- no chunk row of the document
  abbrev pub Clean : Db → Type 0
  Clean db = Below doc_id 0 db.document_chunks

  publish-Wins :
      (I : Db → Type 0) (status : Status) (n : Option ℕ) (e : Option Text)
      → Wins I I Any (publish col sv doc_id status n e)
  publish-Wins I status n e = record { at = λ w i. go _ (sv.publish _) w (heard _) i }
    where
      go :
          (p : Progress) (r : Result Exception (Unit {0})) (w : World col.Store)
          → r ≡ ok tt
          → I w.db
          → Won I Any (note col sv p r w)
      go p (ok sent) w h i = (i, tt)
      go p (err x) w h i = cc

  set_status-Wins :
      (status : Status) (c : Changes)
      → Wins Clean Clean Any (in_session col sv (set_status doc_id status c sv.now))
  unfolding session_scope set_status
  set_status-Wins status c = record { at = λ w i. rw (reached w.db _) (i, tt) }

  delete-Wins :
      Wins Clean Clean Any
        (in_collection col sv (delete_doc_vectors col sv.embed sv.draw sv.now doc_id))
  unfolding delete_doc_vectors
  delete-Wins = record { at = λ w i. go w (col.delete_doc doc_id w.vectors) (deleted w.vectors) i }
    where
      go :
          (w : World col.Store) (x : Result Exception (Unit {0}) × col.Store)
          → Succeeds x.0
          → Clean w.db
          → Won Clean Any (x.0, record w { vectors = x.1 })
      go w (ok u, s) h i = (i, tt)
      go w (err e, s) h i = absurd h

  module _ (owner : Owner) (own : owner.doc_id ≡ doc_id) (c : Chunk) (cs : List Chunk)
      (n : IsNumbered 0 (c ∷ cs)) where
    abbrev Right : List DocumentChunk → Type 0
    Right rows = RowsFrom doc_id 0 rows × (length rows ≡ length (c ∷ cs))

    index-Wins :
        Wins Clean Clean Right
          (in_collection col sv (index_chunks col sv.embed sv.draw sv.now (c ∷ cs) owner))
    index-Wins = record {
      at = λ w i.
          let v = embedded (map (λ x. x.text) (c ∷ cs)) in
          go w (index_chunks col sv.embed sv.draw sv.now (c ∷ cs) owner w.vectors) refl
            (index_chunks-Succeeds col sv.embed sv.draw sv.now upserted owner c cs w.vectors v.0 v.1
              (v.2 ∙ texts (c ∷ cs)))
            i;
    }
      where
        texts : (xs : List Chunk) → length (map (λ (x : Chunk). x.text) xs) ≡ length xs
        texts [] = refl
        texts (x ∷ xs) = ap suc (texts xs)

        go :
            (w : World col.Store) (x : Result Exception (List DocumentChunk) × col.Store)
            → index_chunks col sv.embed sv.draw sv.now (c ∷ cs) owner w.vectors ≡ x
            → Succeeds x.0
            → Clean w.db
            → Won Clean Right (x.0, record w { vectors = x.1 })
        go w (err e, s) h y i = absurd y
        go w (ok rows, s) h y i =
            let done_ : (index_chunks col sv.embed sv.draw sv.now (c ∷ cs) owner w.vectors).0
                ≡ ok rows =
              ap (λ z. z.0) h in
            let good =
              (index_chunks-IsIndexed col sv.embed sv.draw sv.now owner c cs w.vectors rows
                done_).good in
            let owners : map (λ (r : DocumentChunk). r.document_id) rows
                ≡ map (λ (x : Chunk). doc_id) (c ∷ cs) =
              good.documents ∙ ap (λ id. map (λ (x : Chunk). id) (c ∷ cs)) own in
            (i, rows-RowsFrom doc_id 0 (c ∷ cs) rows n good.indices owners)

    last-Wins :
        (rows : List DocumentChunk)
        → Right rows
        → Wins Clean Any Any (in_session col sv (last_session col sv doc_id rows))
    unfolding session_scope last_session bulk_insert_chunks set_status
    last-Wins rows right = record {
      at = λ w i.
          rw (RowsFrom-free doc_id 0 w.db.document_chunks rows i right.0, reached w.db _) (tt, tt);
    }

    abbrev IsDone : Outcome → Type 0
    IsDone o = o ≡ done (length (c ∷ cs))

    announced-Wins :
        (rows : List DocumentChunk)
        → Right rows
        → Wins Any Any IsDone
            (publish col sv doc_id indexed (some (length rows)) none >> pure (done (length rows)))
    announced-Wins rows right =
        Wins-bind Any Any Any Any IsDone (publish col sv doc_id indexed (some (length rows)) none)
          (λ u. pure (done (length rows))) (publish-Wins Any indexed (some (length rows)) none)
          (λ u x. record { at = λ w i. (tt, ap done right.1) })

    indexed-Wins : Wins Clean Any IsDone (do
      rows ← in_collection col sv (index_chunks col sv.embed sv.draw sv.now (c ∷ cs) owner)
      in_session col sv (last_session col sv doc_id rows)
      publish col sv doc_id indexed (some (length rows)) none
      pure (done (length rows)))
    indexed-Wins =
        Wins-bind Clean Clean Any Right IsDone
          (in_collection col sv (index_chunks col sv.embed sv.draw sv.now (c ∷ cs) owner))
          (λ rows. do
            in_session col sv (last_session col sv doc_id rows)
            publish col sv doc_id indexed (some (length rows)) none
            pure (done (length rows)))
          index-Wins
          (λ rows right.
            Wins-bind Clean Any Any Any IsDone (in_session col sv (last_session col sv doc_id rows))
              (λ u.
                publish col sv doc_id indexed (some (length rows)) none
                >> pure (done (length rows)))
              (last-Wins rows right) (λ u x. announced-Wins rows right))

    -- a step that leaves the rows alone, in front
    Clean-then :
        {A : Type 0} (m : Step col.Store A) (f : A → Step col.Store Outcome)
        → Wins Clean Clean Any m
        → ((a : A) → Wins Clean Any IsDone (f a))
        → Wins Clean Any IsDone (m >>= f)
    Clean-then m f h k = Wins-bind Clean Clean Any Any IsDone m f h (λ a x. k a)

    raised-Wins :
        Wins {Store = col.Store} Clean Clean Any (raise_if (is_empty (c ∷ cs)) value_error)
    raised-Wins = record { at = λ w i. (i, tt) }

    store-Wins : Wins Clean Any IsDone (store_chunks col sv doc_id owner (c ∷ cs))
    unfolding store_chunks
    store-Wins =
        search (Clean-then, raised-Wins, set_status-Wins, publish-Wins, delete-Wins, indexed-Wins)
          depth 30

    call-Wins :
        {A : Type 0} (r : Result Exception A) (a : A)
        → r ≡ ok a
        → Wins Clean Clean Any (call col sv r)
    call-Wins (ok x) a h = record { at = λ w i. (i, tt) }
    call-Wins (err e) a h = cc

    module _ (snap : Snapshot col sv) (mine : snap.owner ≡ owner) (bytes : Text)
        (parsed : ParseResult) (chunked : chunk_document sv.chunker parsed ≡ c ∷ cs)
        (download : sv.get_object_bytes snap.storage_key ≡ ok bytes)
        (read : parse_file sv.parsers bytes snap.mime_type snap.owner.doc_title ≡ ok parsed) where
      chunks-Wins :
          Wins Clean Any IsDone
            (store_chunks col sv doc_id snap.owner (chunk_document sv.chunker parsed))
      chunks-Wins =
          subst
            (λ o.
              Wins Clean Any IsDone
                (store_chunks col sv doc_id o (chunk_document sv.chunker parsed)))
            (sym mine)
            (subst (λ xs. Wins Clean Any IsDone (store_chunks col sv doc_id owner xs)) (sym chunked)
              store-Wins)

      put-Wins : (key b : Text) → Wins Clean Clean Any (call col sv (sv.put_object key b))
      put-Wins key b = call-Wins (sv.put_object key b) tt (put key b)

      parsed-Wins :
          (key b : Text) (changes : Changes)
          → Wins Clean Any IsDone (do
            call col sv (sv.put_object key b)
            in_session col sv (set_status doc_id chunking changes sv.now)
            publish col sv doc_id chunking none none
            store_chunks col sv doc_id snap.owner (chunk_document sv.chunker parsed))
      parsed-Wins key b changes =
          search (Clean-then, put-Wins, set_status-Wins, publish-Wins, chunks-Wins) depth 30

      work-Wins : Wins Clean Any IsDone (work col sv doc_id snap)
      unfolding work
      work-Wins = record { at = λ w i. rw (download, read) ((parsed-Wins _ _ _).at w i) }

      guarded-Won :
          (x : Result Exception Outcome × World col.Store)
          → Won Any IsDone x
          → Won Any IsDone (guarded col sv doc_id x)
      guarded-Won (ok o, w) h = h
      guarded-Won (err e, w) h = absurd h

      pub proceed-Wins : Wins Clean Any IsDone (proceed col sv doc_id (go_on snap))
      proceed-Wins =
          Clean-then (publish col sv doc_id parsing none none)
            (λ u w. guarded col sv doc_id (work col sv doc_id snap w))
            (publish-Wins Clean parsing none none)
            (λ u. record { at = λ w i. guarded-Won (work col sv doc_id snap w) (work-Wins.at w i) })
