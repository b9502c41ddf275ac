-- ===== src/Worker/Process/Body.antt =====
-- The job of src/worker/tasks/ingestion.py, put together from the parts that depend on a property:
-- what the sessions keep, and how the part behind the parsing ends.
use legal_viet_namese.Base.{Result, ok, err, List, Bool-cases, inl, inr}
use legal_viet_namese.Db.Models.{Db, DocumentChunk, Status, failed, Uuid}
use legal_viet_namese.Db.Session.{Exception}
use legal_viet_namese.Db.Documents.{Changes, set_status}
use legal_viet_namese.Ingestion.Parsers.{ParseResult}
use legal_viet_namese.Ingestion.Chunker.{chunk_document}
use legal_viet_namese.Ingestion.Indexer.{Collection}
use legal_viet_namese.Worker.Process.{
  World, Services, Outcome, Snapshot, go_on, last_session, store_chunks, work, record_failure,
  guarded, proceed, in_session,
}
use legal_viet_namese.Worker.Process.Steps.{
  Keeps, After, Ends, bind-Keeps, bind-Ends, pure-Keeps, raise_if-Keeps, call-Keeps,
  in_collection-Keeps, publish-Keeps,
}

pub ruleset job_rules = (
  bind-Keeps, bind-Ends, pure-Keeps, raise_if-Keeps, call-Keeps, in_collection-Keeps, publish-Keeps,
)

module _ {Vector : Type 0} (col : Collection Vector) (sv : Services Vector) (doc_id : Uuid)
    (I : Db → Type 0)
    (session-Keeps : (status : Status) (c : Changes)
      → Keeps I (in_session col sv (set_status doc_id status c sv.now)))
    (last-Keeps : (rows : List DocumentChunk)
      → Keeps I (in_session col sv (last_session col sv doc_id rows))) where
  pub work-Keeps : (snap : Snapshot col sv) → Keeps I (work col sv doc_id snap)
  unfolding work store_chunks
  work-Keeps snap = search (job_rules, session-Keeps, last-Keeps) depth 30

  module _ (P : Outcome → Db → Type 0) (snap : Snapshot col sv)
      (stored : (parsed : ParseResult)
        → Ends I P (store_chunks col sv doc_id snap.owner (chunk_document sv.chunker parsed))) where
    work-Ends : Ends I P (work col sv doc_id snap)
    unfolding work
    work-Ends = search (job_rules, session-Keeps, stored) depth 30

    record_failure-Ends : (e : Exception) → Ends I P (record_failure col sv doc_id e)
    unfolding record_failure
    record_failure-Ends e =
        bind-Ends I P _ _ (session-Keeps failed _)
          (λ u. bind-Ends I P _ _ (publish-Keeps col sv I _ _ _ _) (λ v. record { at = λ w i. tt }))

    guarded-Ends :
        (x : Result Exception Outcome × World col.Store)
        → I x.1.db
        → After I P x
        → After I P (guarded col sv doc_id x)
    guarded-Ends (ok outcome, w) h p = p
    guarded-Ends (err e, w) h p = elim (Bool-cases (sv.is_cancelled e)) [
      | inl stopped ↦ rw stopped tt
      | inr caught ↦ rw caught ((record_failure-Ends e).at w h)
    ]

    pub proceed-Ends : Ends I P (proceed col sv doc_id (go_on snap))
    proceed-Ends = bind-Ends I P _ _ (publish-Keeps col sv I _ _ _ _) (λ u. record {
      at = λ w i.
          guarded-Ends (work col sv doc_id snap w) ((work-Keeps snap).at w i) (work-Ends.at w i);
    })
