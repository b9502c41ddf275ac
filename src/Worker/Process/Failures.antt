-- ===== src/Worker/Process/Failures.antt =====
-- The document's row when a job of src/worker/tasks/ingestion.py raises.
use legal_viet_namese.Base.{
  subst, ◌≡◌, refl, Option, none, some, take, ◌⊎◌, inl, inr, Result, ok, err, Bool-cases, ◌>>=◌,
  ◌>>◌,
}
use legal_viet_namese.Db.Models.{Db, Document, Status, parsing, failed, Uuid}
use legal_viet_namese.Db.Session.{Exception, session_scope}
use legal_viet_namese.Db.Documents.{
  Changes, document_at, with_status, set_status, get_internal, no_changes, is_indexed,
}
use legal_viet_namese.Ingestion.Indexer.{Collection}
use legal_viet_namese.Worker.Process.{
  World, Services, Progress, note, Outcome, Snapshot, go_on, begin, first_session, work,
  record_failure, guarded, proceed, process_document, in_session,
}
use legal_viet_namese.Worker.Process.Steps.{Interrupts, session-bind}
use legal_viet_namese.Worker.Process.Endings.{
  HasRow, IsLeft, set_status-found, set_status-HasRow, work-Keeps,
}

module _ {Vector : Type 0} (col : Collection Vector) (sv : Services Vector) (doc_id : Uuid) where
  abbrev Left : Status → Db → Type 0
  Left = IsLeft doc_id

  abbrev first_event : Progress
  first_event = record { doc_id = doc_id; status = parsing; n_chunks = none; error = none }

  -- what the exception `e` leaves: the row failed; or still parsing, where it is the first event's;
  -- or anything, where it is a cancellation or the database's
  abbrev pub Leaves : Exception → Db → Type 0
  Leaves e db =
      Left failed db ⊎ (((sv.publish first_event ≡ err e) × Left parsing db) ⊎ Interrupts sv e)

  abbrev Broken : Result Exception Outcome × World col.Store → Type 0
  Broken (ok outcome, w) = Unit {0}
  Broken (err e, w) = Leaves e w.db

  set_status-Left :
      (status : Status) (c : Changes) (db : Db)
      → HasRow doc_id db
      → Left status (session_scope (set_status doc_id status c sv.now) db).1
  set_status-Left status c db (d, h) = record {
    row = with_status status c sv.now d;
    found = set_status-found doc_id status c sv.now db d h;
    left = refl;
  }

  abbrev error_of : Exception → Changes
  error_of e = record no_changes { error = some (take 2000 (sv.text_of e)) }

  abbrev reraised : Exception → World col.Store → Result Exception Outcome × World col.Store
  reraised e w = (err e, w)

  announced :
      (q : Progress) (r : Result Exception (Unit {0})) (e : Exception) (w : World col.Store)
      → Left failed w.db
      → Broken ((note col sv q r >> reraised e) w)
  announced q (ok sent) e w l = inl l
  announced q (err e') e w l = inl l

  record_failure-Broken :
      (e : Exception) (w : World col.Store)
      → HasRow doc_id w.db
      → Broken (record_failure col sv doc_id e w)
  unfolding record_failure session_scope set_status
  record_failure-Broken e w h =
      session-bind col sv Broken (set_status doc_id failed (error_of e) sv.now) _ w
        (λ x k. inr (inr (inr (w.db, _, k))))
        (announced _ (sv.publish _) e
          (record w { db = (session_scope (set_status doc_id failed (error_of e) sv.now) w.db).1 })
          (set_status-Left failed (error_of e) w.db h))

  guarded-Broken :
      (x : Result Exception Outcome × World col.Store)
      → HasRow doc_id x.1.db
      → Broken (guarded col sv doc_id x)
  guarded-Broken (ok outcome, w) h = tt
  guarded-Broken (err e, w) h = elim (Bool-cases (sv.is_cancelled e)) [
    | inl stopped ↦ rw stopped (inr (inr (inl stopped)))
    | inr caught ↦ rw caught (record_failure-Broken e w h)
  ]

  proceed-Broken :
      (snap : Snapshot col sv) (w : World col.Store)
      → HasRow doc_id w.db
      → Left parsing w.db
      → Broken (proceed col sv doc_id (go_on snap) w)
  proceed-Broken snap w h l = go (sv.publish first_event) refl
    where
      go :
          (r : Result Exception (Unit {0}))
          → sv.publish first_event ≡ r
          → Broken (
              (note col sv first_event r
                  >> (λ w'. guarded col sv doc_id (work col sv doc_id snap w')))
                w)
      go (ok sent) e =
          guarded-Broken (work col sv doc_id snap _) ((work-Keeps col sv doc_id snap).at _ h)
      go (err e) told = inr (inl (told, l))

  begun-Broken :
      (o : Option Document) (w : World col.Store)
      → document_at doc_id w.db ≡ o
      → Broken ((in_session col sv (begin col sv doc_id o) >>= proceed col sv doc_id) w)
  unfolding session_scope set_status
  begun-Broken none w gone =
      session-bind col sv Broken (begin col sv doc_id none) _ w
        (λ e k. inr (inr (inr (w.db, _, k)))) tt
  begun-Broken (some d) w found =
      session-bind col sv Broken (begin col sv doc_id (some d)) _ w
        (λ e k. inr (inr (inr (w.db, _, k))))
        (elim (Bool-cases (is_indexed d.status)) [
          | inl over ↦ rw over tt
          | inr pending_ ↦ rw pending_ (
              proceed-Broken _ _
                (set_status-HasRow doc_id parsing no_changes sv.now w.db (d, found))
                (set_status-Left parsing no_changes w.db (d, found)))
        ])

  process_document-Broken : (w : World col.Store) → Broken (process_document col sv doc_id w)
  unfolding session_scope process_document first_session get_internal
  process_document-Broken w = begun-Broken (document_at doc_id w.db) w refl

  -- A job that raises leaves the document's row with the status `failed`; or the exception is that
  -- of the first event, outside the `try`, and leaves the row with `parsing`; or the exception is a
  -- cancellation, which is not caught, or one of the database.
  pub process_document-raised :
      (w : World col.Store) (e : Exception)
      → (process_document col sv doc_id w).0 ≡ err e
      → Leaves e (process_document col sv doc_id w).1.db
  process_document-raised w e h =
      go (process_document col sv doc_id w) h (process_document-Broken w)
    where
      go :
          (x : Result Exception Outcome × World col.Store)
          → x.0 ≡ err e
          → Broken x
          → Leaves e x.1.db
      go (ok outcome, w') h b = cc
      go (err e', w') h b = let same : e' ≡ e = cc in subst (λ x. Leaves x w'.db) same b
