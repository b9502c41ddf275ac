-- ===== src/Worker/Process/Announcing/Closing.antt =====
-- What a job of src/worker/tasks/ingestion.py publishes, and when the stream of
-- src/api/routes/files.py that follows it closes.
use legal_viet_namese.Base.{
  take, ◌≡◌, refl, sym, ap, subst, ◌∙◌, false, [], ◌∷◌, ◌++◌, map, Option, none, some, Text, Result,
  ok, err, ◌>>=◌, ◌>>◌, pure, continue, ℕ, Bool-cases, inl, inr, ◌⊎◌,
}
use legal_viet_namese.Db.Models.{
  Db, Document, Status, parsing, chunking, embedding, indexed, failed, Uuid,
}
use legal_viet_namese.Db.Session.{Action, Exception, session_scope}
use legal_viet_namese.Db.Documents.{
  Changes, no_changes, document_at, set_status, get_internal, is_indexed,
}
use legal_viet_namese.Ingestion.Indexer.{Collection}
use legal_viet_namese.Worker.Process.{
  World, Services, Progress, note, Outcome, done, missing, already_indexed, Snapshot, snapshot_of,
  go_on, begin, first_session, store_chunks, work, record_failure, guarded, proceed,
  process_document, in_session, settle, in_collection, call, publish,
}
use legal_viet_namese.Worker.Process.Steps.{Interrupts, session-bind}
use legal_viet_namese.Api.Files.Events.{closed, waiting, is_last, status_text, listen}
use legal_viet_namese.Worker.Process.Announcing.{
  message_of, event_of, listen-closed, listen-open, Murmurs, Ends, Murmurs-none, Murmurs-trans,
  Ends-behind, Quiet, Told, Loud, Told-behind, Loud-bind, raise_if-Quiet,
}

module _ {Vector : Type 0} (col : Collection Vector) (sv : Services Vector) (doc_id : Uuid)
    (heard : (p : Progress) → sv.publish p ≡ ok tt) where
  call-Quiet : {A : Type 0} (r : Result Exception A) → Quiet (call col sv r)
  call-Quiet r = record { at = λ w. Murmurs-none w w refl }

  in_session-Quiet : {A : Type 0} (m : Action A) → Quiet (in_session col sv m)
  in_session-Quiet m = record {
    at = λ w. go (sv.database w.db (session_scope m w.db).1) (session_scope m w.db) w;
  }
    where
      go :
          {A : Type 0} (r : Result Exception (Unit {0})) (x : Result Exception A × Db)
          (w : World col.Store)
          → Murmurs w (settle col sv r x w).1
      go (ok u) x w = Murmurs-none w _ refl
      go (err e) x w = Murmurs-none w w refl

  in_collection-Quiet :
      {A : Type 0} (m : col.Store → Result Exception A × col.Store) → Quiet (in_collection col sv m)
  in_collection-Quiet m = record { at = λ w. Murmurs-none w (in_collection col sv m w).1 refl }

  abbrev progress : Status → Option ℕ → Option Text → Progress
  progress status n e = record { doc_id = doc_id; status = status; n_chunks = n; error = e }

  -- an event is added, and the step succeeds
  publish-adds :
      (status : Status) (n : Option ℕ) (e : Option Text) (w : World col.Store)
      → ◌≡◌ {A = Result Exception (Unit {0}) × World col.Store}
          (publish col sv doc_id status n e w)
          (ok tt, record w { published = w.published ++ (progress status n e ∷ []) })
  publish-adds status n e w = ap (λ r. note col sv (progress status n e) r w) (heard _)

  publish-Quiet :
      (status : Status) (n : Option ℕ) (e : Option Text)
      → is_last (some (status_text status)) ≡ false
      → Quiet (publish col sv doc_id status n e)
  publish-Quiet status n e calm = record {
    at = λ w. record {
      told = progress status n e ∷ [];
      calm = (calm, tt);
      same = ap (λ y. y.1.published) (publish-adds status n e w);
    };
  }

  chunking-Quiet : Quiet (publish col sv doc_id chunking none none)
  chunking-Quiet = publish-Quiet chunking none none refl

  embedding-Quiet : (n : Option ℕ) → Quiet (publish col sv doc_id embedding n none)
  embedding-Quiet n = publish-Quiet embedding n none refl

  indexed-Loud :
      (n : Option ℕ) (k : ℕ) → Loud (publish col sv doc_id indexed n none >> pure (done k))
  indexed-Loud n k = record {
    at = λ w.
        subst (Told w)
          (sym (ap (λ y. continue y.0 (λ u. pure (done k)) y.1) (publish-adds indexed n none w)))
          (record { told = []; calm = tt; end = progress indexed n none; its = refl; same = refl });
  }

  work-Loud : (snap : Snapshot col sv) → Loud (work col sv doc_id snap)
  unfolding work store_chunks
  work-Loud snap =
      search
        (
          Loud-bind, raise_if-Quiet, call-Quiet, in_session-Quiet, in_collection-Quiet,
          chunking-Quiet, embedding-Quiet, indexed-Loud,
        )
        depth 40

  -- The end is told, or the job raises without: it is cancelled, or a session has raised.
  abbrev Final : World col.Store → Result Exception Outcome × World col.Store → Type 0
  Final w (ok o, w') = Ends w w'
  Final w (err e, w') = Ends w w' ⊎ (Murmurs w w' × Interrupts sv e)

  Final-behind :
      (w v : World col.Store) (y : Result Exception Outcome × World col.Store)
      → Murmurs w v
      → Final v y
      → Final w y
  Final-behind w v (ok o, u) h k = Ends-behind w v u h k
  Final-behind w v (err e, u) h (inl k) = inl (Ends-behind w v u h k)
  Final-behind w v (err e, u) h (inr k) = inr (Murmurs-trans w v u h k.0, k.1)

  failed-Ends :
      (n : Option ℕ) (text : Option Text) (e : Exception) (w v : World col.Store)
      → v.published ≡ w.published
      → Final w (
          (publish col sv doc_id failed n text
              >> (λ u. (let r : Result Exception Outcome = err e in r, u)))
            v)
  failed-Ends n text e w v same =
      subst
        (λ (y : Result Exception (Unit {0}) × World col.Store).
          Final w (continue {B = Outcome} y.0 (λ u x. (err e, x)) y.1))
        (sym (publish-adds failed n text v))
        (inl (record {
          told = [];
          calm = tt;
          end = progress failed n text;
          its = refl;
          same = ap (λ ps. ps ++ (progress failed n text ∷ [])) same;
        }))

  record_failure-Final :
      (e : Exception) (w : World col.Store) → Final w (record_failure col sv doc_id e w)
  unfolding record_failure session_scope set_status
  record_failure-Final e w =
      let c : Changes = record no_changes { error = some (take 2000 (sv.text_of e)) } in
      let text : Option Text = some (take 500 (sv.text_of e)) in
      session-bind col sv (Final w) (set_status doc_id failed c sv.now)
        (λ u. publish col sv doc_id failed none text >> (λ v. (err e, v))) w
        (λ x k. inr (Murmurs-none w w refl, inr (w.db, _, k)))
        (failed-Ends none text e w
          (record w { db = (session_scope (set_status doc_id failed c sv.now) w.db).1 }) refl)

  guarded-Final :
      (w : World col.Store) (y : Result Exception Outcome × World col.Store)
      → Told w y
      → Final w (guarded col sv doc_id y)
  guarded-Final w (ok o, v) h = h
  guarded-Final w (err e, v) h = elim (Bool-cases (sv.is_cancelled e)) [
    | inl stopped ↦ rw stopped (inr (h, inl stopped))
    | inr caught ↦ rw caught (Final-behind w v _ h (record_failure-Final e v))
  ]

  proceed-Final :
      (snap : Snapshot col sv) (w : World col.Store)
      → Final w (proceed col sv doc_id (go_on snap) w)
  proceed-Final snap w =
      let v : World col.Store = record w {
        published = w.published ++ (progress parsing none none ∷ []);
      } in
      let h : Murmurs w v = record {
        told = progress parsing none none ∷ [];
        calm = (refl, tt);
        same = refl;
      } in
      subst
        (λ (y : Result Exception (Unit {0}) × World col.Store).
          Final w (continue y.0 (λ u x. guarded col sv doc_id (work col sv doc_id snap x)) y.1))
        (sym (publish-adds parsing none none w))
        (guarded-Final w (work col sv doc_id snap v)
          (Told-behind w v (work col sv doc_id snap v) h ((work-Loud snap).at v)))

  -- How a job ends for a client that has listened from its start: the job declined and told nothing;
  -- or the client has got an event for everything it told, and the stream is closed; or the client
  -- has got them, the stream is open, and the job has raised for a reason that it cannot tell.
  pub data Follows (json : Progress → Text) (y : Result Exception Outcome × World col.Store)
      : Type 0 where
    declined :
        (o : Outcome)
        → (o ≡ missing) ⊎ (o ≡ already_indexed)
        → y.0 ≡ ok o
        → y.1.published ≡ []
        → Follows json y
    shown :
        listen (map (message_of json) y.1.published) ≡ (map (event_of json) y.1.published, closed)
        → Follows json y
    left_open :
        (e : Exception)
        → y.0 ≡ err e
        → Interrupts sv e
        → listen (map (message_of json) y.1.published)
          ≡ (map (event_of json) y.1.published, waiting)
        → Follows json y

  Ends-shown :
      (json : Progress → Text) (w : World col.Store)
      (y : Result Exception Outcome × World col.Store)
      → w.published ≡ []
      → Ends w y.1
      → Follows json y
  Ends-shown json w y none_ h =
      let all_ : y.1.published ≡ h.told ++ (h.end ∷ []) =
        h.same ∙ ap (λ ps. ps ++ (h.told ++ (h.end ∷ []))) none_ in
      shown (
        subst (λ ps. listen (map (message_of json) ps) ≡ (map (event_of json) ps, closed))
          (sym all_) (listen-closed json h.told h.end h.calm h.its))

  Final-Follows :
      (json : Progress → Text) (w : World col.Store)
      (y : Result Exception Outcome × World col.Store)
      → w.published ≡ []
      → Final w y
      → Follows json y
  Final-Follows json w (ok o, v) none_ h = Ends-shown json w (ok o, v) none_ h
  Final-Follows json w (err e, v) none_ (inl h) = Ends-shown json w (err e, v) none_ h
  Final-Follows json w (err e, v) none_ (inr (h, why)) = left_open e refl why (
      subst (λ ps. listen (map (message_of json) ps) ≡ (map (event_of json) ps, waiting))
        (sym (h.same ∙ ap (λ ps. ps ++ h.told) none_)) (listen-open json h.told h.calm))

  unreached :
      (json : Progress → Text) (w : World col.Store) (e : Exception) (after : Db)
      → w.published ≡ []
      → sv.database w.db after ≡ err e
      → Follows json (let r : Result Exception Outcome = err e in r, w)
  unreached json w e after none_ k =
      Final-Follows json w (err e, w) none_ (inr (Murmurs-none w w refl, inr (w.db, after, k)))

  begun-Follows :
      (json : Progress → Text) (o : Option Document) (w : World col.Store)
      → w.published ≡ []
      → Follows json ((in_session col sv (begin col sv doc_id o) >>= proceed col sv doc_id) w)
  unfolding session_scope set_status
  begun-Follows json none w n =
      session-bind col sv (Follows json) (begin col sv doc_id none) _ w
        (λ e k. unreached json w e _ n k) (declined missing (inl refl) refl n)
  begun-Follows json (some d) w n =
      session-bind col sv (Follows json) (begin col sv doc_id (some d)) _ w
        (λ e k. unreached json w e _ n k)
        (elim (Bool-cases (is_indexed d.status)) [
          | inl over ↦ rw over (declined already_indexed (inr refl) refl n)
          | inr open_ ↦ rw open_ (Final-Follows json _ _ n (proceed-Final (snapshot_of col sv d) _))
        ])

  -- If the channel takes every event, then of a job that has told nothing before one of these holds:
  -- it returns that the document is missing, or indexed already, and tells nothing; or a client that
  -- has listened from its start has got an event for everything the job told, and the stream is
  -- closed; or the client has got them, the stream is still open, and the job has raised a
  -- cancellation or an exception of the database.
  pub process_document-Follows :
      (json : Progress → Text) (w : World col.Store)
      → w.published ≡ []
      → Follows json (process_document col sv doc_id w)
  unfolding session_scope process_document first_session get_internal
  process_document-Follows json w e = begun-Follows json (document_at doc_id w.db) w e
