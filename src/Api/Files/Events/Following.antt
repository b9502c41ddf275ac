-- ===== src/Api/Files/Events/Following.antt =====
-- When the stream of src/api/routes/files.py ends, and what it has shown.
use legal_viet_namese.Base.{
  ◌≡◌, refl, sym, ap, ◌∙◌, true, false, List, [], ◌∷◌, ◌++◌, Option, none, some, or_else, Text,
  chars, All, Bool-cases, inl, inr, Result, ok, err, find?, ◌&&◌, ◌==◌,
}
use legal_viet_namese.Db.Models.{Db, Document, Status, Uuid}
use legal_viet_namese.Db.Session.{Exception, http_exception}
use legal_viet_namese.Db.Documents
use legal_viet_namese.Api.Files.Events.{
  no_data, dict, no_dict, PubSubMessage, other_type, bad_payload, no_payload, payload, FileEvent,
  Standing, waiting, closed, crashed, is_last, dumped, listen, stream_of, file_events,
}

-- a message behind which the stream goes on
abbrev pub IsCalm : PubSubMessage → Type 0
IsCalm other_type = Unit {0}
IsCalm bad_payload = Unit {0}
IsCalm (no_payload e) = ⊥
IsCalm (payload event no_data) = Unit {0}
IsCalm (payload event (dict json status)) = is_last status ≡ false
IsCalm (payload event (no_dict json e)) = ⊥

-- a message that tells the end of the job
abbrev pub IsEnd : PubSubMessage → Type 0
IsEnd other_type = ⊥
IsEnd bad_payload = ⊥
IsEnd (no_payload e) = ⊥
IsEnd (payload event no_data) = ⊥
IsEnd (payload event (dict json status)) = is_last status ≡ true
IsEnd (payload event (no_dict json e)) = ⊥

-- a message that the handler cannot read
abbrev pub IsUnreadable : Exception → PubSubMessage → Type 0
IsUnreadable x other_type = ⊥
IsUnreadable x bad_payload = ⊥
IsUnreadable x (no_payload e) = e ≡ x
IsUnreadable x (payload event no_data) = ⊥
IsUnreadable x (payload event (dict json status)) = ⊥
IsUnreadable x (payload event (no_dict json e)) = e ≡ x

-- the events of some messages: one for each payload
abbrev pub events_of : List PubSubMessage → List FileEvent
events_of [] = []
events_of (other_type ∷ ms) = events_of ms
events_of (bad_payload ∷ ms) = events_of ms
events_of (no_payload e ∷ ms) = events_of ms
events_of (payload event d ∷ ms) =
    record { event = or_else event (chars "message"); «data» = dumped d } ∷ events_of ms

-- the messages up to the first one with the property, and their events
pub record IsCut (P : PubSubMessage → Type 0) (ms : List PubSubMessage) (out : List FileEvent)
    : Type 0 where
  pub before : List PubSubMessage
  pub end : PubSubMessage
  pub after : List PubSubMessage
  pub whole : ms ≡ before ++ (end ∷ after)
  pub calm : All IsCalm before
  pub its : P end
  pub shown : out ≡ events_of (before ++ (end ∷ []))

-- by where the stream stands
pub Followed : List PubSubMessage → List FileEvent × Standing → Type 0
Followed ms (out, waiting) = All IsCalm ms × (out ≡ events_of ms)
Followed ms (out, closed) = IsCut IsEnd ms out
Followed ms (out, crashed e) = IsCut (IsUnreadable e) ms out

-- a calm message in front, which adds these events
module _ (m : PubSubMessage) (calm : IsCalm m) (ms : List PubSubMessage) where
  IsCut-behind :
      (P : PubSubMessage → Type 0) (front out : List FileEvent)
      → ((ns : List PubSubMessage) → events_of (m ∷ ns) ≡ front ++ events_of ns)
      → IsCut P ms out
      → IsCut P (m ∷ ms) (front ++ out)
  IsCut-behind P front out k h = record {
    before = m ∷ h.before;
    end = h.end;
    after = h.after;
    whole = ap (λ xs. m ∷ xs) h.whole;
    calm = (calm, h.calm);
    its = h.its;
    shown = ap (λ xs. front ++ xs) h.shown ∙ sym (k (h.before ++ (h.end ∷ [])));
  }

  Followed-behind :
      (front : List FileEvent) (r : List FileEvent × Standing)
      → ((ns : List PubSubMessage) → events_of (m ∷ ns) ≡ front ++ events_of ns)
      → Followed ms r
      → Followed (m ∷ ms) (front ++ r.0, r.1)
  unfolding Followed
  Followed-behind front (out, waiting) k h = ((calm, h.0), ap (λ xs. front ++ xs) h.1 ∙ sym (k ms))
  Followed-behind front (out, closed) k h = IsCut-behind IsEnd front out k h
  Followed-behind front (out, crashed e) k h = IsCut-behind (IsUnreadable e) front out k h

listen-Followed : (ms : List PubSubMessage) → Followed ms (listen ms)
unfolding listen Followed
listen-Followed [] = (tt, refl)
listen-Followed (other_type ∷ ms) =
    Followed-behind other_type tt ms [] (listen ms) (λ ns. refl) (listen-Followed ms)
listen-Followed (bad_payload ∷ ms) =
    Followed-behind bad_payload tt ms [] (listen ms) (λ ns. refl) (listen-Followed ms)
listen-Followed (no_payload e ∷ ms) = record {
  before = [];
  end = no_payload e;
  after = ms;
  whole = refl;
  calm = tt;
  its = refl;
  shown = refl;
}
listen-Followed (payload event no_data ∷ ms) =
    Followed-behind (payload event no_data) tt ms (_ ∷ []) (listen ms) (λ ns. refl)
      (listen-Followed ms)
listen-Followed (payload event (no_dict json e) ∷ ms) = record {
  before = [];
  end = payload event (no_dict json e);
  after = ms;
  whole = refl;
  calm = tt;
  its = refl;
  shown = refl;
}
listen-Followed (payload event (dict json status) ∷ ms) = elim (Bool-cases (is_last status)) [
  | inl last ↦ rw last (record {
    before = [];
    end = payload event (dict json status);
    after = ms;
    whole = refl;
    calm = tt;
    its = last;
    shown = refl;
  })
  | inr more ↦ rw more (
      Followed-behind (payload event (dict json status)) more ms (_ ∷ []) (listen ms) (λ ns. refl)
        (listen-Followed ms))
]

-- a document of the user shows its status first
pub Watched :
    (Status → Text)
    → Option Document
    → List PubSubMessage
    → Result Exception (List FileEvent × Standing)
    → Type 0
Watched dump none ms r = r ≡ err (http_exception 404 "not found")
Watched dump (some d) ms r =
    (out : List FileEvent) × (standing : Standing) × Followed ms (out, standing)
    × (r ≡ ok (record { event = chars "status"; «data» = dump d.status } ∷ out, standing))

-- Without a document of the user the request raises 404. Otherwise the client gets the status of the
-- row and then, in order, one event for each payload of the channel, up to and with the first that
-- tells that the job is over, where the stream closes, or that cannot be read, where it breaks off.
-- The stream is open exactly as long as no such message has come.
pub file_events-Watched :
    (dump : Status → Text) (doc_id user_id : Uuid) (ms : List PubSubMessage) (db : Db)
    → Watched dump
        (find? (λ d. (d.id == doc_id) && (d.user_id == user_id)) db.documents)
        ms
        (file_events dump doc_id user_id ms db)
unfolding file_events Documents.get Watched
file_events-Watched dump doc_id user_id ms db =
    go (find? (λ d. (d.id == doc_id) && (d.user_id == user_id)) db.documents)
  where
    go : (o : Option Document) → Watched dump o ms (stream_of dump o ms)
    go none = refl
    go (some d) = ((listen ms).0, (listen ms).1, listen-Followed ms, refl)
