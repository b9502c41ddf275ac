-- ===== src/Api/Files/Events.antt =====
-- `file_events` of src/api/routes/files.py: what the client gets while the messages of the channel
-- come in. The JSON of a value is its text.
pub mod Following
use legal_viet_namese.Base.{
  Bool, false, ◌||◌, List, [], ◌∷◌, Option, none, some, or_else, Text, chars, text_eq, Result, ok,
  err, if◌then◌else◌,
}
use legal_viet_namese.Db.Models.{
  Db, Document, Status, pending, parsing, chunking, embedding, indexed, failed, Uuid,
}
use legal_viet_namese.Db.Session.{Exception, http_exception}
use legal_viet_namese.Db.Documents

abbrev pub status_text : Status → Text
status_text pending = chars "pending"
status_text parsing = chars "parsing"
status_text chunking = chars "chunking"
status_text embedding = chars "embedding"
status_text indexed = chars "indexed"
status_text failed = chars "failed"

-- `payload.get("data", {})`: its JSON, with the text under "status" if there is one; or a value that
-- has no `get`, and the exception of it
pub data Data : Type 0 where
  no_data : Data
  dict : Text → Option Text → Data
  no_dict : Text → Exception → Data

-- a message of the channel: one that is not of the type "message", one that is no JSON, a JSON value
-- that has no `get`, or a payload with the text under "event" and the data
pub data PubSubMessage : Type 0 where
  other_type : PubSubMessage
  bad_payload : PubSubMessage
  no_payload : Exception → PubSubMessage
  payload : Option Text → Data → PubSubMessage

pub record FileEvent : Type 0 where
  pub event : Text
  pub «data» : Text

abbrev pub dumped : Data → Text
dumped no_data = chars "{}"
dumped (dict json status) = json
dumped (no_dict json e) = json

-- `status in ("indexed", "failed")`
abbrev pub is_last : Option Text → Bool
is_last none = false
is_last (some s) = text_eq s (chars "indexed") || text_eq s (chars "failed")

-- where the stream stands: it waits for the channel, it has ended, or an exception has ended it
pub data Standing : Type 0 where
  waiting : Standing
  closed : Standing
  crashed : Exception → Standing

abbrev pub yield_first : FileEvent → List FileEvent × Standing → List FileEvent × Standing
yield_first f (out, standing) = (f ∷ out, standing)

-- behind the event of a payload
abbrev pub after_data : Data → List FileEvent × Standing → List FileEvent × Standing
after_data no_data rest = rest
after_data (dict json status) rest = if is_last status then ([], closed) else rest
after_data (no_dict json e) rest = ([], crashed e)

-- the loop over the messages that have come in
unfoldable pub listen : List PubSubMessage → List FileEvent × Standing
listen [] = ([], waiting)
listen (other_type ∷ ms) = listen ms
listen (bad_payload ∷ ms) = listen ms
listen (no_payload e ∷ ms) = ([], crashed e)
listen (payload event data_ ∷ ms) =
    yield_first (record { event = or_else event (chars "message"); «data» = dumped data_ })
      (after_data data_ (listen ms))

abbrev pub stream_of :
    (Status → Text)
    → Option Document
    → List PubSubMessage
    → Result Exception (List FileEvent × Standing)
stream_of dump none ms = err (http_exception 404 "not found")
stream_of dump (some d) ms =
    ok (yield_first (record { event = chars "status"; «data» = dump d.status }) (listen ms))

abbrev pub streamed :
    {S : Type 0}
    → (Status → Text)
    → List PubSubMessage
    → Result Exception (Option Document) × S
    → Result Exception (List FileEvent × Standing)
streamed dump ms (ok d, s) = stream_of dump d ms
streamed dump ms (err e, s) = err e

-- `dump` is the JSON of `{"status": d.status}`.
unfoldable pub file_events :
    (Status → Text)
    → Uuid
    → Uuid
    → List PubSubMessage
    → Db
    → Result Exception (List FileEvent × Standing)
file_events dump doc_id user_id ms db =
    streamed dump ms (Documents.get doc_id user_id (record { stored = db; work = db }))
