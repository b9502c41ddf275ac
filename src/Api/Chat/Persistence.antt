-- ===== src/Api/Chat/Persistence.antt =====
-- What a response of src/api/routes/chat.py stores, beside what it shows.
use legal_viet_namese.Base.{
  ◌>>=◌, ◌≡◌, ◌⊎◌, List, [], ◌∷◌, ◌++◌, Option, none, some, Text, chars, join, Result, ok, err,
}
use legal_viet_namese.Db.Models.{Db, Conversation, Message, Uuid}
use legal_viet_namese.Db.Session.{Exception, http_exception}
use legal_viet_namese.Db.Conversations
use legal_viet_namese.Db.Conversations.{message_of, counted}
use legal_viet_namese.Memory.ShortTerm.{Line}
use legal_viet_namese.Agent.State.{Citation}
use legal_viet_namese.Agent.Nodes
use legal_viet_namese.Agent.Nodes.{AgentTools}
use legal_viet_namese.Agent.Stream.{AgentEvent, tool_call, citations, Run}
use legal_viet_namese.Api.Chat.{
  Sse, sse_citations, sse_tool_call, sse_error, sse_done, ChatServices, Collected, World, question,
  reply, last_event, consume, finish, with_agent, collected,
}
use legal_viet_namese.Api.Chat.Consuming.{spoken}

module _ (a : AgentTools) (sv : ChatServices a.scores.Score) (conv_id : Uuid) (message : Text)
    (user_id tenant_id : Uuid) where
  abbrev S : Type 0
  S = a.scores.Score

  abbrev user_message : Message
  user_message = message_of (question conv_id message) sv.user_row sv.now

  -- the messages stored once the question is committed
  abbrev pub asked : Db → List Message
  asked db = db.messages ++ (user_message ∷ [])

  -- A response that ends in `done`: the answer is what the tokens showed, and its row stands behind
  -- the question.
  pub record IsAnswered (db db' : Db) (out : List (Sse S)) : Type 0 where
    pub got : Collected S
    pub shown : List (Sse S)
    pub shape :
        out ≡ shown ++ (sse_done sv.user_row got.cites got.usage (sv.rounded sv.elapsed) ∷ [])
    pub said : got.full_answer ≡ join [] (spoken shown)
    pub stored :
        db'.messages ≡ asked db ++ (message_of (reply a sv conv_id got) sv.answer_row sv.later ∷ [])

  -- A response that ends in an error: the question stands alone.
  pub record IsBroken (db db' : Db) (out : List (Sse S)) : Type 0 where
    pub shown : List (Sse S)
    pub message_ : Text
    pub shape : out ≡ shown ++ (sse_error message_ ∷ [])
    pub stored : db'.messages ≡ asked db

  abbrev answer_line : Collected S → Line
  answer_line got = record { role = chars "assistant"; content = got.full_answer }

  -- A response that ends in an error although the answer is stored: the buffer has refused the answer.
  pub record IsUnbuffered (db db' : Db) (out : List (Sse S)) : Type 0 where
    pub got : Collected S
    pub shown : List (Sse S)
    pub raised : Exception
    pub refused : sv.push_buffer (answer_line got) ≡ err raised
    pub shape : out ≡ shown ++ (sse_error (a.text_of raised) ∷ [])
    pub said : got.full_answer ≡ join [] (spoken shown)
    pub stored :
        db'.messages ≡ asked db ++ (message_of (reply a sv conv_id got) sv.answer_row sv.later ∷ [])

  abbrev Ended : Db → List (Sse S) × World a sv → Type 0
  Ended db (out, w') =
      IsAnswered db w'.session.stored out
      ⊎ (IsBroken db w'.session.stored out ⊎ IsUnbuffered db w'.session.stored out)

  abbrev ending : List (Sse S) → Result Exception (Sse S) × World a sv → List (Sse S) × World a sv
  ending out y = let (e, w') = last_event a sv y in (out ++ (e ∷ []), w')

  abbrev done_event : Collected S → Sse S
  done_event got = sse_done sv.user_row got.cites got.usage (sv.rounded sv.elapsed)

  -- The response ends one way or the other; the request may raise behind the commit of the question.
  pub Accepted : Db → Result Exception (List (Sse S)) × World a sv → Type 0
  Accepted db (ok out, w') = Ended db (out, w')
  Accepted db (err e, w') = w'.session.stored.messages ≡ asked db

  -- by the user's conversation, and the request is refused without one
  pub Chatted :
      Option Conversation → World a sv → Result Exception (List (Sse S)) × World a sv → Type 0
  Chatted none w y = y ≡ (err (http_exception 404 "conversation not found"), w)
  Chatted (some c) w y = Accepted w.session.work y

  module _ (db : Db) (state : Nodes.State a) (w : World a sv)
      (kept : w.session.stored.messages ≡ asked db) where
    -- the response to a run of the agent
    abbrev response : Run a → List (Sse S) × World a sv
    response ((events, broken), v) =
        finish a sv conv_id user_message (consume a sv events broken (collected a sv))
          (with_agent a sv w v)

    abbrev front : List (Citation S) → List (Sse S) → List (Sse S)
    front cs out =
        sse_tool_call (chars "load_memory")
        ∷ sse_tool_call (chars "retrieve_docs")
        ∷ sse_citations cs
        ∷ out

    abbrev all_of : List (Citation S) → List (AgentEvent S) → List (AgentEvent S)
    all_of cs rest =
        tool_call (chars "load_memory") ∷ tool_call (chars "retrieve_docs") ∷ citations cs ∷ rest
