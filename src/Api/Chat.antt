-- ===== src/Api/Chat.antt =====
-- The handler of src/api/routes/chat.py: the request, and the stream that follows it.
pub mod Consuming
pub mod Persistence
pub mod Prompting
use legal_viet_namese.Base.{
  ◌>>=◌, ◌>>◌, ℕ, List, [], ◌∷◌, ◌++◌, map, Option, none, some, Text, chars, Result, ok, err, Exec,
  pure, raise, gets,
}
use legal_viet_namese.Db.Models.{Conversation, Message, user, assistant, role_text, Uuid, Moment}
use legal_viet_namese.Db.Session.{Session, Action, Exception, http_exception, commit, session_scope}
use legal_viet_namese.Db.Conversations
use legal_viet_namese.Db.Conversations.{NewMessage, add_message, recent_messages}
use legal_viet_namese.Memory.ShortTerm.{Line, append_message, warmup_from_db}
use legal_viet_namese.Agent.State.{Citation, initial}
use legal_viet_namese.Agent.Nodes
use legal_viet_namese.Agent.Nodes.{AgentTools}
use legal_viet_namese.Agent.Stream.{
  AgentEvent, tool_call, citations, token, error, finished, Usage, run_agent_stream,
}

-- an event of the response; its data is the JSON of the fields
pub data Sse (S : Type 0) : Type 0 where
  sse_token : Text → Sse S
  sse_citations : List (Citation S) → Sse S
  sse_tool_call : Text → Sse S
  sse_error : Text → Sse S
  sse_done : Uuid → List (Citation S) → Option Usage → ℕ → Sse S

-- What the handler calls beside the agent. The buffer of the conversation in Redis may raise when it
-- is read, when it is warmed up, and when a line is appended, and is then left as it was; the
-- database may raise at the session of the answer; the pool of the job queue and the queue may raise.
-- `dump` is the JSON of the citations, `elapsed` the time of the stream and `rounded` its
-- rounding. The two rows draw `user_row` and `answer_row`.
pub record ChatServices (S : Type 0) : Type 0 where
  pub read_buffer : Result Exception (Unit {0})
  pub warm_buffer : Result Exception (Unit {0})
  pub push_buffer : Line → Result Exception (Unit {0})
  pub answer_session : Result Exception (Unit {0})
  pub arq_pool : Result Exception (Unit {0})
  pub enqueue_job : Uuid → Result Exception (Unit {0})
  pub dump : List (Citation S) → Text
  pub elapsed : ℕ
  pub rounded : ℕ → ℕ
  pub user_row : Uuid
  pub answer_row : Uuid
  pub now : Moment
  pub later : Moment

-- `full_answer`, `citations` and `usage`
pub record Collected (S : Type 0) : Type 0 where
  pub full_answer : Text
  pub cites : List (Citation S)
  pub usage : Option Usage

-- how the loop over the events ends
pub data Ending (S : Type 0) : Type 0 where
  stopped : Ending S
  complete : Collected S → Ending S

abbrev pub prompt_tokens : Option Usage → Option ℕ
prompt_tokens none = none
prompt_tokens (some u) = some u.prompt_tokens

abbrev pub completion_tokens : Option Usage → Option ℕ
completion_tokens none = none
completion_tokens (some u) = some u.completion_tokens

abbrev pub line_of : Message → Line
line_of m = record { role = role_text m.role; content = m.content }

-- the values of the user's message
abbrev pub question : Uuid → Text → NewMessage
question conv_id message = record {
  conversation_id = conv_id;
  role = user;
  content = message;
  meta = [];
  tokens_in = none;
  tokens_out = none;
  latency_ms = none;
}

module _ (a : AgentTools) (sv : ChatServices a.scores.Score) where
  abbrev pub S : Type 0
  S = a.scores.Score

  pub record World : Type 0 where
    pub session : Session
    pub facts : a.facts.Store
    pub points : a.qdrant.Store
    pub buffers : a.redis.Store
    pub cache : a.kv.Store
    pub enqueued : List Uuid

  abbrev pub Handler : Type 0 → Type 0
  Handler A = Exec World Exception A

  abbrev pub in_tables : {A : Type 0} → Action A → Handler A
  in_tables action w = let (r, s) = action w.session in (r, record w { session = s })

  -- a session of its own
  abbrev pub in_scope : {A : Type 0} → Action A → Handler A
  in_scope action w =
      let (r, db) = session_scope action w.session.stored in
      (r, record w { session = record w.session { stored = db } })

  abbrev pub call : {A : Type 0} → Result Exception A → Handler A
  call r w = (r, w)

  abbrev pub change_buffers : (a.redis.Store → a.redis.Store) → Handler (Unit {0})
  change_buffers f w = (ok tt, record w { buffers = f w.buffers })

  abbrev pub append : Uuid → Line → Handler (Unit {0})
  append conv_id m = do
    call (sv.push_buffer m)
    change_buffers (append_message a.redis a.json a.buffer_key a.settings conv_id m)

  abbrev pub agent_world : World → Nodes.World a
  agent_world w = record {
    db = w.session.stored;
    facts = w.facts;
    points = w.points;
    buffers = w.buffers;
    cache = w.cache;
  }

  -- `if not buf.messages`
  abbrev pub warm_up : Uuid → List Line → Handler (Unit {0})
  warm_up conv_id (m ∷ ms) = pure tt
  warm_up conv_id [] = do
    msgs ← in_tables (recent_messages conv_id 20)
    call sv.warm_buffer
    change_buffers
        (warmup_from_db a.redis a.json a.buffer_key a.settings conv_id (map line_of msgs))

  -- the request, up to the response: the summary of the conversation and the user's message
  abbrev pub accept : Uuid → Text → Option Conversation → Handler (Option Text × Message)
  accept conv_id message none = raise (http_exception 404 "conversation not found")
  accept conv_id message (some conv) = do
    user_msg ← in_tables (add_message (question conv_id message) sv.user_row sv.now)
    in_tables commit
    call sv.read_buffer
    buf ← gets (λ w. Nodes.history_of a conv_id (agent_world w))
    warm_up conv_id buf
    append conv_id (record { role = chars "user"; content = message })
    call sv.arq_pool
    pure (conv.summary, user_msg)

  abbrev pub yield_first : Sse S → List (Sse S) × Ending S → List (Sse S) × Ending S
  yield_first e (out, ending) = (e ∷ out, ending)

  -- the loop over the events of the agent; an exception of the agent is caught
  unfoldable pub consume :
      List (AgentEvent S) → Option Exception → Collected S → List (Sse S) × Ending S
  consume [] none got = ([], complete got)
  consume [] (some e) got = (sse_error (a.text_of e) ∷ [], stopped)
  consume (token t ∷ es) broken got =
      yield_first (sse_token t)
        (consume es broken (record got { full_answer = got.full_answer ++ t }))
  consume (citations cs ∷ es) broken got =
      yield_first (sse_citations cs) (consume es broken (record got { cites = cs }))
  consume (tool_call name ∷ es) broken got =
      yield_first (sse_tool_call name) (consume es broken got)
  consume (error message ∷ es) broken got = (sse_error message ∷ [], stopped)
  consume (finished answer cs usage ∷ es) broken got =
      consume es broken (record { full_answer = answer; cites = cs; usage = usage })

  -- the values of the assistant's message
  abbrev pub reply : Uuid → Collected S → NewMessage
  reply conv_id got = record {
    conversation_id = conv_id;
    role = assistant;
    content = got.full_answer;
    meta = (chars "citations", sv.dump got.cites) ∷ [];
    tokens_in = prompt_tokens got.usage;
    tokens_out = completion_tokens got.usage;
    latency_ms = some sv.elapsed;
  }

  -- an exception of the queue is logged and passed over
  abbrev pub enqueue : Uuid → Result Exception (Unit {0}) → Handler (Unit {0})
  enqueue conv_id (ok sent) w = (ok tt, record w { enqueued = w.enqueued ++ (conv_id ∷ []) })
  enqueue conv_id (err e) w = (ok tt, w)

  abbrev pub persist : Uuid → Message → Collected S → Handler (Sse S)
  persist conv_id user_msg got = do
    call sv.answer_session
    in_scope (add_message (reply conv_id got) sv.answer_row sv.later)
    append conv_id (record { role = chars "assistant"; content = got.full_answer })
    enqueue conv_id (sv.enqueue_job conv_id)
    pure (sse_done user_msg.id got.cites got.usage (sv.rounded sv.elapsed))

  -- the event behind the others; an exception is caught
  abbrev pub last_event : Result Exception (Sse S) × World → Sse S × World
  last_event (ok e, w) = (e, w)
  last_event (err e, w) = (sse_error (a.text_of e), w)

  abbrev pub finish : Uuid → Message → List (Sse S) × Ending S → World → List (Sse S) × World
  finish conv_id user_msg (out, stopped) w = (out, w)
  finish conv_id user_msg (out, complete got) w =
      let (e, w') = last_event (persist conv_id user_msg got w) in (out ++ (e ∷ []), w')

  -- what the agent has left in its stores
  abbrev pub with_agent : World → Nodes.World a → World
  with_agent w v = record w {
    facts = v.facts;
    points = v.points;
    buffers = v.buffers;
    cache = v.cache;
  }

  abbrev pub collected : Collected S
  collected = record { full_answer = []; cites = []; usage = none }

  -- the generator, run to its end
  unfoldable pub gen :
      Uuid → Text → Uuid × Uuid → Option Text × Message → World → List (Sse S) × World
  gen conv_id message (user_id, tenant_id) (summary, user_msg) w =
      let ((events, broken), v) =
        run_agent_stream a (initial message conv_id user_id tenant_id summary) (agent_world w) in
      finish conv_id user_msg (consume events broken collected) (with_agent w v)

  abbrev pub respond :
      Uuid
      → Text
      → Uuid × Uuid
      → Result Exception (Option Text × Message) × World
      → Result Exception (List (Sse S)) × World
  respond conv_id message current (err e, w) = (err e, w)
  respond conv_id message current (ok opened, w) =
      let (out, w') = gen conv_id message current opened w in (ok out, w')

  -- the whole response
  unfoldable pub chat_stream : Uuid → Text → Uuid × Uuid → Handler (List (Sse S))
  chat_stream conv_id message (user_id, tenant_id) w =
      respond conv_id message (user_id, tenant_id)
        ((do conv ← in_tables (Conversations.get conv_id user_id); accept conv_id message conv) w)
