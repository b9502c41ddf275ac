-- ===== src/Agent/Nodes.antt =====
-- The nodes of src/agent/nodes, and the graph of src/agent/graph.py that runs them in order.
use legal_viet_namese.Base.{
  ℕ, true, List, [], ◌∷◌, map, Option, none, some, Text, Result, ok, err, Exec, ◌>>=◌, pure,
}
use legal_viet_namese.Core.Redis.{KeyValues, Codec}
use legal_viet_namese.Db.Models.{Db, Uuid}
use legal_viet_namese.Db.Session.{Exception}
use legal_viet_namese.Memory.ShortTerm.{RedisLists, Line, BufferSettings, get_buffer}
use legal_viet_namese.Memory.LongTerm
use legal_viet_namese.Memory.LongTerm.{FactCollection, the_one, retrieve_user_facts}
use legal_viet_namese.Retrieval.Scores.{Scores}
use legal_viet_namese.Retrieval.Search.{Qdrant}
use legal_viet_namese.Retrieval.Rerank.{Backends}
use legal_viet_namese.Retrieval.Pipeline.{Rewriter, RetrievedChunk, retrieve_and_rerank}
use legal_viet_namese.Agent.State.{AgentState, Citation, RetrievedDoc}
use legal_viet_namese.Agent.Prompts.{PromptTexts, build_answer_messages}

-- A chunk of the model's stream: the content of the first choice's delta, if the chunk has choices
-- and the delta a content, and the usage, if it has one.
pub record StreamChunk : Type 0 where
  pub content : Option Text
  pub usage : Option (Option ℕ × Option ℕ × Option ℕ)

-- What the agent calls. `complete` is the call without the cache; `complete_stream` gives the chunks
-- and, if the stream breaks, the exception behind them.
pub record AgentTools : Type 1 where
  pub scores : Scores
  pub Vector : Type 0
  pub kv : KeyValues
  pub rewriter : Rewriter Exception
  pub backends : Backends scores.Score Exception kv
  pub qdrant : Qdrant scores.Score Vector
  pub facts : FactCollection scores.Score Vector
  pub embed : List Text → Result Exception (List Vector)
  pub redis : RedisLists
  pub json : Codec Line
  pub buffer_key : Uuid → Text
  pub settings : BufferSettings
  pub texts : PromptTexts
  pub complete : List Line → Result Exception (Option Text)
  pub complete_stream : List Line → List StreamChunk × Option Exception
  pub text_of : Exception → Text

module _ (a : AgentTools) where
  open a use {scores}

  -- what a run of the agent reads and writes
  pub record World : Type 0 where
    pub db : Db
    pub facts : a.facts.Store
    pub points : a.qdrant.Store
    pub buffers : a.redis.Store
    pub cache : a.kv.Store

  abbrev pub State : Type 0
  State = AgentState scores.Score

  abbrev pub Node : Type 0
  Node = State → Exec World Exception State

  -- the embedding of one query
  abbrev pub one_vector : Result Exception (List a.Vector) → Result Exception a.Vector
  one_vector (ok vs) = the_one vs
  one_vector (err e) = err e

  abbrev pub embed_one : Text → Result Exception a.Vector
  embed_one query = one_vector (a.embed (query ∷ []))

  abbrev pub history_of : Uuid → World → List Line
  history_of conv_id w = get_buffer a.redis a.json a.buffer_key a.settings conv_id w.buffers

  abbrev pub in_memory :
      {A : Type 0} → Exec (LongTerm.World a.facts.Store) Exception A → Exec World Exception A
  in_memory action w =
      let (r, m) = action (record { db = w.db; facts = w.facts }) in
      (r, record w { db = m.db; facts = m.facts })

  unfoldable pub load_memory_node : Node
  load_memory_node state w =
      (do
        facts ←
            in_memory
              (retrieve_user_facts scores a.facts a.embed state.user_id state.user_message 5)
        pure (record state {
          short_term_history = history_of state.conversation_id w;
          long_term_facts = facts;
        }))
        w

  abbrev pub in_cache : {A : Type 0} → Exec a.kv.Store Exception A → Exec World Exception A
  in_cache action w = let (r, s) = action w.cache in (r, record w { cache = s })

  abbrev pub doc_of : RetrievedChunk scores.Score → RetrievedDoc scores.Score
  doc_of c = record {
    doc_id = c.doc_id;
    chunk_id = c.chunk_id;
    doc_title = c.doc_title;
    heading_path = c.heading_path;
    page_from = c.page_from;
    page_to = c.page_to;
    text = c.text;
    score = c.score;
  }

  abbrev pub citation_of : RetrievedChunk scores.Score → Citation scores.Score
  citation_of c = record {
    doc_id = c.doc_id;
    chunk_id = c.chunk_id;
    doc_title = c.doc_title;
    heading_path = c.heading_path;
    page_from = c.page_from;
    page_to = c.page_to;
    score = c.score;
  }

  abbrev pub with_docs : State → List (RetrievedChunk scores.Score) → State
  with_docs state chunks = record state {
    retrieved = map doc_of chunks;
    citations = map citation_of chunks;
  }

  unfoldable pub retrieve_docs_node : Node
  retrieve_docs_node state w =
      (do
        chunks ← in_cache (
            retrieve_and_rerank scores a.kv a.rewriter a.backends a.qdrant embed_one w.points
              state.user_message state.tenant_id (some state.user_id) none 20 5 true)
        pure (with_docs state chunks))
        w

  abbrev pub messages_of : State → List Line
  messages_of state =
      build_answer_messages a.texts state.user_message state.short_term_history state.summary
        state.long_term_facts state.retrieved

  abbrev pub or_nothing : Option Text → Text
  or_nothing none = []
  or_nothing (some t) = t

  abbrev pub answered : State → Result Exception (Option Text) → Result Exception State
  answered state (ok content) = ok (record state { answer = or_nothing content })
  answered state (err e) = err e

  unfoldable pub generate_node : Node
  generate_node state w = (answered state (a.complete (messages_of state)), w)

  -- the edges of `build_graph`, from START to END
  unfoldable pub run_graph : Node
  run_graph state = do
    loaded ← load_memory_node state
    found ← retrieve_docs_node loaded
    generate_node found
