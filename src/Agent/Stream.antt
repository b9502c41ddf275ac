-- ===== src/Agent/Stream.antt =====
-- `run_agent_stream` of src/agent/graph.py: the events, in order, and the exception that leaves the
-- generator, if one does.
pub mod Answer
pub mod Ordered
use legal_viet_namese.Base.{
  ℕ, List, [], ◌∷◌, ◌++◌, Option, none, some, or_else, Text, chars, join, Result, ok, err,
}
use legal_viet_namese.Db.Session.{Exception}
use legal_viet_namese.Agent.State.{Citation}
use legal_viet_namese.Agent.Nodes.{
  AgentTools, World, State, StreamChunk, load_memory_node, retrieve_docs_node, messages_of,
}

-- the dict `usage`: empty, or three numbers
pub record Usage : Type 0 where
  pub prompt_tokens : ℕ
  pub completion_tokens : ℕ
  pub total_tokens : ℕ

pub data AgentEvent (S : Type 0) : Type 0 where
  tool_call : Text → AgentEvent S
  citations : List (Citation S) → AgentEvent S
  token : Text → AgentEvent S
  error : Text → AgentEvent S
  finished : Text → List (Citation S) → Option Usage → AgentEvent S

-- `getattr(u, …, 0) or 0`
abbrev pub usage_of : Option ℕ × Option ℕ × Option ℕ → Usage
usage_of (p, c, t) = record {
  prompt_tokens = or_else p 0;
  completion_tokens = or_else c 0;
  total_tokens = or_else t 0;
}

-- `if getattr(chunk, "usage", None): usage = …`
abbrev pub update_usage : Option (Option ℕ × Option ℕ × Option ℕ) → Option Usage → Option Usage
update_usage none usage = usage
update_usage (some u) usage = some (usage_of u)

-- `if delta.content`: an empty content is no token
abbrev pub tokens_of : Option Text → List Text
tokens_of none = []
tokens_of (some []) = []
tokens_of (some (c ∷ cs)) = (c ∷ cs) ∷ []

module _ (a : AgentTools) where
  abbrev pub Event : Type 0
  Event = AgentEvent a.scores.Score

  abbrev pub yield_tokens : List Text → List Event → List Event
  yield_tokens [] events = events
  yield_tokens (t ∷ ts) events = token t ∷ yield_tokens ts events

  -- behind the last chunk
  abbrev pub stream_end :
      List (Citation a.scores.Score) → List Text → Option Usage → Option Exception → List Event
  stream_end cites full_text usage none = finished (join [] full_text) cites usage ∷ []
  stream_end cites full_text usage (some e) = error (a.text_of e) ∷ []

  -- the loop over the chunks
  unfoldable pub stream_chunks :
      List (Citation a.scores.Score)
      → List StreamChunk
      → Option Exception
      → List Text
      → Option Usage
      → List Event
  stream_chunks cites [] broken full_text usage = stream_end cites full_text usage broken
  stream_chunks cites (k ∷ ks) broken full_text usage = yield_tokens (tokens_of k.content) (
      stream_chunks cites ks broken (full_text ++ tokens_of k.content) (update_usage k.usage usage))

  abbrev pub generate : State a → List Event
  generate state =
      let (chunks, broken) = a.complete_stream (messages_of a state) in
      stream_chunks state.citations chunks broken [] none

  abbrev pub Run : Type 0
  Run = (List Event × Option Exception) × World a

  -- behind the second node
  abbrev pub after_docs : Result Exception (State a) × World a → Run
  after_docs (err e, w) = (([], some e), w)
  after_docs (ok state, w) = ((citations state.citations ∷ generate state, none), w)

  abbrev pub yield_first : Event → Run → Run
  yield_first e ((events, broken), w) = ((e ∷ events, broken), w)

  -- behind the first node
  abbrev pub after_memory : Result Exception (State a) × World a → Run
  after_memory (err e, w) = (([], some e), w)
  after_memory (ok state, w) =
      yield_first (tool_call (chars "retrieve_docs")) (after_docs (retrieve_docs_node a state w))

  unfoldable pub run_agent_stream : State a → World a → Run
  run_agent_stream state w =
      yield_first (tool_call (chars "load_memory")) (after_memory (load_memory_node a state w))
