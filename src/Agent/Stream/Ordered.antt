-- ===== src/Agent/Stream/Ordered.antt =====
-- The order of the events of src/agent/graph.py, and whose documents they cite.
use legal_viet_namese.Base.{
  ◌≤◌, ◌≡◌, refl, ap, subst, ◌⊎◌, inl, inr, List, [], ◌∷◌, map, All, All-map, length, none, some,
  true, chars, Result, ok, err, arith, continue, pure,
}
use legal_viet_namese.Db.Session.{Exception}
use legal_viet_namese.Db.Models.{Db}
use legal_viet_namese.Memory.ShortTerm.{Line}
use legal_viet_namese.Memory.LongTerm
use legal_viet_namese.Memory.LongTerm.{RetrievedFact, retrieve_user_facts}
use legal_viet_namese.Retrieval.Pipeline.{RetrievedChunk}
use legal_viet_namese.Retrieval.Pipeline.Isolation.{AllOwned, IsOwned, retrieve-AllOwned}
use legal_viet_namese.Agent.State.{Citation}
use legal_viet_namese.Agent.Nodes.{
  AgentTools, World, State, load_memory_node, retrieve_docs_node, messages_of, citation_of,
  with_docs, embed_one, history_of,
}
use legal_viet_namese.Agent.Stream.{
  tool_call, citations, generate, Run, after_docs, after_memory, yield_first, run_agent_stream,
}
use legal_viet_namese.Agent.Stream.Answer.{Event, IsAnswer, stream_chunks-IsAnswer}

module _ (a : AgentTools) where
  open a use {scores}

  module _ (state : State a) (w : World a) where
    -- the citation of a stored point of the user and the tenant
    pub record IsCited (c : Citation scores.Score) : Type 0 where
      pub chunk : RetrievedChunk scores.Score
      pub owned :
          IsOwned scores a.kv a.rewriter a.backends a.qdrant
            (embed_one a)
            w.points
            state.tenant_id
            (some state.user_id)
            none
            chunk
      pub same : c ≡ citation_of a chunk

    -- a run that came to the answer
    pub record IsComplete (events : List (Event a)) : Type 0 where
      pub cites : List (Citation scores.Score)
      pub cited : All IsCited cites
      pub few : length cites ≤ 5
      pub rest : List (Event a)
      pub answer : IsAnswer a cites [] rest
      pub shape : events ≡ citations cites ∷ rest

    -- the events behind the first two
    Documented : Run a → Type 0
    Documented ((events, none), w') = IsComplete events
    Documented ((events, some e), w') = events ≡ []

    to_citations :
        (chunks : List (RetrievedChunk scores.Score))
        → All
            (IsOwned scores a.kv a.rewriter a.backends a.qdrant
              (embed_one a)
              w.points
              state.tenant_id
              (some state.user_id)
              none)
            chunks
        → All IsCited (map (citation_of a) chunks)
    to_citations chunks h =
        All-map _ IsCited (citation_of a) (λ c o. record { chunk = c; owned = o; same = refl })
          chunks h

    length-citations :
        (chunks : List (RetrievedChunk scores.Score))
        → length (map (citation_of a) chunks) ≡ length chunks
    length-citations [] = refl
    length-citations (c ∷ cs) = omega (arith, length-citations cs)

    -- a run of the second node, by what the retrieval returned
    answered-IsComplete :
        (st : State a) (chunks : List (RetrievedChunk scores.Score))
        → AllOwned scores a.kv a.rewriter a.backends a.qdrant
            (embed_one a)
            w.points
            state.tenant_id
            (some state.user_id)
            none
            5
            (ok chunks)
        → st.citations ≡ map (citation_of a) chunks
        → IsComplete (citations st.citations ∷ generate a st)
    answered-IsComplete st chunks h e = record {
      cites = map (citation_of a) chunks;
      cited = to_citations chunks h.0;
      few = omega (arith, h.1, length-citations chunks);
      rest = generate a st;
      answer =
          subst (λ cites. IsAnswer a cites [] (generate a st)) e
            (stream_chunks-IsAnswer a st.citations (a.complete_stream (messages_of a st)).0
              (a.complete_stream (messages_of a st)).1 [] none);
      shape = ap (λ cites. citations cites ∷ generate a st) e;
    }

    module _ (history : List Line) (facts : List (RetrievedFact scores.Score)) (db : Db)
        (stored : a.facts.Store) where
      abbrev loaded : State a
      loaded = record state { short_term_history = history; long_term_facts = facts }

      abbrev w' : World a
      w' = record w { db = db; facts = stored }

      docs-Documented : Documented (after_docs a (retrieve_docs_node a loaded w'))
      unfolding retrieve_docs_node Documented
      docs-Documented = go _ (
          retrieve-AllOwned scores a.kv a.rewriter a.backends a.qdrant (embed_one a) w.points
            state.tenant_id (some state.user_id) none state.user_message 20 5 true w.cache)
        where
          go :
              (y : Result Exception (List (RetrievedChunk scores.Score)) × a.kv.Store)
              → AllOwned scores a.kv a.rewriter a.backends a.qdrant
                  (embed_one a)
                  w.points
                  state.tenant_id
                  (some state.user_id)
                  none
                  5
                  y.0
              → Documented (
                  after_docs a (
                    continue y.0
                      (λ chunks. pure (with_docs a loaded chunks))
                      (record w' { cache = y.1 })))
          go (ok chunks, s) h = answered-IsComplete (with_docs a loaded chunks) chunks h refl
          go (err e, s) h = refl

    abbrev pub both : List (Event a) → List (Event a)
    both rest = tool_call (chars "load_memory") ∷ tool_call (chars "retrieve_docs") ∷ rest

    -- The run announces the two nodes, and comes to the answer; or the first or the second raises.
    unfoldable pub IsRun : Run a → Type 0
    IsRun ((events, none), end) = (rest : List (Event a)) × (events ≡ both rest) × IsComplete rest
    IsRun ((events, some e), end) =
        (events ≡ tool_call (chars "load_memory") ∷ []) ⊎ (events ≡ both [])

    announced :
        (r : Run a)
        → Documented r
        → IsRun (
            yield_first a
              (tool_call (chars "load_memory"))
              (yield_first a (tool_call (chars "retrieve_docs")) r))
    unfolding Documented IsRun
    announced ((events, none), end) h = (events, refl, h)
    announced ((events, some e), end) h = inr (ap both h)

    -- A run of the agent yields the call of the memory, the call of the retrieval, and the citations,
    -- at most five, each of a stored point of the user and the tenant; then tokens that are not
    -- empty; and last either the answer, which is the tokens joined, with the same citations, or an
    -- error. It is cut off behind the first or the second event exactly when it raises.
    pub run_agent_stream-Ordered : IsRun (run_agent_stream a state w)
    unfolding run_agent_stream load_memory_node IsRun
    run_agent_stream-Ordered = go (
        retrieve_user_facts scores a.facts a.embed state.user_id state.user_message 5
          (record { db = w.db; facts = w.facts }))
      where
        go :
            (y : Result Exception (List (RetrievedFact scores.Score))
              × LongTerm.World a.facts.Store)
            → IsRun (
                yield_first a (tool_call (chars "load_memory")) (
                  after_memory a (
                    continue y.0
                      (λ facts. pure (record state {
                        short_term_history = history_of a state.conversation_id w;
                        long_term_facts = facts;
                      }))
                      (record w { db = y.1.db; facts = y.1.facts }))))
        go (ok facts, m) =
            announced _ (docs-Documented (history_of a state.conversation_id w) facts m.db m.facts)
        go (err e, m) = inl refl
