-- ===== src/Lib.antt =====
-- Legal_VietNamese: a retrieval service for legal documents, with accounts, uploads, a background
-- job that indexes them, a search whose results go through a reranker, and a chat whose answers an
-- agent draws from the search and from what it remembers of the user.
--
-- The parts of the program and the files that model them:
--   src/cache/rate_limit.py: Cache/RateLimit.antt; Cache/RateLimit/Spec.antt has the specification,
--     a log of accepted requests, and Cache/RateLimit/Interleaving.antt calls that run at the same
--     time. Redis's sorted sets are the record of Cache/SortedSet.antt.
--   src/core/redis.py: Core/Redis.antt (`make_key`, `cache_get`, `cache_set`).
--   src/core/security.py: Core/Security.antt; argon2 and PyJWT are its parameters.
--   src/core/db.py: Db/Session.antt. A session has a copy of the tables to work on, and the stored
--     tables; `get_session` and `session_scope` say which of them outlives the request.
--   src/db/models: Db/Models.antt. src/db/repositories: Db/Users.antt, Db/Documents.antt and
--     Db/Conversations.antt, which also has the facts; unique constraints are refused insertions.
--   src/llm/client.py: Llm/Lru.antt (`_LRU`), Llm/Embedding.antt (`EmbeddingClient.embed`) and
--     Llm/Completion.antt (`LLMClient.complete`). Both look in the process cache, then in Redis,
--     then ask the API, and fill the caches on the way back.
--   src/retrieval: Retrieval/Search.antt, Retrieval/Rerank.antt and Retrieval/Pipeline.antt. The
--     pipeline rewrites the question, searches Qdrant for each query, merges the hits, and reranks.
--   src/ingestion/parsers: Ingestion/Parsers.antt; src/ingestion/chunkers/base.py:
--     Ingestion/Chunker.antt; src/ingestion/indexer.py: Ingestion/Indexer.antt.
--   src/worker/tasks/ingestion.py: Worker/Process.antt, which runs the parsers, the chunker and the
--     indexer between the sessions of the job; src/worker/tasks/memory.py: Worker/Memory.antt,
--     which has the model read a conversation and saves the facts it finds.
--   src/memory/short_term.py: Memory/ShortTerm.antt; src/memory/long_term.py: Memory/LongTerm.antt.
--   src/agent: Agent/State.antt, Agent/Prompts.antt, Agent/Nodes.antt (the nodes and the graph) and
--     Agent/Stream.antt (`run_agent_stream`). The nodes read the two memories and the retrieval
--     pipeline; the stream is the list of its events, with the exception that leaves it if one does.
--   src/api/routes/auth.py: Api/Auth.antt; src/api/deps.py: Api/Deps.antt;
--     src/api/routes/conversations.py: Api/Conversations.antt; src/api/routes/files.py:
--     Api/Files.antt and, for the stream of a document's events, Api/Files/Events.antt, which
--     Worker/Process/Announcing.antt joins to the events of the job;
--     src/api/routes/chat.py: Api/Chat.antt, which runs the agent and stores what it said.
-- Base.antt and its children hold what all of these share. Code that may raise is a function from a
-- state to a result and a state (Base/Coroutine.antt), so what was written before an exception
-- stays written. The modules of Examples.antt apply the theorems to concrete data.
--
-- Conventions: a text is the list of its code points, a UUID and a moment are numbers, and the UUIDs
-- that a handler draws are arguments. Times of the limiter are microseconds, subtraction on them
-- stops at 0. Scores are an ordered type, since the code only compares and halves them. Loops are
-- recursion on the lists that they go through; only the cutting of a list into batches runs on fuel,
-- the length of the list, which is enough for a batch size that is not 0. Redis, Qdrant, the object
-- store, the APIs of the models, the tokenizer, the text splitter, the searches of the regular
-- expressions and the libraries for PDF, ZIP and XML are parameters; what is assumed of them stands
-- in the records that hold them. The agent, the memories and the indexer take the embedding and the
-- completion as parameters too, which Llm describes on their own. A JSON value that a handler sends
-- is kept as the value it is made of.
--
-- In the ingestion job every session may raise, and the job may be cancelled; in the chat the buffer,
-- the queue and the session of the answer may raise; and so may the cache of the completions, of the
-- rewriting and of the rerankers, at each GET and SET. Elsewhere the database raises what its
-- constraints refuse and nothing else, and the cache of the embeddings is taken to answer: an exception
-- of Redis, which would leave `EmbeddingClient.embed`, is not modelled.
--
-- Not modelled: the schemas' checks of a request; the waits and the number of the retries, which
-- tenacity decides; the graph's checkpoints; clients that disconnect from a stream; start-up,
-- settings, logging, tracing, migrations, health checks, and the clients of services, which are
-- input and output only. But for the limiter, calls run one after the other; there the readings of the
-- clock and the pipelines are steps of their own.
pub mod Base
pub mod Core
pub mod Cache
pub mod Llm
pub mod Db
pub mod Retrieval
pub mod Ingestion
pub mod Worker
pub mod Memory
pub mod Agent
pub mod Api
pub mod Examples
