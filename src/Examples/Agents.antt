-- ===== src/Examples/Agents.antt =====
-- A collection of facts, an extraction, a run of the agent and a chat.
use mathlib.Core.List.{mem-cons_self, mem-cons_of_mem}
use legal_viet_namese.Base.{
  ℕ, ◌≤◌, ◌≡◌, refl, sym, ap, true, false, List, [], ◌∷◌, ◌++◌, Mem, none, some, or_else, Text,
  chars, All, All-take, length, length-take-le, take, subst, Result, ok, err, Bool-cases, inl, inr,
  arith, if◌then◌else◌,
}
use legal_viet_namese.Db.Models.{Db, Message, user, stamped}
use legal_viet_namese.Db.Session.{Exception, value_error}
use legal_viet_namese.Memory.LongTerm
use legal_viet_namese.Memory.LongTerm.{
  FactPayload, FactPoint, FactCondition, fits_all, ScoredFact, FactCollection, NewFact,
  retrieve_user_facts,
}
use legal_viet_namese.Memory.LongTerm.Retrieving.{Retrieved, retrieve_user_facts-Retrieved}
use legal_viet_namese.Retrieval.Rerank.{ranked, scored}
use legal_viet_namese.Retrieval.Pipeline.{queries}
use legal_viet_namese.Worker.Memory.{Extractor, items, entry, text, falsy, extract_facts}
use legal_viet_namese.Worker.Memory.Extraction.{Extracted, extract_facts-Extracted}
use legal_viet_namese.Agent.State.{initial}
use legal_viet_namese.Agent.Nodes.{AgentTools}
use legal_viet_namese.Agent.Nodes
use legal_viet_namese.Agent.Stream.{run_agent_stream}
use legal_viet_namese.Agent.Stream.Ordered.{IsRun, run_agent_stream-Ordered}
use legal_viet_namese.Api.Chat.{ChatServices, accept}
use legal_viet_namese.Api.Chat
use legal_viet_namese.Api.Chat.Prompting.{Opened, accept-repeats}
use legal_viet_namese.Examples.Stores.{
  key_values, nothing, texts_codec, pairs_codec, redis_lists, line_codec,
}
use legal_viet_namese.Examples.Searches.{numbers, qdrant, point}
use legal_viet_namese.Examples.Routes.{tables, talk}

abbrev Points : Type 0
Points = List (FactPoint Text)

abbrev hit : FactPoint Text → ScoredFact ℕ
hit q = record { id = q.id; score = 95; payload = some q.payload }

abbrev found : List FactCondition → Points → List (ScoredFact ℕ)
found must [] = []
found must (q ∷ qs) = if fits_all must q.payload then hit q ∷ found must qs else found must qs

abbrev IsStored : List FactCondition → Points → ScoredFact ℕ → Type 0
IsStored must s h =
    (q : FactPoint Text) × Mem q s
    × (q.id ≡ h.id)
    × (fits_all must q.payload ≡ true)
    × ((p : FactPayload) → h.payload ≡ some p → p ≡ q.payload)

pub All-behind :
    (must : List FactCondition) (q : FactPoint Text) (s : Points) (hs : List (ScoredFact ℕ))
    → All (IsStored must s) hs
    → All (IsStored must (q ∷ s)) hs
All-behind must q s [] h = tt
All-behind must q s (x ∷ xs) ((p, m, i, f, o), h) =
    ((p, mem-cons_of_mem q m, i, f, o), All-behind must q s xs h)

pub found-IsStored : (must : List FactCondition) (s : Points) → All (IsStored must s) (found must s)
found-IsStored must [] = tt
found-IsStored must (q ∷ s) = elim (Bool-cases (fits_all must q.payload)) [
  | inl met ↦ rw met (
    (q, mem-cons_self, refl, met, λ p e. sym (ap (λ o. or_else o p) e)),
    All-behind must q s _ (found-IsStored must s),
  )
  | inr unmet ↦ rw unmet (All-behind must q s _ (found-IsStored must s))
]

abbrev searched : ℕ → List FactCondition → Points → Result Exception (List (ScoredFact ℕ))
searched limit must s = ok (take limit (found must s))

-- a success satisfies the predicate
abbrev OfSuccess : (List (ScoredFact ℕ) → Type 0) → Result Exception (List (ScoredFact ℕ)) → Type 0
OfSuccess P (ok hits) = P hits
OfSuccess P (err e) = Unit {0}

abbrev pub memory : FactCollection ℕ Text
memory = record {
  Store = Points;
  points = λ s. s;
  upsert = λ q s. (ok tt, s ++ (q ∷ []));
  search = λ v limit must with_payload s. searched limit must s;
  search-stored = λ v limit must with_payload s hits e.
      subst (OfSuccess (All (IsStored must s))) e
        (All-take (IsStored must s) limit (found must s) (found-IsStored must s));
  search-limit = λ v limit must with_payload s hits e.
      subst (OfSuccess (λ hs. length hs ≤ limit)) e (length-take-le limit (found must s));
}

abbrev embed : List Text → Result Exception (List Text)
embed ts = ok ts

abbrev likes : NewFact
likes = record {
  user_id = 11;
  tenant_id = 10;
  key = chars "user.role";
  value = chars "lawyer";
  confidence = 80;
  source_message_ids = 41 ∷ [];
}

abbrev said : Message
said = record {
  id = 41;
  conversation_id = 31;
  role = user;
  content = chars "hello";
  meta = [];
  tokens_in = none;
  tokens_out = none;
  latency_ms = none;
  times = stamped 3;
}

abbrev db : Db
db = record tables { messages = said ∷ [] }

abbrev empty : LongTerm.World Points
empty = record { db = db; facts = [] }

abbrev full : LongTerm.World Points
full = record {
  db = db;
  facts =
      record {
        id = 51;
        vector = chars "user.role: lawyer";
        payload = record {
          user_id = 11;
          tenant_id = 10;
          key = chars "user.role";
          value = chars "lawyer";
          confidence = 80;
        };
      }
      ∷ [];
}

retrieve_user_facts-Retrieved_example :
    Retrieved numbers memory embed 11 5 full
      (retrieve_user_facts numbers memory embed 11 (chars "who") 5 full)
retrieve_user_facts-Retrieved_example =
    retrieve_user_facts-Retrieved numbers memory embed 11 (chars "who") 5 full

abbrev extractor : Extractor
extractor = record {
  system_prompt = chars "extract";
  complete = λ system user. ok (some (chars "{}"));
  read = λ raw. items (
      entry (text (chars " user.role ")) (text (chars "lawyer")) falsy
      ∷ entry falsy (text (chars "x")) falsy
      ∷ []);
  float_of = λ v. ok 70;
  no_strip = value_error;
  default = 80;
  draw = λ n. n;
  now = 100;
}

extract_facts-Extracted_example :
    Extracted numbers memory embed 92 extractor 31 empty.db
      (extract_facts numbers memory embed 92 extractor 31 empty)
extract_facts-Extracted_example = extract_facts-Extracted numbers memory embed 92 extractor 31 empty

abbrev agent : AgentTools
agent = record {
  scores = numbers;
  Vector = Text;
  kv = key_values;
  rewriter = record {
    reads = λ key. ok tt;
    writes = λ key. ok tt;
    json = texts_codec;
    sha256 = λ t. t;
    llm_model = chars "m";
    system_prompt = chars "rewrite";
    complete = λ system user. ok (chars "{}");
    read = λ raw. queries (some (chars "q1") ∷ []);
    strip = λ t. t;
  };
  backends = record {
    reads = λ key. ok tt;
    writes = λ key. ok tt;
    json = pairs_codec;
    sha256 = λ t. t;
    show = λ n. n ∷ [];
    dump_ids = λ ids. ids;
    llm_model = chars "m";
    system_prompt = chars "sort";
    complete = λ system user. ok (chars "{}");
    read = λ raw. ranked (scored 0 90 ∷ []);
    cohere_model = chars "c";
    cohere = λ query docs. err value_error;
    max_candidates = 30;
    cohere_enabled = false;
  };
  qdrant = qdrant;
  facts = memory;
  embed = embed;
  redis = redis_lists;
  json = line_codec;
  buffer_key = λ id. id ∷ [];
  settings = record { short_term_buffer_size = 3; short_term_buffer_ttl_s = 60 };
  texts = record { system_answer = chars "answer"; show = λ n. n ∷ [] };
  complete = λ ms. ok (some (chars "yes"));
  complete_stream = λ ms. (
    record { content = some (chars "ye"); usage = none }
        ∷ record { content = some (chars "s"); usage = some (some 7, none, some 8) }
        ∷ [],
    none,
  );
  text_of = λ e. chars "down";
}

abbrev agent_start : Nodes.World agent
agent_start = record {
  db = db;
  facts = full.facts;
  points = point;
  buffers = λ key. [];
  cache = nothing;
}

abbrev asked : Nodes.State agent
asked = initial (chars "what") 31 2 1 none

run_agent_stream-Ordered_example :
    IsRun agent asked agent_start (run_agent_stream agent asked agent_start)
run_agent_stream-Ordered_example = run_agent_stream-Ordered agent asked agent_start

abbrev chat_services : ChatServices ℕ
chat_services = record {
  read_buffer = ok tt;
  warm_buffer = ok tt;
  push_buffer = λ line. ok tt;
  answer_session = ok tt;
  arq_pool = ok tt;
  enqueue_job = λ id. ok tt;
  dump = λ cs. [];
  elapsed = 12;
  rounded = λ n. n;
  user_row = 61;
  answer_row = 62;
  now = 200;
  later = 201;
}

abbrev chat_start : Chat.World agent chat_services
chat_start = record {
  session = record { stored = tables; work = tables };
  facts = full.facts;
  points = point;
  buffers = λ key. [];
  cache = nothing;
  enqueued = [];
}

accept-repeats_example :
    Opened agent chat_services 31
      (chars "what")
      (accept agent chat_services 31 (chars "what") (some talk) chat_start)
accept-repeats_example =
    accept-repeats agent chat_services 31 (chars "what") (omega arith) (some talk) chat_start
